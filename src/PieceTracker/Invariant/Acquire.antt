-- ===== src/PieceTracker/Invariant/Acquire.antt =====
-- src/piece_tracker.rs: what `acquire_piece` may answer, and what it then has done.
use librtbit.Base.{
  ℕ, ◌<◌, ◌≡◌, refl, ap, true, false, not, ◌&&◌, Option, none, some, List, [], ◌∷◌, ◌>>=◌, arith,
  ltb, ◌==◌, inl, inr, ◌⊎◌, Bool-cases, Option-cases, Returns, length, All, subst, ==→eq,
}
use librtbit.Base.Assoc.{
  insert, contains_key, contains_key-insert, insert-IsMap, contains_key-lookup,
}
use librtbit.Base.Bits.{bit, contains, index-eq-bit}
use librtbit.Lengths.{Lengths}
use librtbit.ChunkTracker.{is_piece_have}
use librtbit.ChunkTracker.Files.{iter_queued_pieces}
use librtbit.ChunkTracker.Files.Queue.{is_wanted, FitsQueue, iter_queued_pieces-exact}
use librtbit.ChunkTracker.Pieces.{IsValid-same, Reserved, reserve_needed_piece-Reserved}
use librtbit.PieceTracker.{
  PieceTracker, InflightPiece, AcquireRequest, AcquireResult, reserved, none_available, try_steal,
  reserve_piece, first_priority, first_queued, choose_piece, acquire_piece,
}
use librtbit.PieceTracker.Steal.{Steals, try_steal-Steals}
use librtbit.PieceTracker.Invariant.{Inv}

-- What a request may ask of a tracker: valid priority pieces, and the torrent's files.
pub record IsRequest (pt : PieceTracker) (req : AcquireRequest) : Type 0 where
  pub priorities_valid : All (λ p. p < pt.chunks.lengths.total_pieces) req.priority_pieces
  pub files_fit : All (FitsQueue pt.chunks) req.file_infos
  pub files_counted : length pt.chunks.per_file_bytes ≡ length req.file_infos

-- A piece that could be reserved for the request.
abbrev IsFree : PieceTracker → AcquireRequest → ℕ → Type 0
IsFree pt req p =
    (p < pt.chunks.lengths.total_pieces)
    × (req.peer_has_piece p ≡ true)
    × (bit pt.chunks.have p ≡ false)
    × (contains_key p pt.inflight ≡ false)

-- No piece of an unfinished file that stands in the queue is at the peer.
abbrev NoneQueued : PieceTracker → AcquireRequest → Type 0
NoneQueued pt req =
    (p : ℕ)
    → p < pt.chunks.lengths.total_pieces
    → is_wanted pt.chunks req.file_infos req.file_priorities p ≡ true
    → bit pt.chunks.queue_pieces p ≡ true
    → req.peer_has_piece p ≡ false

-- The three answers.
pub data Acquired (pt : PieceTracker) (now : ℕ) (req : AcquireRequest)
    (r : PieceTracker × AcquireResult) : Type 0 where
  by_reserve :
      (p : ℕ)
      → IsFree pt req p
      → r.1 ≡ reserved p
      → Reserved p pt.chunks r.0.chunks
      → r.0.inflight ≡ insert p (record { peer = req.peer; started = now }) pt.inflight
      → Acquired pt now req r
  by_steal : (m p : ℕ) (info : InflightPiece) → Steals pt req now m p info r → Acquired pt now req r
  by_none : r ≡ (pt, none_available) → NoneQueued pt req → Acquired pt now req r

reserve_piece-Acquired :
    (pt : PieceTracker) (now : ℕ) (req : AcquireRequest) (p : ℕ)
    → Inv pt
    → IsFree pt req p
    → Returns (reserve_piece pt now p req.peer) (Acquired pt now req)
unfolding reserve_piece
reserve_piece-Acquired pt now req p v f =
    let (ct, e, q) = reserve_needed_piece-Reserved p v.valid.sized f.0 in
    (
      (
        record {
          chunks = ct;
          inflight = insert p (record { peer = req.peer; started = now }) pt.inflight;
        },
        reserved p,
      ),
      rw (e, ◌>>=◌) refl,
      by_reserve p f refl q refl,
    )

-- What the two loops find.
abbrev Found : PieceTracker → AcquireRequest → Option ℕ → Type 0
Found pt req none = NoneQueued pt req
Found pt req (some p) = IsFree pt req p

abbrev FreeIfAny : PieceTracker → AcquireRequest → Option ℕ → Type 0
FreeIfAny pt req none = Unit
FreeIfAny pt req (some p) = IsFree pt req p

first_priority-FreeIfAny :
    (pt : PieceTracker) (req : AcquireRequest) (ps : List ℕ)
    → Inv pt
    → All (λ p. p < pt.chunks.lengths.total_pieces) ps
    → Returns (first_priority pt req ps) (FreeIfAny pt req)
unfolding first_priority is_piece_have
first_priority-FreeIfAny pt req [] v h = (none, refl, tt)
first_priority-FreeIfAny pt req (p ∷ ps) v h =
    let in_have : p < length pt.chunks.have =
      omega (arith, h.0, v.valid.laws.pieces_fit, v.valid.have_sized) in
    rw (index-eq-bit pt.chunks.have p in_have, ◌>>=◌)
      (elim (Bool-cases
        (not (bit pt.chunks.have p) && not (contains_key p pt.inflight) && req.peer_has_piece p)) [
          | inl free ↦ (some p, rw free refl, (h.0, ground arith, ground arith, ground arith))
          | inr taken ↦ rw taken (first_priority-FreeIfAny pt req ps v h.1)
        ])

first_queued_cases :
    (req : AcquireRequest) (ps : List ℕ)
    → ((first_queued req ps ≡ none)
        × ((p : ℕ) → contains ps p ≡ true → req.peer_has_piece p ≡ false))
      ⊎ ((p : ℕ) × (first_queued req ps ≡ some p)
          × (contains ps p ≡ true)
          × (req.peer_has_piece p ≡ true))
unfolding first_queued
first_queued_cases req [] = inl (refl, λ p c. cc)
first_queued_cases req (x ∷ xs) = elim (Bool-cases (req.peer_has_piece x)) [
  | inl has ↦ inr (x, rw has refl, ground arith, has)
  | inr lacks ↦ elim (first_queued_cases req xs) [
    | inl (e, no_one) ↦
        inl (rw lacks e, λ p c. ground (arith, no_one p, ap req.peer_has_piece {x = p} {y = x}))
    | inr (p, e, c, has) ↦ inr (p, rw lacks e, ground arith, has)
  ]
]

choose_piece-Found :
    (pt : PieceTracker) (req : AcquireRequest)
    → Inv pt
    → IsRequest pt req
    → Returns (choose_piece pt req) (Found pt req)
unfolding choose_piece
choose_piece-Found pt req v q =
    let (prior, e, f) = first_priority-FreeIfAny pt req req.priority_pieces v q.priorities_valid in
    rw (e, ◌>>=◌) (after prior f)
  where
    queued_free :
        (ps : List ℕ)
        → ((j : ℕ)
            → contains ps j ≡ (
                is_wanted pt.chunks req.file_infos req.file_priorities j
                && bit pt.chunks.queue_pieces j
                && ltb j pt.chunks.lengths.total_pieces))
        → Found pt req (first_queued req ps)
    queued_free ps k = elim (first_queued_cases req ps) [
      | inl (e, no_one) ↦ rw (e, Found) (λ p a w b. no_one p (ground (arith, k p)))
      | inr (p, e, c, has) ↦
          let valid : p < pt.chunks.lengths.total_pieces = ground (arith, k p) in
          let queued : bit pt.chunks.queue_pieces p ≡ true = ground (arith, k p) in
          rw (e, Found)
            (
              valid,
              has,
              ground (arith, v.had_not_queued p valid),
              ground (arith, v.flying_not_queued p),
            )
    ]

    after :
        (prior : Option ℕ)
        → FreeIfAny pt req prior
        → Returns
            (elim prior [
              | some p ↦ some (some p)
              | none ↦ do
                queued ← iter_queued_pieces pt.chunks req.file_priorities req.file_infos
                some (first_queued req queued)
            ])
            (Found pt req)
    after (some p) f = (some p, refl, f)
    after none f =
        let (ps, e, k) =
          iter_queued_pieces-exact pt.chunks req.file_priorities req.file_infos v.valid.sized
            q.files_fit q.files_counted in
        (first_queued req ps, rw (e, ◌>>=◌) refl, queued_free ps k)

-- On a tracker that meets the invariant, a request whose priority pieces are valid and whose files
-- fit the bit fields and are counted is answered without a panic, in one of three ways: a piece
-- that the peer has, and that was neither had nor in flight, is taken out of the queue and put in
-- flight for the peer; or a piece is stolen, as `try_steal` does; or nothing changes and the peer
-- has no piece of an unfinished file that stands in the queue.
pub acquire_piece-Acquired :
    (ten three : ℕ → ℕ) (pt : PieceTracker) (now : ℕ) (req : AcquireRequest)
    → Inv pt
    → IsRequest pt req
    → Returns (acquire_piece ten three pt now req) (Acquired pt now req)
unfolding acquire_piece
acquire_piece-Acquired ten three pt now req v q = elim (Option-cases (try_steal pt req now ten)) [
  | inr (r, e) ↦
      let (avg, p, info, _, s) = try_steal-Steals pt req now ten r v.is_map e in
      (r, rw (e, acquire_piece) refl, by_steal (ten avg) p info s)
  | inl no_ten ↦
      let (chosen, e, f) = choose_piece-Found pt req v q in
      rw (no_ten, acquire_piece) (rw (e, ◌>>=◌) (second chosen f))
]
  where
    second :
        (chosen : Option ℕ)
        → Found pt req chosen
        → Returns
            (elim chosen [
              | some p ↦ reserve_piece pt now p req.peer
              | none ↦ elim (try_steal pt req now three) [
                | some r ↦ some r
                | none ↦ some (pt, none_available)
              ]
            ])
            (Acquired pt now req)
    second (some p) f = reserve_piece-Acquired pt now req p v f
    second none f = elim (Option-cases (try_steal pt req now three)) [
      | inr (r, e) ↦
          let (avg, p, info, _, s) = try_steal-Steals pt req now three r v.is_map e in
          (r, rw e refl, by_steal (three avg) p info s)
      | inl no_three ↦ ((pt, none_available), rw no_three refl, by_none refl f)
    ]

-- A piece newly in flight, or in flight by another peer.
flying-insert :
    (pt : PieceTracker) (p : ℕ) (info : InflightPiece) (P : ℕ → Type 0)
    → P p
    → ((i : ℕ) → contains_key i pt.inflight ≡ true → P i)
    → (i : ℕ) → contains_key i (insert p info pt.inflight) ≡ true
    → P i
flying-insert pt p info P here others i c = elim (Bool-cases (p == i)) [
  | inl same ↦ subst P (==→eq p i same) here
  | inr other ↦ others i (ground (arith, contains_key-insert p i info pt.inflight))
]

-- Whatever the answer, the invariant holds after it.
pub Acquired-Inv :
    {pt : PieceTracker} {now : ℕ} {req : AcquireRequest} {r : PieceTracker × AcquireResult}
    → Inv pt
    → Acquired pt now req r
    → Inv r.0
Acquired-Inv {pt} {now} {req} v (by_none e _) = rw e v
Acquired-Inv {pt} {now} {req} v (by_steal m p info s) =
    let there = contains_key-lookup p pt.inflight s.in_flight in
    record {
      valid = rw s.chunks v.valid;
      is_map = rw s.moved (insert-IsMap p _ pt.inflight v.is_map);
      known = rw (s.moved, s.chunks) (flying-insert pt p _ _ (v.known p there) v.known);
      flying_not_had =
          rw (s.moved, s.chunks)
            (flying-insert pt p _ _ (v.flying_not_had p there) v.flying_not_had);
      flying_not_queued =
          rw (s.moved, s.chunks)
            (flying-insert pt p _ _ (v.flying_not_queued p there) v.flying_not_queued);
      had_not_queued = rw s.chunks v.had_not_queued;
    }
Acquired-Inv {pt} {now} {req} v (by_reserve p f e q m) = record {
  valid = IsValid-same v.valid q.sized q.lengths q.have q.selected q.hns;
  is_map = rw m (insert-IsMap p _ pt.inflight v.is_map);
  known = rw (m, q.lengths) (flying-insert pt p _ _ f.0 v.known);
  flying_not_had = rw (m, q.have) (flying-insert pt p _ _ f.2 v.flying_not_had);
  flying_not_queued = rw m (
      flying-insert pt p _ _ (ground (arith, q.queue p))
        (λ i c. ground (arith, q.queue i, v.flying_not_queued i c)));
  had_not_queued = λ i b c. ground (
    arith,
    q.queue i,
    v.had_not_queued i,
    ap (λ x. bit x i) q.have,
    ap (λ (l : Lengths). l.total_pieces) q.lengths,
  );
}
