-- ===== src/PieceTracker/Invariant/Checking.antt =====
-- src/piece_tracker.rs: a piece whose hash is being checked is neither in flight nor had, so the
-- priority pieces of a request may name it.
use librtbit.Base.{
  ℕ, ◌<◌, ◌≡◌, refl, true, false, none, some, List, ◌∷◌, ◌>>=◌, arith, length, Returns,
}
use librtbit.Base.Assoc.{contains_key, insert, contains_key-insert}
use librtbit.Base.Bits.{bit, index-eq-bit}
use librtbit.ChunkTracker.{is_piece_have}
use librtbit.ChunkTracker.Pieces.{reserve_needed_piece-Reserved, mark_piece_downloaded-Downloaded}
use librtbit.PieceTracker.{
  PieceTracker, InflightPiece, AcquireRequest, reserved, try_steal, first_priority, choose_piece,
  reserve_piece, acquire_piece, mark_piece_hash_ok,
}
use librtbit.PieceTracker.Invariant.{Inv}
use librtbit.PieceTracker.Invariant.Acquire.{Acquired-Inv, Acquired, by_reserve}

-- A piece verified while it is in flight is had and in flight.
mark_piece_hash_ok_in_flight :
    (pt : PieceTracker) (p : ℕ)
    → Inv pt
    → contains_key p pt.inflight ≡ true
    → Returns
        (mark_piece_hash_ok pt p)
        (λ pt'. (contains_key p pt'.inflight ≡ true) × (bit pt'.chunks.have p ≡ true) × (¬ Inv pt'))
unfolding mark_piece_hash_ok
mark_piece_hash_ok_in_flight pt p v c =
    let (ct, e, d) = mark_piece_downloaded-Downloaded p v.valid (v.known p c) in
    let had : bit ct.have p ≡ true = ground (arith, d.have p) in
    (
      record pt { chunks = ct },
      rw (e, ◌>>=◌) refl,
      (c, had, (λ w. let no : bit ct.have p ≡ false = w.flying_not_had p c in absurd (cc))),
    )

module _ (pt : PieceTracker) (req : AcquireRequest) (p : ℕ) (ps : List ℕ) (v : Inv pt)
    (h : p < pt.chunks.lengths.total_pieces) (missing : bit pt.chunks.have p ≡ false)
    (out : contains_key p pt.inflight ≡ false) (first : req.priority_pieces ≡ p ∷ ps)
    (has : req.peer_has_piece p ≡ true) where
  first_priority-first : first_priority pt req (p ∷ ps) ≡ some (some p)
  unfolding first_priority is_piece_have
  first_priority-first =
      let in_have : p < length pt.chunks.have =
        omega (arith, h, v.valid.laws.pieces_fit, v.valid.have_sized) in
      rw (index-eq-bit pt.chunks.have p in_have, ◌>>=◌) (rw (missing, out, has) refl)

  choose_piece-priority : choose_piece pt req ≡ some (some p)
  unfolding choose_piece
  choose_piece-priority = rw (first, first_priority-first, ◌>>=◌) refl

  -- On a tracker that meets the invariant, take a valid piece that is neither had nor in flight (as
  -- while its hash is checked), and a request of a peer that has the piece, that names it first and
  -- for which nothing is stolen at the higher threshold. The request reserves the piece, and if its
  -- check then succeeds the piece is had and in flight, and the invariant is broken.
  pub acquire_piece_reserves_checked :
      (ten three : ℕ → ℕ) (now : ℕ)
      → try_steal pt req now ten ≡ none
      → Returns (acquire_piece ten three pt now req) (λ r.
        (r.1 ≡ reserved p)
        × Returns (mark_piece_hash_ok r.0 p) (λ pt'.
          (contains_key p pt'.inflight ≡ true) × (bit pt'.chunks.have p ≡ true) × (¬ Inv pt')))
  unfolding acquire_piece reserve_piece
  acquire_piece_reserves_checked ten three now no_steal =
      let (ct, e, q) = reserve_needed_piece-Reserved p v.valid.sized h in
      let info : InflightPiece = record { peer = req.peer; started = now } in
      let pt' : PieceTracker = record { chunks = ct; inflight = insert p info pt.inflight } in
      let a : Acquired pt now req (pt', reserved p) =
        by_reserve p (h, has, missing, out) refl q refl in
      let flies : contains_key p pt'.inflight ≡ true =
        ground (arith, contains_key-insert p p info pt.inflight) in
      (
        (pt', reserved p),
        rw (no_steal, acquire_piece) (rw (choose_piece-priority, ◌>>=◌) (rw (e, ◌>>=◌) refl)),
        (refl, mark_piece_hash_ok_in_flight pt' p (Acquired-Inv v a) flies),
      )
