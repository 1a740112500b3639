-- ===== src/PieceTracker/Invariant/Release.antt =====
-- src/piece_tracker.rs: `release_pieces_owned_by` and `into_chunks`.
use librtbit.Base.{
  ℕ, ◌<◌, ◌≡◌, refl, ap, ◌∙◌, Bool, true, false, not, ◌&&◌, ◌||◌, Option, none, some, List, [], ◌∷◌,
  ◌>>=◌, arith, ◌==◌, if◌then◌else◌, inl, inr, Bool-cases, Returns, >>=-some, length, All,
}
use librtbit.Base.Assoc.{
  lookup, remove, IsMap, keys, contains_key, contains_key-remove, lookup-remove, remove-IsMap,
  contains_key-lookup, lookup-absent,
}
use librtbit.Base.Bits.{bit, contains}
use librtbit.Lengths.{Lengths}
use librtbit.ChunkTracker.{ChunkTracker, mark_piece_broken_if_not_have}
use librtbit.ChunkTracker.Pieces.{IsValid, mark_piece_broken_if_not_have-Requeued}
use librtbit.PieceTracker.{
  PieceTracker, InflightPiece, mark_all_broken, into_chunks, owned_by, release_one, release_all,
  release_pieces_owned_by,
}
use librtbit.PieceTracker.Invariant.{Inv, IsFresh, Requeued-IsValid}

-- The given pieces are no longer in flight, and are queued unless they are had; all else stays.
record Released (ps : List ℕ) (pt pt' : PieceTracker) : Type 0 where
  pub inv : Inv pt'
  pub lengths : pt'.chunks.lengths ≡ pt.chunks.lengths
  pub have : pt'.chunks.have ≡ pt.chunks.have
  pub selected : pt'.chunks.selected ≡ pt.chunks.selected
  pub flying :
      (j : ℕ) → lookup j pt'.inflight ≡ (if contains ps j then none else lookup j pt.inflight)
  pub queue :
      (j : ℕ)
      → bit pt'.chunks.queue_pieces j
        ≡ ((contains ps j && not (bit pt.chunks.have j)) || bit pt.chunks.queue_pieces j)

release_one-Released :
    (pt : PieceTracker) (p : ℕ)
    → Inv pt
    → p < pt.chunks.lengths.total_pieces
    → Returns (release_one pt p) (Released (p ∷ []) pt)
unfolding release_one
release_one-Released pt p v h =
    let (ct, e, q) = mark_piece_broken_if_not_have-Requeued p v.valid.sized h in
    let gone = λ (i : ℕ). contains_key-remove p i pt.inflight v.is_map in
    (
      record { chunks = ct; inflight = remove p pt.inflight },
      rw (e, ◌>>=◌) refl,
      record {
        inv = record {
          valid = Requeued-IsValid v.valid q;
          is_map = remove-IsMap p pt.inflight v.is_map;
          known = λ i c. rw q.lengths (v.known i (ground (arith, gone i)));
          flying_not_had = λ i c. rw q.have (v.flying_not_had i (ground (arith, gone i)));
          flying_not_queued = λ i c. ground (arith, q.queue i, gone i, v.flying_not_queued i);
          had_not_queued = λ i b c. ground (
            arith,
            q.queue i,
            v.had_not_queued i,
            ap (λ x. bit x i) q.have,
            ap (bit pt.chunks.have) {x = i} {y = p},
            ap (λ (l : Lengths). l.total_pieces) q.lengths,
          );
        };
        lengths = q.lengths;
        have = q.have;
        selected = q.selected;
        flying = λ j. ground (arith, lookup-remove p j pt.inflight v.is_map);
        queue = λ j. ground (arith, q.queue j, ap (bit pt.chunks.have) {x = j} {y = p});
      },
    )

release_all-Released :
    (pt : PieceTracker) (ps : List ℕ)
    → Inv pt
    → All (λ p. p < pt.chunks.lengths.total_pieces) ps
    → Returns (release_all pt ps) (Released ps pt)
unfolding release_all
release_all-Released pt [] v h = (
  pt,
  refl,
  record {
    inv = v;
    lengths = refl;
    have = refl;
    selected = refl;
    flying = λ j. refl;
    queue = λ j. refl;
  },
)
release_all-Released pt (p ∷ ps) v h =
    let (pt₁, e₁, r₁) = release_one-Released pt p v h.0 in
    let (pt₂, e₂, r₂) = release_all-Released pt₁ ps r₁.inv (rw r₁.lengths h.1) in
    (
      pt₂,
      >>=-some (release_one pt p) (λ c. release_all c ps) e₁ ∙ e₂,
      record {
        inv = r₂.inv;
        lengths = r₂.lengths ∙ r₁.lengths;
        have = r₂.have ∙ r₁.have;
        selected = r₂.selected ∙ r₁.selected;
        flying = λ j. ground (arith, r₁.flying j, r₂.flying j);
        queue = λ j. ground (arith, r₁.queue j, r₂.queue j, ap (λ x. bit x j) r₁.have);
      },
    )

-- Whether a piece is in flight by a peer.
abbrev pub is_owned : ℕ → Option InflightPiece → Bool
is_owned peer none = false
is_owned peer (some info) = info.peer == peer

contains-owned_by :
    (peer j : ℕ) (m : List (ℕ × InflightPiece))
    → IsMap m
    → contains (owned_by peer m) j ≡ is_owned peer (lookup j m)
unfolding lookup
contains-owned_by peer j [] u = refl
contains-owned_by peer j ((k, info) ∷ m) u = ground (
  arith,
  contains-owned_by peer j m u.1,
  lookup-absent k m u.0,
  ap (λ n. lookup n m) {x = j} {y = k},
)

owned_by-known :
    (peer n : ℕ) (m : List (ℕ × InflightPiece))
    → ((i : ℕ) → contains_key i m ≡ true → i < n)
    → All (λ p. p < n) (owned_by peer m)
owned_by-known peer n [] h = tt
owned_by-known peer n ((k, info) ∷ m) h = elim (Bool-cases (info.peer == peer)) [
  | inl mine ↦
      rw (mine, owned_by) (h k (ground arith), owned_by-known peer n m (λ i c. h i (ground arith)))
  | inr other ↦ rw (other, owned_by) (owned_by-known peer n m (λ i c. h i (ground arith)))
]

-- On a tracker that meets the invariant `release_pieces_owned_by` does not panic: exactly the
-- pieces in flight for the peer leave flight and are queued, all other pieces stay in flight and in
-- the queue as they were, the count is that of the pieces, and the invariant holds.
pub release_pieces_owned_by-Released :
    (pt : PieceTracker) (peer : ℕ)
    → Inv pt
    → Returns (release_pieces_owned_by pt peer) (λ r.
      Inv r.0
      × (r.1 ≡ length (owned_by peer pt.inflight))
      × ((j : ℕ)
          → lookup j r.0.inflight
            ≡ (if is_owned peer (lookup j pt.inflight) then none else lookup j pt.inflight))
      × ((j : ℕ)
          → bit r.0.chunks.queue_pieces j
            ≡ (is_owned peer (lookup j pt.inflight) || bit pt.chunks.queue_pieces j)))
unfolding release_pieces_owned_by
release_pieces_owned_by-Released pt peer v =
    let ps = owned_by peer pt.inflight in
    let (pt', e, r) = release_all-Released pt ps v (owned_by-known peer _ pt.inflight v.known) in
    let owned = λ (j : ℕ). contains-owned_by peer j pt.inflight v.is_map in
    (
      (pt', length ps),
      rw (e, ◌>>=◌) refl,
      (
        r.inv,
        refl,
        λ j. ground (arith, r.flying j, owned j),
        λ j. ground (arith, r.queue j, owned j, owned_not_had j (lookup j pt.inflight) refl),
      ),
    )
  where
    owned_not_had :
        (j : ℕ) (o : Option InflightPiece)
        → lookup j pt.inflight ≡ o
        → is_owned peer o ≡ true
        → bit pt.chunks.have j ≡ false
    owned_not_had j none e w = absurd (cc)
    owned_not_had j (some info) e w = v.flying_not_had j (contains_key-lookup j pt.inflight e)

-- What the loop of `into_chunks` leaves.
record AllRequeued (ps : List ℕ) (ct ct' : ChunkTracker) : Type 0 where
  valid : IsValid ct'
  lengths : ct'.lengths ≡ ct.lengths
  have : ct'.have ≡ ct.have
  queue :
      (j : ℕ)
      → bit ct'.queue_pieces j ≡ ((contains ps j && not (bit ct.have j)) || bit ct.queue_pieces j)

mark_all_broken-AllRequeued :
    (ct : ChunkTracker) (ps : List ℕ)
    → IsValid ct
    → All (λ p. p < ct.lengths.total_pieces) ps
    → Returns (mark_all_broken ct ps) (AllRequeued ps ct)
unfolding mark_all_broken
mark_all_broken-AllRequeued ct [] v h =
    (ct, refl, record { valid = v; lengths = refl; have = refl; queue = λ j. refl })
mark_all_broken-AllRequeued ct (p ∷ ps) v h =
    let (ct₁, e₁, q₁) = mark_piece_broken_if_not_have-Requeued p v.sized h.0 in
    let (ct₂, e₂, q₂) =
      mark_all_broken-AllRequeued ct₁ ps (Requeued-IsValid v q₁) (rw q₁.lengths h.1) in
    (
      ct₂,
      >>=-some (mark_piece_broken_if_not_have ct p) (λ c. mark_all_broken c ps) e₁ ∙ e₂,
      record {
        valid = q₂.valid;
        lengths = q₂.lengths ∙ q₁.lengths;
        have = q₂.have ∙ q₁.have;
        queue = λ j. ground (
          arith,
          q₁.queue j,
          q₂.queue j,
          ap (λ x. bit x j) q₁.have,
          ap (bit ct.have) {x = j} {y = p},
        );
      },
    )

keys-known :
    (n : ℕ) (m : List (ℕ × InflightPiece))
    → ((i : ℕ) → contains_key i m ≡ true → i < n)
    → All (λ p. p < n) (keys m)
keys-known n [] h = tt
keys-known n ((k, info) ∷ m) h = (h k (ground arith), keys-known n m (λ i c. h i (ground arith)))

contains-keys : (j : ℕ) (m : List (ℕ × InflightPiece)) → contains (keys m) j ≡ contains_key j m
contains-keys j [] = refl
contains-keys j ((k, info) ∷ m) = ground (arith, contains-keys j m)

-- On a tracker that meets the invariant `into_chunks` does not panic: the chunk tracker it leaves
-- is valid, has what it had, and queues exactly what was queued or in flight.
into_chunks_queue :
    (pt : PieceTracker)
    → Inv pt
    → Returns (into_chunks pt) (λ ct.
      IsValid ct
      × (ct.have ≡ pt.chunks.have)
      × ((j : ℕ)
          → bit ct.queue_pieces j ≡ (contains_key j pt.inflight || bit pt.chunks.queue_pieces j)))
unfolding into_chunks
into_chunks_queue pt v =
    let (ct, e, q) =
      mark_all_broken-AllRequeued pt.chunks (keys pt.inflight) v.valid
        (keys-known _ pt.inflight v.known) in
    (
      ct,
      e,
      (
        q.valid,
        q.have,
        λ j. ground (arith, q.queue j, contains-keys j pt.inflight, v.flying_not_had j),
      ),
    )

-- The chunk tracker that `into_chunks` leaves can be given to a piece tracker again.
pub into_chunks-IsFresh : (pt : PieceTracker) → Inv pt → Returns (into_chunks pt) IsFresh
unfolding into_chunks
into_chunks-IsFresh pt v =
    let (ct, e, q) =
      mark_all_broken-AllRequeued pt.chunks (keys pt.inflight) v.valid
        (keys-known _ pt.inflight v.known) in
    let total = ap (λ (l : Lengths). l.total_pieces) q.lengths in
    (
      ct,
      e,
      record {
        valid = q.valid;
        had_not_queued = λ i b h.
            ground (
              arith,
              q.queue i,
              ap (λ x. bit x i) q.have,
              v.had_not_queued i (omega (arith, total)),
            );
      },
    )
