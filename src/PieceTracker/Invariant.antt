-- ===== src/PieceTracker/Invariant.antt =====
-- src/piece_tracker.rs: a piece is had, queued or in flight, and never two of these; what the
-- methods for the end of a download do to that.
pub mod Release
pub mod Select
pub mod Acquire
pub mod History
pub mod Checking
use librtbit.Base.{
  ℕ, zero, suc, ◌+◌, ◌-◌, ◌≤◌, ◌<◌, ◌≡◌, ◌≢◌, refl, sym, ap, ◌∙◌, Bool, true, false, not, ◌&&◌,
  ◌||◌, Option, none, some, List, [], ◌∷◌, ◌>>=◌, arith, ltb, ◌==◌, if◌then◌else◌, inl, inr, ◌⊎◌,
  Bool-cases, Option-cases, Returns, >>=-some, ==_refl,
}
use librtbit.Base.Assoc.{
  lookup, remove, IsMap, contains_key, contains_key-remove, remove-IsMap, contains_key-lookup,
}
use librtbit.Base.Bits.{bit}
use librtbit.Lengths.{Lengths}
use librtbit.ChunkTracker.{ChunkTracker, mark_piece_broken_if_not_have, mark_piece_downloaded}
use librtbit.ChunkTracker.Pieces.{
  IsValid, IsValid-same, Requeued, Downloaded, mark_piece_broken_if_not_have-Requeued,
  mark_piece_downloaded-Downloaded,
}
use librtbit.PieceTracker.{
  PieceTracker, new, elapsed, take_inflight, mark_piece_hash_ok, mark_piece_hash_failed,
}

pub record Inv (pt : PieceTracker) : Type 0 where
  pub valid : IsValid pt.chunks
  pub is_map : IsMap pt.inflight
  pub known : (i : ℕ) → contains_key i pt.inflight ≡ true → i < pt.chunks.lengths.total_pieces
  pub flying_not_had : (i : ℕ) → contains_key i pt.inflight ≡ true → bit pt.chunks.have i ≡ false
  pub flying_not_queued :
      (i : ℕ) → contains_key i pt.inflight ≡ true → bit pt.chunks.queue_pieces i ≡ false
  pub had_not_queued :
      (i : ℕ)
      → i < pt.chunks.lengths.total_pieces
      → bit pt.chunks.have i ≡ true
      → bit pt.chunks.queue_pieces i ≡ false

-- A chunk tracker that is fit to be given to a piece tracker: nothing is both had and queued.
pub record IsFresh (ct : ChunkTracker) : Type 0 where
  pub valid : IsValid ct
  pub had_not_queued :
      (i : ℕ) → i < ct.lengths.total_pieces → bit ct.have i ≡ true → bit ct.queue_pieces i ≡ false

-- A tracker around a valid chunk tracker whose pieces had are not queued.
pub new-Inv :
    (ct : ChunkTracker)
    → IsValid ct
    → ((i : ℕ) → i < ct.lengths.total_pieces → bit ct.have i ≡ true → bit ct.queue_pieces i ≡ false)
    → Inv (new ct)
unfolding new
new-Inv ct v h = record {
  valid = v;
  is_map = tt;
  known = λ i e. absurd (cc);
  flying_not_had = λ i e. cc;
  flying_not_queued = λ i e. cc;
  had_not_queued = h;
}

pub Requeued-IsValid :
    {i : ℕ} {ct ct' : ChunkTracker} → IsValid ct → Requeued i ct ct' → IsValid ct'
Requeued-IsValid v q = IsValid-same v q.sized q.lengths q.have q.selected q.hns

-- Taking a piece out of flight, or one that is not in flight, keeps the invariant.
pub take_inflight-Inv : (pt : PieceTracker) (now p : ℕ) → Inv pt → Inv (take_inflight pt now p).0
unfolding take_inflight
take_inflight-Inv pt now p v = elim (Option-cases (lookup p pt.inflight)) [
  | inl missing ↦ rw (missing, take_inflight) v
  | inr (info, there) ↦
      rw (there, take_inflight)
        (record {
          valid = v.valid;
          is_map = remove-IsMap p pt.inflight v.is_map;
          known = λ i e. v.known i (ground (arith, contains_key-remove p i pt.inflight v.is_map));
          flying_not_had = λ i e.
              v.flying_not_had i (ground (arith, contains_key-remove p i pt.inflight v.is_map));
          flying_not_queued = λ i e.
              v.flying_not_queued i (ground (arith, contains_key-remove p i pt.inflight v.is_map));
          had_not_queued = v.had_not_queued;
        })
]

-- On a tracker that meets the invariant, a valid piece that is neither in flight nor queued is
-- marked verified without a panic: it is had as `mark_piece_downloaded` leaves it, what is in
-- flight stays, and the invariant holds.
pub mark_piece_hash_ok-Inv :
    (pt : PieceTracker) (p : ℕ)
    → Inv pt
    → p < pt.chunks.lengths.total_pieces
    → contains_key p pt.inflight ≡ false
    → bit pt.chunks.queue_pieces p ≡ false
    → Returns
        (mark_piece_hash_ok pt p)
        (λ pt'. Inv pt' × Downloaded p pt.chunks pt'.chunks × (pt'.inflight ≡ pt.inflight))
unfolding mark_piece_hash_ok
mark_piece_hash_ok-Inv pt p v h out unqueued =
    let (ct, e, d) = mark_piece_downloaded-Downloaded p v.valid h in
    (
      record pt { chunks = ct },
      rw (e, ◌>>=◌) refl,
      (
        record {
          valid = d.valid;
          is_map = v.is_map;
          known = λ i c. rw d.lengths (v.known i c);
          flying_not_had = λ i c. ground (
            arith,
            d.have i,
            v.flying_not_had i c,
            ap (λ n. contains_key n pt.inflight) {x = i} {y = p},
          );
          flying_not_queued = λ i c. rw d.queue (v.flying_not_queued i c);
          had_not_queued = λ i b c. ground (
            arith,
            d.have i,
            d.queue,
            v.had_not_queued i,
            ap (λ q. bit q i) d.queue,
            ap (bit pt.chunks.queue_pieces) {x = i} {y = p},
            ap (λ (l : Lengths). l.total_pieces) d.lengths,
          );
        },
        d,
        refl,
      ),
    )

-- On a tracker that meets the invariant, a valid piece that is not in flight is marked as failed
-- without a panic: it is requeued as `mark_piece_broken_if_not_have` does it, what is in flight
-- stays, and the invariant holds.
pub mark_piece_hash_failed-Inv :
    (pt : PieceTracker) (p : ℕ)
    → Inv pt
    → p < pt.chunks.lengths.total_pieces
    → contains_key p pt.inflight ≡ false
    → Returns
        (mark_piece_hash_failed pt p)
        (λ pt'. Inv pt' × Requeued p pt.chunks pt'.chunks × (pt'.inflight ≡ pt.inflight))
unfolding mark_piece_hash_failed
mark_piece_hash_failed-Inv pt p v h out =
    let (ct, e, q) = mark_piece_broken_if_not_have-Requeued p v.valid.sized h in
    (
      record pt { chunks = ct },
      rw (e, ◌>>=◌) refl,
      (
        record {
          valid = Requeued-IsValid v.valid q;
          is_map = v.is_map;
          known = λ i c. rw q.lengths (v.known i c);
          flying_not_had = λ i c. rw q.have (v.flying_not_had i c);
          flying_not_queued = λ i c. ground (
            arith,
            q.queue i,
            v.flying_not_queued i c,
            ap (λ n. contains_key n pt.inflight) {x = i} {y = p},
          );
          had_not_queued = λ i b c. ground (
            arith,
            q.queue i,
            v.had_not_queued i,
            ap (λ x. bit x i) q.have,
            ap (bit pt.chunks.have) {x = i} {y = p},
            ap (λ (l : Lengths). l.total_pieces) q.lengths,
          );
        },
        q,
        refl,
      ),
    )
