-- ===== src/PieceTracker/Invariant/Select.antt =====
-- src/piece_tracker.rs: `update_only_files` and pieces in flight.
use librtbit.Base.{ℕ, ◌≡◌, refl, ap, Bool, true, false, List, ◌>>=◌, arith, Returns}
use librtbit.Base.Assoc.{contains_key}
use librtbit.Base.Bits.{bit}
use librtbit.Lengths.{Lengths}
use librtbit.FileInfo.{FileInfo}
use librtbit.ChunkTracker.{compute_selected_pieces}
use librtbit.ChunkTracker.Files.Selection.{Selected, update_only_files-Selected}
use librtbit.PieceTracker.{PieceTracker, update_only_files}
use librtbit.PieceTracker.Invariant.{Inv}

-- The pieces that a choice of files selects.
abbrev pub choice : PieceTracker → List FileInfo → (ℕ → Bool) → ℕ → Bool
choice pt fis only_files i = bit (compute_selected_pieces pt.chunks.lengths only_files fis) i

update_only_files-Returns :
    (pt : PieceTracker) (fis : List FileInfo) (only_files : ℕ → Bool)
    → Inv pt
    → Returns (update_only_files pt fis only_files) (λ r.
      Selected (compute_selected_pieces pt.chunks.lengths only_files fis) pt.chunks r.0.chunks
      × (r.0.inflight ≡ pt.inflight))
unfolding update_only_files
update_only_files-Returns pt fis only_files v =
    let ((ct, hns), e, (s, same)) = update_only_files-Selected pt.chunks fis only_files v.valid in
    ((record pt { chunks = ct }, hns), rw (e, ◌>>=◌) refl, (s, refl))

-- On a tracker that meets the invariant, a change of the chosen files that selects no piece in
-- flight that was not selected before returns and keeps the invariant.
pub update_only_files-Inv :
    (pt : PieceTracker) (fis : List FileInfo) (only_files : ℕ → Bool)
    → Inv pt
    → ((i : ℕ)
        → contains_key i pt.inflight ≡ true
        → choice pt fis only_files i ≡ true
        → bit pt.chunks.selected i ≡ true)
    → Returns (update_only_files pt fis only_files) (λ r. Inv r.0)
update_only_files-Inv pt fis only_files v h =
    let (r, e, (s, same)) = update_only_files-Returns pt fis only_files v in
    let total = ap (λ (l : Lengths). l.total_pieces) s.lengths in
    (
      r,
      e,
      record {
        valid = s.valid;
        is_map = rw same v.is_map;
        known = λ i c. rw s.lengths (v.known i (rw same at c));
        flying_not_had = λ i c. rw s.have (v.flying_not_had i (rw same at c));
        flying_not_queued = λ i c.
            let c' = rw same at c in
            ground (
              arith,
              s.queue i (v.known i c'),
              v.flying_not_had i c',
              v.flying_not_queued i c',
              h i c',
            );
        had_not_queued = λ i b c. ground (
          arith,
          s.queue i (omega (arith, total)),
          v.had_not_queued i (omega (arith, total)),
          ap (λ x. bit x i) s.have,
        );
      },
    )

-- On a tracker that meets the invariant, a change of the chosen files that selects a piece in
-- flight that was not selected before returns with that piece both in flight and queued, and the
-- invariant broken.
pub update_only_files_queues_in_flight :
    (pt : PieceTracker) (fis : List FileInfo) (only_files : ℕ → Bool) (i : ℕ)
    → Inv pt
    → contains_key i pt.inflight ≡ true
    → bit pt.chunks.selected i ≡ false
    → choice pt fis only_files i ≡ true
    → Returns (update_only_files pt fis only_files) (λ r.
      (contains_key i r.0.inflight ≡ true) × (bit r.0.chunks.queue_pieces i ≡ true) × (¬ Inv r.0))
update_only_files_queues_in_flight pt fis only_files i v f u c =
    let (r, e, (s, same)) = update_only_files-Returns pt fis only_files v in
    let flying : contains_key i r.0.inflight ≡ true = rw same f in
    let queued : bit r.0.chunks.queue_pieces i ≡ true =
      ground (arith, s.queue i (v.known i f), v.flying_not_had i f) in
    (r, e, (flying, queued, λ w. cc (queued, w.flying_not_queued i flying)))
