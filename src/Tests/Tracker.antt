-- ===== src/Tests/Tracker.antt =====
-- The theorems on src/piece_tracker.rs at one torrent.
use librtbit.Base.{
  ℕ, ◌*◌, ◌≡◌, refl, ap, true, ◌||◌, none, some, [], ◌∷◌, arith, length, if◌then◌else◌, Returns,
  ◌==◌,
}
use librtbit.Base.Assoc.{lookup, insert, contains_key}
use librtbit.Base.Bits.{bit}
use librtbit.ChunkTracker.{ChunkTracker}
use librtbit.ChunkTracker
use librtbit.ChunkTracker.Create.{Created, new-Created}
use librtbit.ChunkTracker.Files.Chosen.{compute_selected_pieces-exact}
use librtbit.PieceTracker.{
  InflightPiece, AcquireRequest, reserved, stolen, acquire_piece, mark_piece_hash_ok, owned_by,
  release_pieces_owned_by, take_inflight, try_steal, update_only_files, new, slowest,
}
use librtbit.PieceTracker.Steal.{Steals, try_steal-Steals}
use librtbit.PieceTracker.Invariant.{Inv}
use librtbit.PieceTracker.Invariant.Acquire.{Acquired, IsRequest, acquire_piece-Acquired}
use librtbit.PieceTracker.Invariant.Checking.{acquire_piece_reserves_checked}
use librtbit.PieceTracker.Invariant.History.{Reach, start, step, completed, Reach-Inv}
use librtbit.PieceTracker.Invariant.Release.{is_owned, release_pieces_owned_by-Released}
use librtbit.PieceTracker.Invariant.Select.{
  choice, update_only_files-Inv, update_only_files_queues_in_flight,
}
use librtbit.Samples.{
  chunks, files, lengths, lengths-Laws, request, tracker, tracker-Inv, idle, idle-Inv,
}

request-IsRequest : IsRequest tracker request
request-IsRequest = record {
  priorities_valid = (omega arith, tt);
  files_fit =
      ((omega arith, omega arith, omega arith), ((omega arith, omega arith, omega arith), tt));
  files_counted = refl;
}

acquire_piece-Acquired_example :
    Returns
      (acquire_piece (λ n. 10 * n) (λ n. 3 * n) tracker 400 request)
      (Acquired tracker 400 request)
acquire_piece-Acquired_example =
    acquire_piece-Acquired (λ n. 10 * n) (λ n. 3 * n) tracker 400 request tracker-Inv
      request-IsRequest

-- The tracker of a torrent that starts with piece 0.
creation :
    Returns
      (ChunkTracker.new chunks.have chunks.selected lengths files)
      (Created chunks.have chunks.selected lengths files)
creation =
    new-Created chunks.have chunks.selected files lengths-Laws refl refl
      ((omega arith, omega arith), ((omega arith, omega arith), tt))

abbrev created : ChunkTracker
created = creation.0

created-Reach : Reach (new created)
created-Reach =
    start chunks.have chunks.selected lengths files created lengths-Laws refl refl
      ((omega arith, omega arith), ((omega arith, omega arith), tt)) creation.1

Reach-Inv_example : Inv (take_inflight (new created) 5 1).0
Reach-Inv_example = Reach-Inv (take_inflight (new created) 5 1).0 (
    step (new created) (take_inflight (new created) 5 1).0 created-Reach
      (completed (new created) 5 1))

release_pieces_owned_by-Released_example : Returns (release_pieces_owned_by tracker 7) (λ r.
    Inv r.0
    × (r.1 ≡ length (owned_by 7 tracker.inflight))
    × ((j : ℕ)
        → lookup j r.0.inflight
          ≡ (if is_owned 7 (lookup j tracker.inflight) then none else lookup j tracker.inflight))
    × ((j : ℕ)
        → bit r.0.chunks.queue_pieces j
          ≡ (is_owned 7 (lookup j tracker.inflight) || bit tracker.chunks.queue_pieces j)))
release_pieces_owned_by-Released_example = release_pieces_owned_by-Released tracker 7 tracker-Inv

update_only_files-Inv_example :
    Returns (update_only_files tracker files (λ i. i == 0)) (λ r. Inv r.0)
update_only_files-Inv_example =
    update_only_files-Inv tracker files (λ i. i == 0) tracker-Inv
      (λ i e f. ground (
        arith,
        (compute_selected_pieces-exact lengths (λ i. i == 0) files).1 2 (omega arith),
        ap (choice tracker files (λ i. i == 0)) {x = i} {y = 2},
      ))

update_only_files_queues_in_flight_example :
    Returns (update_only_files tracker files (λ i. true)) (λ r.
      (contains_key 2 r.0.inflight ≡ true) × (bit r.0.chunks.queue_pieces 2 ≡ true) × (¬ Inv r.0))
update_only_files_queues_in_flight_example =
    update_only_files_queues_in_flight tracker files (λ i. true) 2 tracker-Inv refl refl
      ((compute_selected_pieces-exact lengths (λ i. true) files).1 2 (omega arith))

try_steal-Steals_example :
    (avg p : ℕ) × (info : InflightPiece) × (request.peer_avg_time ≡ some avg)
    × Steals tracker request 400
        (10 * avg)
        p
        info
        (record tracker { inflight = (2, record { peer = 8; started = 400 }) ∷ [] }, stolen 2 7)
unfolding try_steal slowest insert
try_steal-Steals_example =
    try_steal-Steals tracker request 400 (λ n. 10 * n)
      (record tracker { inflight = (2, record { peer = 8; started = 400 }) ∷ [] }, stolen 2 7)
      (refl, tt) refl

-- Piece 2 was taken out of flight for its check; peer 8 asks for it first.
abbrev urgent : AcquireRequest
urgent = record request { priority_pieces = 2 ∷ []; peer_avg_time = none }

acquire_piece_reserves_checked_example :
    Returns (acquire_piece (λ n. 10 * n) (λ n. 3 * n) idle 400 urgent) (λ r.
      (r.1 ≡ reserved 2)
      × Returns (mark_piece_hash_ok r.0 2) (λ pt'.
        (contains_key 2 pt'.inflight ≡ true) × (bit pt'.chunks.have 2 ≡ true) × (¬ Inv pt')))
unfolding try_steal
acquire_piece_reserves_checked_example =
    acquire_piece_reserves_checked idle urgent 2 [] idle-Inv (omega arith) refl refl refl refl
      (λ n. 10 * n) (λ n. 3 * n) 400 refl
