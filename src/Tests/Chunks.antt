-- ===== src/Tests/Chunks.antt =====
-- The theorems on src/chunk_tracker.rs and src/file_info.rs at one torrent.
use mathlib.Core.List.{Perm}
use librtbit.Base.{ℕ, ◌≡◌, refl, ◌&&◌, some, ◌==◌, [], ◌∷◌, arith, Returns, ltb}
use librtbit.Base.Bits.{Range, bit, contains}
use librtbit.FileInfo.{elements, iter_piece_priorities}
use librtbit.FileInfo.Order.{iter_piece_priorities-perm}
use librtbit.Lengths.{ChunkInfo}
use librtbit.ChunkTracker.{calc_hns, compute_selected_pieces, mark_piece_downloaded, new}
use librtbit.ChunkTracker.Chunks.{ChunkMarkingResult, Piece, mark_chunk_downloaded}
use librtbit.ChunkTracker.Chunks.Marking.{Marked, mark_chunk_downloaded-Marked}
use librtbit.ChunkTracker.Create.{Created, new-Created}
use librtbit.ChunkTracker.Files.{iter_queued_pieces, update_only_files}
use librtbit.ChunkTracker.Files.Queue.{is_wanted, iter_queued_pieces-exact}
use librtbit.ChunkTracker.Files.Selection.{Selected, update_only_files-Selected}
use librtbit.ChunkTracker.Pieces.{Downloaded, mark_piece_downloaded-Downloaded}
use librtbit.ChunkTracker.Stats.{bytes_of, calc_hns-exact}
use librtbit.Samples.{chunks, chunks-IsSized, chunks-IsValid, files, lengths, lengths-Laws}

new-Created_example :
    Returns
      (new chunks.have chunks.selected lengths files)
      (Created chunks.have chunks.selected lengths files)
new-Created_example =
    new-Created chunks.have chunks.selected files lengths-Laws refl refl
      ((omega arith, omega arith), ((omega arith, omega arith), tt))

update_only_files-Selected_example : Returns (update_only_files chunks files (λ i. i == 1)) (λ r.
    Selected (compute_selected_pieces lengths (λ i. i == 1) files) chunks r.0 × (r.1 ≡ r.0.hns))
update_only_files-Selected_example =
    update_only_files-Selected chunks files (λ i. i == 1) chunks-IsValid

calc_hns-exact_example : calc_hns chunks ≡ some (bytes_of lengths chunks.have chunks.selected)
calc_hns-exact_example = calc_hns-exact chunks lengths-Laws (omega arith) (omega arith)

mark_piece_downloaded-Downloaded_example :
    Returns (mark_piece_downloaded chunks 1) (Downloaded 1 chunks)
mark_piece_downloaded-Downloaded_example =
    mark_piece_downloaded-Downloaded {ct = chunks} 1 chunks-IsValid (omega arith)

abbrev second_chunk : Piece
second_chunk = record { index = 1; begin = 16384; len = 16384 }

abbrev second_chunk_info : ChunkInfo
second_chunk_info = record { piece_index = 1; chunk_index = 1; size = 16384; offset = 16384 }

mark_chunk_downloaded-Marked_example :
    Returns
      (mark_chunk_downloaded chunks second_chunk)
      (λ r. (m : ChunkMarkingResult) × (r.1 ≡ some m) × Marked chunks second_chunk_info (r.0, m))
mark_chunk_downloaded-Marked_example =
    mark_chunk_downloaded-Marked chunks second_chunk second_chunk_info chunks-IsSized (omega arith)
      refl

abbrev beyond : Piece
beyond = record { index = 1; begin = 32768; len = 16384 }

iter_queued_pieces-exact_example : Returns (iter_queued_pieces chunks (1 ∷ 0 ∷ []) files) (λ ps.
    (j : ℕ)
    → contains ps j
      ≡ (is_wanted chunks files (1 ∷ 0 ∷ []) j && bit chunks.queue_pieces j && ltb j 3))
iter_queued_pieces-exact_example =
    iter_queued_pieces-exact chunks (1 ∷ 0 ∷ []) files chunks-IsSized
      ((omega arith, omega arith, omega arith), ((omega arith, omega arith, omega arith), tt)) refl

abbrev five : Range
five = record { start = 3; end = 8 }

iter_piece_priorities-perm_example : Perm (iter_piece_priorities five) (elements five)
iter_piece_priorities-perm_example = iter_piece_priorities-perm five (omega arith) (omega arith)
