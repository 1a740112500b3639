-- ===== src/ChunkTracker.antt =====
-- src/chunk_tracker.rs: which pieces are had, wanted and queued, and which chunks are written.
-- A method that changes `self` returns the new tracker; `none` is a panic or an `Err`.
-- `HashSet<usize>` is its membership test. Here are construction and the per-piece methods;
-- `Chunks` has the per-chunk ones and `Files` those that read the list of files.
pub mod Chunks
pub mod Files
pub mod Stats
pub mod Pieces
pub mod Create
use librtbit.Base.{
  ℕ, ◌%◌, ◌^◌, ◌+◌, ◌-◌, ◌*◌, Bool, true, false, not, ◌&&◌, Option, none, some, List, [], ◌∷◌,
  ◌>>=◌, ltb, leb, ◌==◌, if◌then◌else◌, length, get_elem?, replicate, add64, sub64,
}
use librtbit.Base.Bits.{
  Bits, Range, zeroed, index, bit, set_bit, fill_range, all_range, bits_not, bits_and, bits_or,
  ones,
}
use librtbit.Lengths.{Lengths, PieceInfo, ChunkInfo}
use librtbit.FileInfo.{FileInfo, elements, iter_piece_priorities}

pub record HaveNeededSelected : Type 0 where
  pub have_bytes : ℕ
  pub needed_bytes : ℕ
  pub selected_bytes : ℕ

abbrev pub no_bytes : HaveNeededSelected
no_bytes = record { have_bytes = 0; needed_bytes = 0; selected_bytes = 0 }

unfoldable progress : HaveNeededSelected → ℕ
progress h = sub64 h.selected_bytes h.needed_bytes

unfoldable pub total : HaveNeededSelected → ℕ
total h = h.selected_bytes

unfoldable finished : HaveNeededSelected → Bool
finished h = h.needed_bytes == 0

pub record ChunkTracker : Type 0 where
  pub queue_pieces : Bits
  pub chunk_status : Bits
  pub have : Bits
  pub selected : Bits
  pub per_file_bytes : List ℕ
  pub lengths : Lengths
  pub hns : HaveNeededSelected

-- `compute_chunk_have_status`: the loop over the pieces
pub chunk_have_status_from : Lengths → Bits → Bits → List PieceInfo → Option Bits
chunk_have_status_from l have_pieces chunk_bf [] = some chunk_bf
chunk_have_status_from l have_pieces chunk_bf (p ∷ ps) = do
  let chunks = l.chunks_per_piece p.piece_index
  let offset = l.default_chunks_per_piece * p.piece_index % 2 ^ 32
  have ← index have_pieces p.piece_index
  bf ←
      (if have
        then fill_range chunk_bf (record { start = offset; end = offset + chunks }) true
        else some chunk_bf)
  chunk_have_status_from l have_pieces bf ps

pub compute_chunk_have_status : Lengths → Bits → Option Bits
unfolding chunk_have_status_from
compute_chunk_have_status l have_pieces =
    if ltb (length have_pieces) l.total_pieces
    then none
    else chunk_have_status_from l have_pieces (zeroed l.chunk_bitfield_bytes) l.iter_piece_infos

abbrev compute_queued_pieces_unchecked : Bits → Bits → Bits
compute_queued_pieces_unchecked have_pieces selected_pieces =
    bits_and (bits_not have_pieces) selected_pieces

pub compute_queued_pieces : Bits → Bits → Option Bits
compute_queued_pieces have_pieces selected_pieces =
    if length have_pieces == length selected_pieces
    then some (compute_queued_pieces_unchecked have_pieces selected_pieces)
    else none

-- `compute_selected_pieces`: the loop over the files, from number `id` on
pub selected_pieces_from : (ℕ → Bool) → ℕ → List FileInfo → Bits → Bits
selected_pieces_from only_files id [] bf = bf
selected_pieces_from only_files id (fi ∷ fis) bf = selected_pieces_from only_files (id + 1) fis (
    if not fi.attrs.padding && only_files id
    then elim (fill_range bf fi.piece_range true) [ none ↦ bf | some bf' ↦ bf' ]
    else bf)

pub compute_selected_pieces : Lengths → (ℕ → Bool) → List FileInfo → Bits
unfolding selected_pieces_from
compute_selected_pieces l only_files_is_empty_or_contains file_infos =
    selected_pieces_from only_files_is_empty_or_contains 0 file_infos
      (zeroed l.piece_bitfield_bytes)

-- The `filter`, `map` and `sum` of `recalculate_per_file_bytes`, over the pieces of a file.
pub file_bytes : Lengths → Bits → FileInfo → List ℕ → Option ℕ
file_bytes l have fi [] = some 0
file_bytes l have fi (p ∷ ps) = do
  is_have ← index have p
  rest ← file_bytes l have fi ps
  some
      (if is_have then add64 (l.size_of_piece_in_file p fi.offset_in_torrent fi.len) rest else rest)

-- A slot that has no file stays.
pub per_file_bytes_of : Lengths → Bits → List ℕ → List FileInfo → Option (List ℕ)
unfolding file_bytes
per_file_bytes_of l have [] fis = some []
per_file_bytes_of l have (slot ∷ slots) [] = some (slot ∷ slots)
per_file_bytes_of l have (slot ∷ slots) (fi ∷ fis) = do
  bytes ← file_bytes l have fi (elements fi.piece_range)
  rest ← per_file_bytes_of l have slots fis
  some (bytes ∷ rest)

pub recalculate_per_file_bytes : ChunkTracker → List FileInfo → Option ChunkTracker
unfolding per_file_bytes_of
recalculate_per_file_bytes ct file_infos = do
  bytes ← per_file_bytes_of ct.lengths ct.have ct.per_file_bytes file_infos
  some (record ct { per_file_bytes = bytes })

-- `len * (b as u64)`
abbrev pub if_set : Bool → ℕ → ℕ
if_set b len = if b then len else 0

-- The loop of `calc_hns`.
pub calc_hns_from : Bits → Bits → List PieceInfo → HaveNeededSelected → Option HaveNeededSelected
calc_hns_from have selected [] hns = some hns
calc_hns_from have selected (p ∷ ps) hns = do
  is_have ← index have p.piece_index
  is_selected ← index selected p.piece_index
  let is_needed = is_selected && not is_have
  calc_hns_from have selected ps (record {
    have_bytes = add64 hns.have_bytes (if_set is_have p.len);
    needed_bytes = add64 hns.needed_bytes (if_set is_needed p.len);
    selected_bytes = add64 hns.selected_bytes (if_set is_selected p.len);
  })

pub calc_hns : ChunkTracker → Option HaveNeededSelected
unfolding calc_hns_from
calc_hns ct = calc_hns_from ct.have ct.selected ct.lengths.iter_piece_infos no_bytes

unfoldable pub new : Bits → Bits → Lengths → List FileInfo → Option ChunkTracker
unfolding compute_queued_pieces compute_chunk_have_status recalculate_per_file_bytes calc_hns
new have_pieces selected_pieces lengths file_infos = do
  needed_pieces ← compute_queued_pieces have_pieces selected_pieces
  chunk_status ← compute_chunk_have_status lengths have_pieces
  ct ←
      recalculate_per_file_bytes
        (record {
          queue_pieces = needed_pieces;
          chunk_status = chunk_status;
          have = have_pieces;
          selected = selected_pieces;
          per_file_bytes = replicate (length file_infos) 0;
          lengths = lengths;
          hns = no_bytes;
        })
        file_infos
  hns ← calc_hns ct
  some (record ct { hns = hns })

pub reserve_needed_piece : ChunkTracker → ℕ → Option ChunkTracker
reserve_needed_piece ct i = do
  queue ← set_bit ct.queue_pieces i false
  some (record ct { queue_pieces = queue })

unfoldable pub is_piece_have : ChunkTracker → ℕ → Option Bool
is_piece_have ct id = index ct.have id

pub mark_piece_broken_if_not_have : ChunkTracker → ℕ → Option ChunkTracker
mark_piece_broken_if_not_have ct i = if bit ct.have i then some ct else (do
  queue ← set_bit ct.queue_pieces i true
  some (record ct {
    queue_pieces = queue;
    chunk_status = elim (fill_range ct.chunk_status (ct.lengths.chunk_range i) false) [
      | none ↦ ct.chunk_status
      | some bf ↦ bf
    ];
  }))

pub mark_piece_downloaded : ChunkTracker → ℕ → Option ChunkTracker
mark_piece_downloaded ct id = do
  had ← index ct.have id
  if had then some ct else (do
    have ← set_bit ct.have id true
    is_selected ← index ct.selected id
    let len = ct.lengths.piece_length id
    some (record ct {
      have = have;
      hns = record {
        have_bytes = add64 ct.hns.have_bytes len;
        needed_bytes = if is_selected then sub64 ct.hns.needed_bytes len else ct.hns.needed_bytes;
        selected_bytes = ct.hns.selected_bytes;
      };
    }))

unfoldable is_chunk_ready_to_upload : ChunkTracker → ChunkInfo → Bool
is_chunk_ready_to_upload ct chunk = bit ct.have chunk.piece_index

unfoldable get_remaining_bytes : ChunkTracker → ℕ
get_remaining_bytes ct = ct.hns.needed_bytes

unfoldable is_finished : ChunkTracker → Bool
unfolding finished
is_finished ct = finished ct.hns
