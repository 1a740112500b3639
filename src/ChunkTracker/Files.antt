-- ===== src/ChunkTracker/Files.antt =====
-- src/chunk_tracker.rs: the methods over the list of files.
pub mod Chosen
pub mod Requeue
pub mod Selection
pub mod Queue
use librtbit.Base.{
  ℕ, ◌+◌, ◌-◌, ◌^◌, Bool, true, false, not, ◌&&◌, Option, none, some, List, [], ◌∷◌, ◌++◌, ◌>>=◌,
  ltb, ◌==◌, if◌then◌else◌, get_elem?, set, add64,
}
use librtbit.Base.Bits.{Bits, zeroed, index, set_bit, all_range, bits_and, bits_or, ones}
use librtbit.Lengths.{Lengths}
use librtbit.FileInfo.{FileInfo, elements, iter_piece_priorities}
use librtbit.ChunkTracker.{
  ChunkTracker, HaveNeededSelected, compute_selected_pieces, mark_piece_broken_if_not_have,
  calc_hns,
}

-- The first loop of `update_only_files`: `b.set(idx, true)` for what was not selected and is not had.
pub newly_selected : Bits → Bits → Bits → List ℕ → Option Bits
newly_selected prev_selected have b [] = some b
newly_selected prev_selected have b (idx ∷ idxs) = do
  was ← index prev_selected idx
  had ← (if was then some true else index have idx)
  b' ← (if not was && not had then set_bit b idx true else some b)
  newly_selected prev_selected have b' idxs

-- The second loop, which requeues those pieces.
pub requeue : ChunkTracker → List ℕ → Option ChunkTracker
requeue ct [] = some ct
requeue ct (idx ∷ idxs) = do
  ct' ←
      (if ltb idx (2 ^ 32)
        then elim (ct.lengths.validate_piece_index idx) [
          | none ↦ some ct
          | some p ↦ mark_piece_broken_if_not_have ct p
        ]
        else some ct)
  requeue ct' idxs

-- The rest of the method, once the pieces of the chosen files are known.
pub select : ChunkTracker → Bits → Option (ChunkTracker × HaveNeededSelected)
unfolding newly_selected requeue
select ct selected = do
  b ← newly_selected ct.selected ct.have (zeroed ct.lengths.piece_bitfield_bytes) (ones selected)
  ct' ← requeue (record ct { selected = selected }) (ones b)
  let have_or_selected = bits_or selected ct'.have
  let ct'' = record ct' { queue_pieces = bits_and ct'.queue_pieces have_or_selected }
  hns ← calc_hns ct''
  some (record ct'' { hns = hns }, hns)

pub update_only_files :
    ChunkTracker → List FileInfo → (ℕ → Bool) → Option (ChunkTracker × HaveNeededSelected)
unfolding select
update_only_files ct file_infos new_only_files =
    select ct (compute_selected_pieces ct.lengths new_only_files file_infos)

unfoldable is_file_finished : ChunkTracker → FileInfo → Bool
is_file_finished ct file_info = elim (all_range ct.have file_info.piece_range) [
  | none ↦ true
  | some all ↦ all
]

-- The remaining bytes of the file beside the tracker.
unfoldable pub update_file_have_on_piece_completed :
    ChunkTracker → ℕ → ℕ → FileInfo → Option (ChunkTracker × ℕ)
update_file_have_on_piece_completed ct piece_id file_id file_info = do
  before ← get_elem? ct.per_file_bytes file_id
  let diff_have =
      ct.lengths.size_of_piece_in_file piece_id file_info.offset_in_torrent file_info.len
  let bytes = add64 before diff_have
  some (record ct { per_file_bytes = set ct.per_file_bytes file_id bytes }, file_info.len - bytes)

-- The last three adaptors of `iter_queued_pieces`, over the piece numbers of the wanted files.
pub queued_of : ChunkTracker → List ℕ → Option (List ℕ)
queued_of ct [] = some []
queued_of ct (id ∷ ids) = do
  queued ← index ct.queue_pieces id
  rest ← queued_of ct ids
  some (
      if queued && ltb id (2 ^ 32)
      then elim (ct.lengths.validate_piece_index id) [ none ↦ rest | some p ↦ p ∷ rest ]
      else rest)

-- The first three: the pieces of the unfinished files, file by file.
pub wanted_of : ChunkTracker → List FileInfo → List ℕ → Option (List ℕ)
wanted_of ct file_infos [] = some []
wanted_of ct file_infos (id ∷ ids) = do
  rest ← wanted_of ct file_infos ids
  elim (get_elem? file_infos id) [
    | none ↦ some rest
    | some f ↦ do
      bytes ← get_elem? ct.per_file_bytes id
      some (if bytes == f.len then rest else iter_piece_priorities f.piece_range ++ rest)
  ]

-- The iterator run to its end, as its only caller does.
pub iter_queued_pieces : ChunkTracker → List ℕ → List FileInfo → Option (List ℕ)
unfolding queued_of wanted_of
iter_queued_pieces ct file_priorities file_infos = do
  ids ← wanted_of ct file_infos file_priorities
  queued_of ct ids
