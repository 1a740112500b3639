-- ===== src/TorrentState/Initializing.antt =====
-- src/torrent_state/initializing.rs: the pieces that a torrent starts with, from the bit field that
-- was stored or from a check of the files. Arguments are the storage, the store of bit fields
-- (`BitVFactory`, here for the one torrent), the random choices, and what the session and the
-- cancellation token say. `none` is an error or a panic. `checked_bytes`, for display, is left out.
pub mod Fastresume
pub mod Checked
use librtbit.Base.{
  ℕ, ◌+◌, ◌-◌, ◌*◌, ◌/◌, ◌^◌, Bool, true, false, not, ◌&&◌, ◌||◌, Option, none, some, List, [], ◌∷◌,
  ltb, leb, ◌==◌, if◌then◌else◌, length, ◌>>=◌, min,
}
use librtbit.Base.Bits.{Bits, bit, zeroed, set_bit, ones, contains}
use librtbit.FileInfo.{FileInfo, elements}
use librtbit.Lengths.{Lengths}
use librtbit.ChunkTracker.{ChunkTracker, compute_selected_pieces}
use librtbit.ChunkTracker
use librtbit.FileOps.{TorrentStorage, Sha1, Torrent, check_piece}
use librtbit.FileOps.Initial.{initial_check}
use librtbit.TorrentState.{TorrentStatePaused, no_streams}

-- `F` is what is stored; an error of `clear` is only logged.
pub record BitVFactory (F : Type 0) : Type 0 where
  pub load : F → Option (Option Bits)
  pub clear : F → F
  pub store_initial_check : F → Bits → Option (Bits × F)

-- What a check is given. `ratio i n` is whether the `i`-th random choice of one in `n` succeeds;
-- `ensure_file_length` and `take` are the storage's, where an error of the former is only logged.
pub record Setup (S F H : Type 0) : Type 0 where
  pub storage : TorrentStorage S
  pub ensure_file_length : S → ℕ → ℕ → S
  pub take : S → Option S
  pub sha1 : Sha1 H
  pub bitv_factory : BitVFactory F
  pub torrent : Torrent
  pub file_infos : List FileInfo
  pub session_alive : Bool
  pub fastresume_validation_denom : Option ℕ
  pub shuffle : List ℕ → List ℕ
  pub ratio : ℕ → ℕ → Bool
  pub is_cancelled : ℕ → Bool

pub record TorrentStateInitializing (S : Type 0) : Type 0 where
  pub files : S
  pub only_files : Option (List ℕ)
  pub previously_errored : Bool

-- `iter_ones().take(1)` over the pieces of a file.
abbrev pub first_had : Bits → List ℕ → Option ℕ
first_had hp [] = none
first_had hp (i ∷ is) = let later = first_had hp is in if bit hp i then some i else later

-- `None` for a range that is out of bounds.
abbrev pub had_in_file : Bits → FileInfo → Option ℕ
had_in_file hp fi =
    let r = fi.piece_range in
    if leb r.start r.end && leb r.end (length hp) then first_had hp (elements r) else none

-- At least one piece from each file: the bits to validate and the queue of the others.
pub choose_from_files : Bits → List FileInfo → Bits → Bits → Option (Bits × Bits)
choose_from_files hp [] to_validate queue = some (to_validate, queue)
choose_from_files hp (fi ∷ fis) to_validate queue = elim (had_in_file hp fi) [
  | none ↦ choose_from_files hp fis to_validate queue
  | some piece_id ↦ do
    to_validate' ← set_bit to_validate piece_id true
    queue' ← set_bit queue piece_id false
    choose_from_files hp fis to_validate' queue'
]

-- The remaining pieces, with decreasing probability.
pub choose_at_random : (ℕ → ℕ → Bool) → ℕ → ℕ → List ℕ → Bits → Option Bits
choose_at_random ratio cap tmp_id [] to_validate = some to_validate
choose_at_random ratio cap tmp_id (piece_id ∷ rest) to_validate = do
  to_validate' ←
      if ratio tmp_id (min (tmp_id + 1) cap)
      then set_bit to_validate piece_id true
      else some to_validate
  choose_at_random ratio cap (tmp_id + 1) rest to_validate'

abbrev pub denom_or_default : Option ℕ → ℕ
denom_or_default none = 50
denom_or_default (some cap) = cap

-- `validate_piece_index(id.try_into().ok()?)` as a filter
abbrev pub valid_only : Lengths → List ℕ → List ℕ
valid_only l [] = []
valid_only l (i ∷ is) =
    let rest = valid_only l is in
    if ltb i (2 ^ 32)
    then elim (l.validate_piece_index i) [ none ↦ rest | some p ↦ p ∷ rest ]
    else rest

-- Whether a file is wanted; all are without a list.
abbrev pub is_wanted : Option (List ℕ) → ℕ → Bool
is_wanted none idx = true
is_wanted (some only_files) idx = contains only_files idx

module _ {S F H : Type 0} (setup : Setup S F H) where
  -- Whether the stored bit field is broken: the loop over the chosen pieces.
  pub validate_pieces : S → List ℕ → Option Bool
  validate_pieces files [] = some false
  validate_pieces files (p ∷ ps) =
      let rest = validate_pieces files ps in
      let checked : Option Bool =
        elim (check_piece setup.storage setup.sha1 setup.torrent setup.file_infos files p) [
          | none ↦ some true
          | some matches ↦ rest
        ] in
      if setup.is_cancelled p then none else checked

  -- The pieces to look at, of those that the stored bit field has.
  pub to_validate : Bits → Option Bits
  to_validate hp = do
    (chosen, queue) ←
        choose_from_files hp setup.file_infos (zeroed setup.torrent.lengths.piece_bitfield_bytes) hp
    let cap = denom_or_default setup.fastresume_validation_denom
    let more = choose_at_random setup.ratio cap 0 (setup.shuffle (ones queue)) chosen
    if ltb 0 cap then more else some chosen

  -- What is left of the stored bit field, and of what is stored.
  pub validate_fastresume : S → F → Option Bits → Option (Option Bits × F)
  validate_fastresume files stored none = some (none, stored)
  validate_fastresume files stored (some hp) =
      let validated = do
        chosen ← to_validate hp
        is_broken ← validate_pieces files (valid_only setup.torrent.lengths (ones chosen))
        some (if is_broken then (none, setup.bitv_factory.clear stored) else (some hp, stored))
      in if length hp / 8 == setup.torrent.lengths.piece_bitfield_bytes
        then validated
        else some (none, stored)

  -- The bit field to start from, if there is one.
  unfoldable pub load_have_pieces : TorrentStateInitializing S → F → Option (Option Bits × F)
  load_have_pieces t stored =
      let loaded = setup.bitv_factory.load stored in
      if t.previously_errored
      then some (none, setup.bitv_factory.clear stored)
      else loaded >>= (λ have_pieces. some (have_pieces, stored))

  pub have_or_check : S → F → Option Bits → Option (Bits × F)
  have_or_check files stored (some have_pieces) = some (have_pieces, stored)
  have_or_check files stored none = do
    (have_pieces, checked_bytes) ←
        initial_check setup.storage setup.sha1 setup.torrent setup.file_infos files
          setup.is_cancelled 0
    setup.bitv_factory.store_initial_check stored have_pieces

  -- The last loop, over the files from number `idx` on.
  pub ensure_file_lengths : Option (List ℕ) → ℕ → List FileInfo → S → S
  ensure_file_lengths only_files idx [] files = files
  ensure_file_lengths only_files idx (fi ∷ fis) files =
      let skips = not (is_wanted only_files idx) || fi.attrs.padding in
      ensure_file_lengths only_files (idx + 1) fis
        (if skips then files else setup.ensure_file_length files idx fi.len)

  pub check : TorrentStateInitializing S → F → Option (TorrentStatePaused S × F)
  check t stored =
      let checked = do
        (loaded, stored₁) ← load_have_pieces t stored
        (validated, stored₂) ← validate_fastresume t.files stored₁ loaded
        (have_pieces, stored₃) ← have_or_check t.files stored₂ validated
        chunk_tracker ←
            ChunkTracker.new have_pieces
              (compute_selected_pieces setup.torrent.lengths (is_wanted t.only_files)
                setup.file_infos)
              setup.torrent.lengths setup.file_infos
        files ← setup.take (ensure_file_lengths t.only_files 0 setup.file_infos t.files)
        some
            (record { files = files; chunk_tracker = chunk_tracker; streams = no_streams }, stored₃)
      in if setup.session_alive then checked else none
