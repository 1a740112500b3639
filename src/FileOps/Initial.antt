-- ===== src/FileOps/Initial.antt =====
-- `FileOps::initial_check` of src/file_ops.rs: one pass over the files that hashes every piece.
-- `piece_files` is left out, as nothing reads it. `is_cancelled i` is what the cancellation token
-- says when piece `i` comes up, and is false where the caller gives no token.
pub mod Pass
pub mod Equal
use librtbit.Base.{
  ℕ, zero, suc, ◌+◌, ◌-◌, Bool, true, false, not, ◌||◌, Option, none, some, List, [], ◌∷◌, ◌==◌,
  if◌then◌else◌, ◌>>=◌, min, add64,
}
use librtbit.Base.Bits.{Bits, zeroed, set_bit}
use librtbit.FileInfo.{FileInfo}
use librtbit.Lengths.{PieceInfo}
use librtbit.FileOps.{TorrentStorage, Sha1, Torrent, update_hash_from_file}

pub record CurrentFile : Type 0 where
  pub index : ℕ
  pub fi : FileInfo
  pub processed_bytes : ℕ
  pub is_broken : Bool

abbrev pub current_file : ℕ → FileInfo → CurrentFile
current_file idx fi = record { index = idx; fi = fi; processed_bytes = 0; is_broken = false }

abbrev pub remaining : CurrentFile → ℕ
remaining f = f.fi.len - f.processed_bytes

abbrev mark_processed_bytes : CurrentFile → ℕ → CurrentFile
mark_processed_bytes f bytes = record f { processed_bytes = f.processed_bytes + bytes }

-- The file being read, and the files that the iterator has still to give.
pub record Reading : Type 0 where
  pub current : CurrentFile
  pub file_iterator : List FileInfo

-- What is known of a piece while it is read.
pub record PieceCheck (H : Type 0) : Type 0 where
  pub reading : Reading
  pub computed_hash : H
  pub some_files_broken : Bool

-- On to a file with something to read for a piece of which `n` bytes are left; `none` when there is
-- no such file.
pub next_file : CurrentFile → List FileInfo → ℕ → Option Reading
next_file cur [] n =
    if min (remaining cur) n == 0 then none else some (record { current = cur; file_iterator = [] })
next_file cur (fi ∷ fis) n =
    let later = next_file (current_file (suc cur.index) fi) fis n in
    if min (remaining cur) n == 0
    then later
    else some (record { current = cur; file_iterator = fi ∷ fis })

module _ {H : Type 0} (sha1 : Sha1 H) where
  -- What the finished piece adds to the pieces had.
  pub compare_piece : Torrent → PieceInfo → PieceCheck H → Bits → Option Bits
  compare_piece torrent p pc have_pieces =
      if pc.some_files_broken
      then some have_pieces
      else torrent.compare_hash p.piece_index (sha1.finish pc.computed_hash) >>= (λ matches.
        if matches then set_bit have_pieces p.piece_index true else some have_pieces)

module _ {S H : Type 0} (storage : TorrentStorage S) (sha1 : Sha1 H) where
  -- After an error the hash is not looked at any more, and the file is not read again.
  pub note_read : CurrentFile → List FileInfo → PieceCheck H → Option H → PieceCheck H
  note_read cur fis pc (some h) = record pc {
    reading = record { current = cur; file_iterator = fis };
    computed_hash = h;
  }
  note_read cur fis pc none = record pc {
    reading = record { current = record cur { is_broken = true }; file_iterator = fis };
    some_files_broken = true;
  }

  -- Reads `n` bytes of the current file for the piece.
  pub read_from_current : S → Reading → ℕ → PieceCheck H → PieceCheck H
  read_from_current files r n pc =
      let cur = mark_processed_bytes r.current n in
      if r.current.is_broken
      then record pc { reading = record r { current = cur } }
      else note_read cur r.file_iterator pc (
          update_hash_from_file storage sha1 cur.index cur.fi r.current.processed_bytes files
            pc.computed_hash 65536 n)

  -- `while piece_remaining > 0`, on fuel. A round reads at least a byte.
  pub piece_loop : ℕ → S → PieceCheck H → ℕ → Option (PieceCheck H)
  piece_loop fuel files pc zero = some pc
  piece_loop zero files pc (suc m) = none
  piece_loop (suc fuel) files pc (suc m) = do
    r ← next_file pc.reading.current pc.reading.file_iterator (suc m)
    let n = min (remaining r.current) (suc m)
    piece_loop fuel files (read_from_current files r n pc) (suc m - n)

  -- The loop over the pieces; the result has the count of the bytes looked at, too.
  pub check_pieces :
      Torrent → S → (ℕ → Bool) → Reading → Bits → ℕ → List PieceInfo → Option (Bits × ℕ)
  check_pieces torrent files is_cancelled r have_pieces progress [] = some (have_pieces, progress)
  check_pieces torrent files is_cancelled r have_pieces progress (p ∷ ps) =
      if is_cancelled p.piece_index then none else do
        pc ←
            piece_loop p.len files
              (record { reading = r; computed_hash = sha1.new; some_files_broken = false }) p.len
        have_pieces' ← compare_piece sha1 torrent p pc have_pieces
        check_pieces torrent files is_cancelled pc.reading have_pieces' (add64 progress p.len) ps

  pub initial_check : Torrent → List FileInfo → S → (ℕ → Bool) → ℕ → Option (Bits × ℕ)
  initial_check torrent [] files is_cancelled progress = none
  initial_check torrent (fi ∷ fis) files is_cancelled progress =
      check_pieces torrent files is_cancelled
        (record { current = current_file 0 fi; file_iterator = fis })
        (zeroed torrent.lengths.piece_bitfield_bytes) progress torrent.lengths.iter_piece_infos
