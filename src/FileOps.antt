-- ===== src/FileOps.antt =====
-- src/file_ops.rs: reading and writing a torrent's chunks across its files, and checking the
-- hashes of its pieces. The storage behind `TorrentStorage`, the `sha1w` hasher, the buffer of a
-- received block and the torrent's hashes are arguments. Bytes are numbers. A buffer is the list of
-- its bytes; one that is only scratch space is its length.
pub mod Layout
pub mod Read
pub mod Mask
pub mod Write
pub mod Hash
pub mod Initial
use librtbit.Base.{
  ℕ, zero, suc, ◌+◌, ◌-◌, ◌≤◌, ◌<◌, ◌≡◌, ◌≢◌, Bool, true, false, not, ◌&&◌, Option, none, some,
  List, [], ◌∷◌, ◌++◌, arith, ltb, ◌==◌, if◌then◌else◌, length, take, drop, replicate, ◌>>=◌, min,
  Returns,
}
use librtbit.Base.Bits.{Bits, zeroed, set_bit}
use librtbit.FileInfo.{FileInfo}
use librtbit.Lengths.{PieceInfo, ChunkInfo, Lengths}

-- The methods of `TorrentStorage` that are called here; `S` is what the storage keeps. A read
-- takes a file, an offset and a length; `none` is an error.
pub record TorrentStorage (S : Type 0) : Type 0 where
  pub pread_exact : S → ℕ → ℕ → ℕ → Option (List ℕ)
  pub pwrite_all_vectored : S → ℕ → ℕ → List ℕ → List ℕ → Option S

-- `ISha1` of sha1w: `H` is the state, a digest is a number.
pub record Sha1 (H : Type 0) : Type 0 where
  pub new : H
  pub update : H → List ℕ → H
  pub finish : H → ℕ

-- `DoubleBufHelper` of peer_binary_protocol: the bytes left to consume, in at most two slices.
pub record DoubleBufHelper (D : Type 0) : Type 0 where
  pub len : D → ℕ
  pub as_ioslices : D → ℕ → List ℕ × List ℕ
  pub advance : D → ℕ → D

-- `ValidatedTorrentMetaV1Info` of librtbit_core, by its lengths and its `compare_hash`.
pub record Torrent : Type 0 where
  pub lengths : Lengths
  pub compare_hash : ℕ → ℕ → Option Bool

module _ {S : Type 0} (storage : TorrentStorage S) where
  -- The bytes that a read of `n` bytes of a file gives: zeros for padding.
  pub read_part : ℕ → FileInfo → ℕ → S → ℕ → Option (List ℕ)
  read_part file_id file_info pos files n =
      if file_info.attrs.padding
      then some (replicate n 0)
      else storage.pread_exact files file_id pos n

module _ {S H : Type 0} (storage : TorrentStorage S) (sha1 : Sha1 H) where
  -- The loop, on fuel: with none left it counts as an error.
  pub hash_loop : ℕ → ℕ → FileInfo → ℕ → S → H → ℕ → ℕ → Option H
  hash_loop fuel file_id file_info pos files hash buf_len zero = some hash
  hash_loop zero file_id file_info pos files hash buf_len (suc n) = none
  hash_loop (suc fuel) file_id file_info pos files hash buf_len (suc n) = do
    let chunk = min buf_len (suc n)
    bytes ← read_part storage file_id file_info pos files chunk
    hash_loop fuel file_id file_info (pos + chunk) files (sha1.update hash bytes) buf_len
        (suc n - chunk)

  -- A round reads at least a byte if the buffer is not empty.
  pub update_hash_from_file : ℕ → FileInfo → ℕ → S → H → ℕ → ℕ → Option H
  update_hash_from_file file_id file_info pos files hash buf_len bytes_to_read =
      hash_loop bytes_to_read file_id file_info pos files hash buf_len bytes_to_read

  -- The loop over the files, from number `i` on.
  pub check_loop : S → ℕ → ℕ → H → ℕ → ℕ → List FileInfo → Option H
  check_loop files i absolute_offset h buf_len remaining [] = some h
  check_loop files i absolute_offset h buf_len remaining (fi ∷ fis) =
      let skipped = check_loop files (suc i) (absolute_offset - fi.len) h buf_len remaining fis in
      if ltb fi.len absolute_offset then skipped else do
        let to_read_in_file = min (fi.len - absolute_offset) remaining
        h' ← update_hash_from_file i fi absolute_offset files h buf_len to_read_in_file
        let rest = check_loop files (suc i) 0 h' buf_len (remaining - to_read_in_file) fis
        if remaining - to_read_in_file == 0 then some h' else rest

  pub check_piece : Torrent → List FileInfo → S → ℕ → Option Bool
  check_piece torrent file_infos files piece_index = do
    let piece_length = torrent.lengths.piece_length piece_index
    h ←
        check_loop files 0 (torrent.lengths.piece_offset piece_index) sha1.new
          (min 65536 piece_length) piece_length file_infos
    torrent.compare_hash piece_index (sha1.finish h)

module _ {S : Type 0} (storage : TorrentStorage S) where
  -- The loop over the files, from number `i` on; `buf` is what is left of the buffer. The result
  -- is the buffer's contents afterwards.
  pub read_loop : S → ℕ → ℕ → List ℕ → List FileInfo → Option (List ℕ)
  read_loop files i absolute_offset buf [] = some buf
  read_loop files i absolute_offset buf (fi ∷ fis) =
      let skipped = read_loop files (suc i) (absolute_offset - fi.len) buf fis in
      if ltb fi.len absolute_offset then skipped else do
        let to_read_in_file = min (fi.len - absolute_offset) (length buf)
        bytes ← read_part storage i fi absolute_offset files to_read_in_file
        let buf' = drop to_read_in_file buf
        let whole = read_loop files (suc i) 0 buf' fis >>= (λ rest. some (bytes ++ rest))
        if length buf' == 0 then some bytes else whole

  pub read_chunk : Torrent → List FileInfo → S → ChunkInfo → List ℕ → Option (List ℕ)
  read_chunk torrent file_infos files chunk_info result_buf =
      let offset = torrent.lengths.chunk_absolute_offset chunk_info in
      if ltb (length result_buf) chunk_info.size
      then none
      else read_loop files 0 offset result_buf file_infos

module _ {S D : Type 0} (storage : TorrentStorage S) (helper : DoubleBufHelper D) where
  pub write_part : S → ℕ → FileInfo → ℕ → D → ℕ → Option S
  write_part files i fi absolute_offset data' to_write =
      let slices = helper.as_ioslices data' to_write in
      if fi.attrs.padding
      then some files
      else storage.pwrite_all_vectored files i absolute_offset (slices.0) (slices.1)

  pub write_loop : S → ℕ → ℕ → D → List FileInfo → Option S
  write_loop files i absolute_offset data' [] = some files
  write_loop files i absolute_offset data' (fi ∷ fis) =
      let skipped = write_loop files (suc i) (absolute_offset - fi.len) data' fis in
      if ltb fi.len absolute_offset then skipped else do
        let to_write = min (helper.len data') (fi.len - absolute_offset)
        files' ← write_part files i fi absolute_offset data' to_write
        let left = helper.advance data' to_write
        let rest = write_loop files' (suc i) 0 left fis
        if helper.len left == 0 then some files' else rest

  pub write_chunk : Torrent → List FileInfo → S → D → ChunkInfo → Option S
  write_chunk torrent file_infos files data' chunk_info =
      write_loop files 0 (torrent.lengths.chunk_absolute_offset chunk_info) data' file_infos
