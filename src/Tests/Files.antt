-- ===== src/Tests/Files.antt =====
-- The theorems on src/file_ops.rs, at the torrent of `Samples.Disk`.
use librtbit.Base.{
  ℕ, ◌+◌, ◌%◌, ◌^◌, ◌<◌, ◌≡◌, refl, true, false, some, [], ◌∷◌, arith, length, Returns,
}
use librtbit.Base.Bits.{bit}
use librtbit.FileOps.{update_hash_from_file, check_piece, read_chunk, write_chunk}
use librtbit.FileOps.Initial.{initial_check}
use librtbit.FileOps.Layout.{flat, IsAllocated}
use librtbit.FileOps.Read.{read_chunk-flat}
use librtbit.FileOps.Write.{write_chunk-flat, read_chunk-write_chunk}
use librtbit.FileOps.Hash.{update_hash_from_file-content, check_piece-flat}
use librtbit.FileOps.Initial.Equal.{initial_check-eq-check_piece}
use librtbit.Samples.Disk.{
  lengths-Laws, files, torrent, memory, view, memory-IsStorage, sha1, sha1-IsHash, block,
  block-IsBuffer, disk, disk-IsAllocated, chunk,
}

read_chunk-flat_example :
    read_chunk memory torrent files disk (chunk 1 4) (9 ∷ 9 ∷ 9 ∷ 9 ∷ [])
    ≡ some (5 ∷ 0 ∷ 0 ∷ 0 ∷ [])
read_chunk-flat_example =
    read_chunk-flat memory-IsStorage torrent files disk (chunk 1 4) (9 ∷ 9 ∷ 9 ∷ 9 ∷ [])
      disk-IsAllocated (omega arith)

write_chunk-flat_example :
    Returns
      (write_chunk memory block torrent files disk (1 ∷ [], 1 ∷ 1 ∷ 1 ∷ []) (chunk 1 4))
      (λ s'.
        (flat (view s') 0 files ≡ 1 ∷ 2 ∷ 3 ∷ 4 ∷ 1 ∷ 0 ∷ 0 ∷ 0 ∷ 6 ∷ 8 ∷ [])
        × IsAllocated (view s') 0 files)
write_chunk-flat_example =
    write_chunk-flat memory-IsStorage block-IsBuffer torrent files disk (1 ∷ [], 1 ∷ 1 ∷ 1 ∷ [])
      (chunk 1 4) disk-IsAllocated

read_chunk-write_chunk_example :
    Returns
      (write_chunk memory block torrent files disk (1 ∷ [], 1 ∷ 1 ∷ 1 ∷ []) (chunk 1 4))
      (λ s'.
        read_chunk memory torrent files s' (chunk 1 4) (9 ∷ 9 ∷ 9 ∷ 9 ∷ [])
        ≡ some (1 ∷ 0 ∷ 0 ∷ 0 ∷ []))
read_chunk-write_chunk_example =
    read_chunk-write_chunk memory-IsStorage block-IsBuffer torrent files disk
      (1 ∷ [], 1 ∷ 1 ∷ 1 ∷ []) (chunk 1 4) (9 ∷ 9 ∷ 9 ∷ 9 ∷ []) disk-IsAllocated refl (omega arith)
      (omega arith)

update_hash_from_file-content_example :
    update_hash_from_file memory sha1 0
      (record {
        relative_filename = "f";
        offset_in_torrent = 0;
        piece_range = record { start = 0; end = 2 };
        attrs = record { padding = false };
        len = 5;
      })
      1
      disk
      []
      2
      3
    ≡ some (2 ∷ 3 ∷ 4 ∷ [])
update_hash_from_file-content_example =
    update_hash_from_file-content memory-IsStorage sha1-IsHash disk 0 _ 1 [] 2 3 (omega arith) refl
      (omega arith)

check_piece-flat_example : check_piece memory sha1 torrent files disk 1 ≡ some true
check_piece-flat_example =
    check_piece-flat memory-IsStorage sha1-IsHash torrent files disk 1 lengths-Laws (omega arith)
      disk-IsAllocated (omega arith)

initial_check-eq-check_piece_example :
    Returns (initial_check memory sha1 torrent files disk (λ i. false) 0) (λ result.
      ((i : ℕ) → i < 3 → check_piece memory sha1 torrent files disk i ≡ some (bit (result.0) i))
      × (length (result.0) ≡ 8)
      × (result.1 % 2 ^ 64 ≡ (0 + 10) % 2 ^ 64))
initial_check-eq-check_piece_example =
    initial_check-eq-check_piece memory-IsStorage sha1-IsHash torrent files disk (λ i. false) 0
      lengths-Laws (omega arith) disk-IsAllocated (omega arith) (λ i d h e. cc) (λ i. refl)
