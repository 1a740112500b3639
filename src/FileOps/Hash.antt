-- ===== src/FileOps/Hash.antt =====
-- `update_hash_from_file` and `check_piece` of src/file_ops.rs hash the piece's bytes of the
-- torrent, in whatever parts the buffer imposes.
use librtbit.Base.{
  ℕ, zero, suc, ◌+◌, ◌-◌, ◌≤◌, ◌<◌, ◌≡◌, refl, inl, inr, some, List, [], ◌∷◌, ◌++◌, arith,
  if◌then◌else◌, ltb, ◌==◌, ==_ne, length, take, drop, min, ◌>>=◌, length-append, cut_in, cut_after,
  take_add, drop-drop, Bool-cases,
}
use mathlib.Core.List.{append-nil}
use librtbit.FileInfo.{FileInfo}
use librtbit.Lengths.{Laws}
use librtbit.FileOps.{
  TorrentStorage, Sha1, Torrent, read_part, hash_loop, update_hash_from_file, check_loop,
  check_piece,
}
use librtbit.FileOps.Layout.{IsStorage, IsHash, content, flat, IsAllocated}
use librtbit.FileOps.Read.{read_part-content}

module _ {S H : Type 0} {storage : TorrentStorage S} {sha1 : Sha1 H} {view : S → ℕ → List ℕ}
    (lawful : IsStorage storage view) (hashes : IsHash sha1) where
  hash_loop-content :
      (s : S) (fuel i : ℕ) (fi : FileInfo) (pos : ℕ) (h : H) (buf_len n : ℕ)
      → 0 < buf_len
      → n ≤ fuel
      → length (content (view s) i fi) ≡ fi.len
      → pos + n ≤ fi.len
      → hash_loop storage sha1 fuel i fi pos s h buf_len n
        ≡ some (sha1.update h (take n (drop pos (content (view s) i fi))))
  unfolding hash_loop
  hash_loop-content s fuel i fi pos h buf_len zero full enough e inside =
      rw (hashes.update_nil h) refl
  hash_loop-content s zero i fi pos h buf_len (suc n) full enough e inside = absurd (omega arith)
  hash_loop-content s (suc fuel) i fi pos h buf_len (suc n) full enough e inside =
      let c = content (view s) i fi in
      let chunk : ℕ = min buf_len (suc n) in
      let part : read_part storage i fi pos s chunk ≡ some (take chunk (drop pos c)) =
        read_part-content lawful s i fi pos chunk e (omega arith) in
      rw
        (
          part,
          ◌>>=◌,
          hash_loop-content s fuel i fi (pos + chunk) (sha1.update h (take chunk (drop pos c)))
              buf_len (suc n - chunk) full (omega arith) e (omega arith),
          hashes.update-update,
          ← drop-drop chunk pos (pos + chunk) c refl,
          ← take_add chunk (suc n - chunk) (suc n) (drop pos c) (omega arith),
        )
        refl

  -- With a buffer that has room for a byte, the loop of `update_hash_from_file` ends, and the hash
  -- has taken in the bytes of the file that were asked for, for a part of an allocated file.
  pub update_hash_from_file-content :
      (s : S) (i : ℕ) (fi : FileInfo) (pos : ℕ) (h : H) (buf_len n : ℕ)
      → 0 < buf_len
      → length (content (view s) i fi) ≡ fi.len
      → pos + n ≤ fi.len
      → update_hash_from_file storage sha1 i fi pos s h buf_len n
        ≡ some (sha1.update h (take n (drop pos (content (view s) i fi))))
  unfolding update_hash_from_file
  update_hash_from_file-content s i fi pos h buf_len n full e inside =
      hash_loop-content s n i fi pos h buf_len n full (omega arith) e inside

  stop_or_hash :
      (k : ℕ) (h : H) (bytes rest : List ℕ)
      → (if k == 0
          then some (sha1.update h bytes)
          else some (sha1.update (sha1.update h bytes) (take k rest)))
        ≡ some (sha1.update h (bytes ++ take k rest))
  stop_or_hash zero h bytes rest = rw append-nil refl
  stop_or_hash (suc k) h bytes rest =
      rw (==_ne (suc k) 0 (λ e. omega arith), hashes.update-update) refl

  check_loop-flat :
      (s : S) (i off : ℕ) (h : H) (buf_len n : ℕ) (fis : List FileInfo)
      → 0 < buf_len
      → IsAllocated (view s) i fis
      → off + n ≤ length (flat (view s) i fis)
      → check_loop storage sha1 s i off h buf_len n fis
        ≡ some (sha1.update h (take n (drop off (flat (view s) i fis))))
  unfolding check_loop
  check_loop-flat s i off h buf_len zero [] full a fit = rw (hashes.update_nil h) refl
  check_loop-flat s i off h buf_len (suc n) [] full a fit = absurd (omega arith)
  check_loop-flat s i off h buf_len n (fi ∷ fis) full (e, a) fit =
      let c = content (view s) i fi in
      let r = flat (view s) (suc i) fis in
      let whole : length (c ++ r) ≡ fi.len + length r = omega (arith, length-append c r) in
      let m : ℕ = min (fi.len - off) n in
      elim (Bool-cases (ltb fi.len off)) [
        | inl after ↦
            rw
              (
                after,
                check_loop-flat s (suc i) (off - fi.len) h buf_len n fis full a (ground arith),
                cut_after c r off n (ground arith),
                e,
              )
              refl
        | inr inside ↦
            let part : update_hash_from_file storage sha1 i fi off s h buf_len m
                ≡ some (sha1.update h (take m (drop off c))) =
              update_hash_from_file-content s i fi off h buf_len m full e (ground arith) in
            let rest =
              check_loop-flat s (suc i) 0 (sha1.update h (take m (drop off c))) buf_len (n - m) fis
                full a (ground arith) in
            rw (inside, part, ◌>>=◌, rest, cut_in c r off n (ground arith), e)
              (stop_or_hash (n - m) h (take m (drop off c)) r)
      ]

  -- `check_piece` compares the torrent's hash of a valid piece with the hash of the bytes that the
  -- storage has for it, padding being zeros, for a torrent whose files are allocated.
  pub check_piece-flat :
      (t : Torrent) (fis : List FileInfo) (s : S) (i : ℕ)
      → Laws t.lengths
      → i < t.lengths.total_pieces
      → IsAllocated (view s) 0 fis
      → t.lengths.total_length ≤ length (flat (view s) 0 fis)
      → check_piece storage sha1 t fis s i
        ≡ t.compare_hash i (
            sha1.finish (
              sha1.update sha1.new (
                take
                  (t.lengths.piece_length i)
                  (drop (t.lengths.piece_offset i) (flat (view s) 0 fis)))))
  unfolding check_piece
  check_piece-flat t fis s i laws valid a fit =
      rw
        (
          check_loop-flat s 0 (t.lengths.piece_offset i) sha1.new
              (min 65536 (t.lengths.piece_length i)) (t.lengths.piece_length i) fis
              (omega (arith, laws.piece_some i valid)) a (omega (arith, laws.piece_inside i valid)),
          ◌>>=◌,
        )
        refl
