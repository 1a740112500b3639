-- ===== src/FileOps/Read.antt =====
-- `read_chunk` of src/file_ops.rs gives the chunk's bytes of the torrent.
use librtbit.Base.{
  ==_ne, ℕ, zero, suc, ◌+◌, ◌-◌, ◌≤◌, ◌≡◌, refl, ap, inl, inr, none, some, List, [], ◌∷◌, ◌++◌,
  arith, if◌then◌else◌, ltb, ◌==◌, length, take, drop, min, ◌>>=◌, length-append, length-drop,
  cut_in, cut_after, take-replicate, drop-replicate, Bool-cases,
}
use mathlib.Core.List.{append-nil}
use librtbit.FileInfo.{FileInfo}
use librtbit.Lengths.{ChunkInfo}
use librtbit.FileOps.{TorrentStorage, Torrent, read_part, read_loop, read_chunk}
use librtbit.FileOps.Layout.{IsStorage, content, flat, IsAllocated}

-- Stopping once nothing is left to read gives what going on would give.
stop_or_go :
    (k : ℕ) (bytes rest : List ℕ)
    → (if k == 0 then some bytes else some (bytes ++ take k rest)) ≡ some (bytes ++ take k rest)
stop_or_go zero bytes rest = rw append-nil refl
stop_or_go (suc k) bytes rest = rw (==_ne (suc k) 0 (λ e. omega arith)) refl

module _ {S : Type 0} {storage : TorrentStorage S} {view : S → ℕ → List ℕ}
    (lawful : IsStorage storage view) where
  -- A read inside a file gives its bytes, for padding too.
  pub read_part-content :
      (s : S) (i : ℕ) (fi : FileInfo) (off n : ℕ)
      → length (content (view s) i fi) ≡ fi.len
      → off + n ≤ fi.len
      → read_part storage i fi off s n ≡ some (take n (drop off (content (view s) i fi)))
  unfolding read_part
  read_part-content s i fi off n e h = elim (Bool-cases fi.attrs.padding) [
    | inl padded ↦
        rw
          (
            padded,
            drop-replicate off fi.len zero,
            take-replicate n (fi.len - off) zero (omega arith),
          )
          refl
    | inr real ↦
        let e' : length (view s i) ≡ fi.len = rw real at e in
        rw real (lawful.reads s i off n (omega arith))
  ]

  read_loop-flat :
      (s : S) (i off : ℕ) (buf : List ℕ) (fis : List FileInfo)
      → IsAllocated (view s) i fis
      → off + length buf ≤ length (flat (view s) i fis)
      → read_loop storage s i off buf fis
        ≡ some (take (length buf) (drop off (flat (view s) i fis)))
  unfolding read_loop read_part
  read_loop-flat s i off [] [] a h = refl
  read_loop-flat s i off (b ∷ buf) [] a h = absurd (omega arith)
  read_loop-flat s i off buf (fi ∷ fis) (e, a) h =
      let c = content (view s) i fi in
      let r = flat (view s) (suc i) fis in
      let whole : length (c ++ r) ≡ fi.len + length r = omega (arith, length-append c r) in
      let n = min (fi.len - off) (length buf) in
      elim (Bool-cases (ltb fi.len off)) [
        | inl after ↦
            rw
              (
                after,
                read_loop-flat s (suc i) (off - fi.len) buf fis a (ground arith),
                cut_after c r off (length buf) (ground arith),
                e,
              )
              refl
        | inr inside ↦
            let part : read_part storage i fi off s n ≡ some (take n (drop off c)) =
              read_part-content s i fi off n e (ground arith) in
            let rest =
              read_loop-flat s (suc i) 0 (drop n buf) fis a (ground (arith, length-drop n buf)) in
            rw
              (
                inside,
                part,
                ◌>>=◌,
                rest,
                cut_in c r off (length buf) (ground arith),
                length-drop n buf,
                e,
              )
              (stop_or_go (length buf - n) (take n (drop off c)) r)
      ]

  -- `read_chunk` fails if the buffer has no room for the chunk, and otherwise fills the buffer with
  -- the torrent's bytes from the chunk's place on; where the files are allocated and the buffer
  -- does not reach beyond the torrent.
  pub read_chunk-flat :
      (t : Torrent) (fis : List FileInfo) (s : S) (c : ChunkInfo) (buf : List ℕ)
      → IsAllocated (view s) 0 fis
      → t.lengths.chunk_absolute_offset c + length buf ≤ length (flat (view s) 0 fis)
      → read_chunk storage t fis s c buf ≡ (
          if ltb (length buf) c.size
          then none
          else some
              (take (length buf) (drop (t.lengths.chunk_absolute_offset c) (flat (view s) 0 fis))))
  unfolding read_chunk
  read_chunk-flat t fis s c buf a h =
      ap (λ r. if ltb (length buf) c.size then none else r)
        (read_loop-flat s 0 (t.lengths.chunk_absolute_offset c) buf fis a h)
