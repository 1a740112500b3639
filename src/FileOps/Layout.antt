-- ===== src/FileOps/Layout.antt =====
-- The contents of a torrent: its files one after the other, where padding counts as zeros. What
-- the code relies on in its arguments, and how a position in the torrent falls on a file.
use librtbit.Base.{
  ℕ, zero, suc, ◌+◌, ◌≤◌, ◌≡◌, ◌≢◌, some, List, [], ◌∷◌, ◌++◌, if◌then◌else◌, length, take, drop,
  replicate, Returns,
}
use librtbit.FileInfo.{FileInfo}
use librtbit.FileOps.{TorrentStorage, Sha1, DoubleBufHelper}

-- `data` written over `old` from `off` on, as far as `old` goes.
abbrev pub overwrite : ℕ → List ℕ → List ℕ → List ℕ
overwrite off data' [] = []
overwrite zero [] (o ∷ old) = o ∷ old
overwrite zero (d ∷ data') (o ∷ old) = d ∷ overwrite zero data' old
overwrite (suc off) data' (o ∷ old) = o ∷ overwrite off data' old

-- `view s f` is what file `f` of the storage holds. A read inside the file gives its bytes; a
-- write inside it replaces them, and leaves the other files alone.
pub record IsStorage {S : Type 0} (storage : TorrentStorage S) (view : S → ℕ → List ℕ)
    : Type 0 where
  pub reads :
      (s : S) (f off n : ℕ)
      → off + n ≤ length (view s f)
      → storage.pread_exact s f off n ≡ some (take n (drop off (view s f)))
  pub writes :
      (s : S) (f off : ℕ) (a b : List ℕ)
      → off + length (a ++ b) ≤ length (view s f)
      → Returns (storage.pwrite_all_vectored s f off a b) (λ s'.
        (view s' f ≡ overwrite off (a ++ b) (view s f)) × ((g : ℕ) → g ≢ f → view s' g ≡ view s g))

-- Hashing in parts is hashing the whole.
pub record IsHash {H : Type 0} (sha1 : Sha1 H) : Type 0 where
  pub update_nil : (h : H) → sha1.update h [] ≡ h
  pub update-update :
      (h : H) (a b : List ℕ) → sha1.update (sha1.update h a) b ≡ sha1.update h (a ++ b)

-- `contents d` are the bytes left to consume.
pub record IsBuffer {D : Type 0} (helper : DoubleBufHelper D) (contents : D → List ℕ) : Type 0 where
  pub len-contents : (d : D) → helper.len d ≡ length (contents d)
  pub slices :
      (d : D) (n : ℕ)
      → n ≤ length (contents d)
      → (helper.as_ioslices d n).0 ++ (helper.as_ioslices d n).1 ≡ take n (contents d)
  pub advances :
      (d : D) (n : ℕ)
      → n ≤ length (contents d)
      → contents (helper.advance d n) ≡ drop n (contents d)

-- The bytes of one file, and of all files from number `i` on.
abbrev pub content : (ℕ → List ℕ) → ℕ → FileInfo → List ℕ
content view i fi = if fi.attrs.padding then replicate fi.len 0 else view i

abbrev pub flat : (ℕ → List ℕ) → ℕ → List FileInfo → List ℕ
flat view i [] = []
flat view i (fi ∷ fis) = content view i fi ++ flat view (suc i) fis

-- Every file has its length in the storage.
abbrev pub IsAllocated : (ℕ → List ℕ) → ℕ → List FileInfo → Type 0
IsAllocated view i [] = Unit
IsAllocated view i (fi ∷ fis) = (length (content view i fi) ≡ fi.len) × IsAllocated view (suc i) fis
