-- ===== src/FileOps/Mask.antt =====
-- Writing over a part of a list, and what of the written bytes padding lets through.
use librtbit.Base.{
  ℕ, zero, suc, ◌+◌, ◌-◌, ◌≤◌, ◌≡◌, refl, ap, ◌∙◌, sym, Bool, true, false, not, List, [], ◌∷◌, ◌++◌,
  arith, if◌then◌else◌, length, take, drop, replicate, min, length-replicate, drop_all, drop-append,
  drop-replicate, dec_le,
}
use librtbit.FileInfo.{FileInfo}
use librtbit.FileOps.Layout.{overwrite}

-- For each byte of the files whether it is stored.
abbrev pub stored : List FileInfo → List Bool
stored [] = []
stored (fi ∷ fis) = replicate fi.len (not fi.attrs.padding) ++ stored fis

-- Zeros in place of the bytes that are not.
abbrev pub blanked : List Bool → List ℕ → List ℕ
blanked [] ds = []
blanked (b ∷ bs) [] = []
blanked (b ∷ bs) (d ∷ ds) = (if b then d else 0) ∷ blanked bs ds

pub overwrite_nothing : (old : List ℕ) → overwrite 0 [] old ≡ old
overwrite_nothing [] = refl
overwrite_nothing (o ∷ old) = refl

pub length-overwrite : (off : ℕ) (ds old : List ℕ) → length (overwrite off ds old) ≡ length old
length-overwrite off ds [] = refl
length-overwrite zero [] (o ∷ old) = refl
length-overwrite zero (d ∷ ds) (o ∷ old) = ap suc (length-overwrite zero ds old)
length-overwrite (suc off) ds (o ∷ old) = ap suc (length-overwrite off ds old)

pub overwrite_after :
    (off : ℕ) (ds c r : List ℕ)
    → length c ≤ off
    → overwrite off ds (c ++ r) ≡ c ++ overwrite (off - length c) ds r
overwrite_after zero ds [] r h = refl
overwrite_after (suc off) ds [] r h =
    ap (λ k. overwrite k ds r) {x = suc off} {y = suc off - 0} (omega arith)
overwrite_after zero ds (x ∷ c) r h = absurd (omega arith)
overwrite_after (suc off) ds (x ∷ c) r h =
    let e : suc off - suc (length c) ≡ off - length c = omega arith in
    rw e (ap (λ l. x ∷ l) (overwrite_after off ds c r (omega arith)))

-- `k` is the room left in the first list.
overwrite_in :
    (off k : ℕ) (ds c r : List ℕ)
    → off + k ≡ length c
    → overwrite off ds (c ++ r) ≡ overwrite off (take k ds) c ++ overwrite 0 (drop k ds) r
overwrite_in zero zero ds [] r h = refl
overwrite_in (suc off) k ds [] r h = absurd (omega arith)
overwrite_in zero (suc k) ds [] r h = absurd (omega arith)
overwrite_in zero zero ds (x ∷ c) r h = absurd (omega arith)
overwrite_in zero (suc k) [] (x ∷ c) r h = ap (λ l. (x ∷ c) ++ l) (sym (overwrite_nothing r))
overwrite_in zero (suc k) (d ∷ ds) (x ∷ c) r h =
    ap (λ l. d ∷ l) (overwrite_in zero k ds c r (omega arith))
overwrite_in (suc off) k ds (x ∷ c) r h = ap (λ l. x ∷ l) (overwrite_in off k ds c r (omega arith))

-- What was written is read.
pub cut-overwrite :
    (off : ℕ) (ds old : List ℕ)
    → off + length ds ≤ length old
    → take (length ds) (drop off (overwrite off ds old)) ≡ ds
cut-overwrite zero [] old h = refl
cut-overwrite (suc off) [] old h = refl
cut-overwrite zero (d ∷ ds) [] h = absurd (omega arith)
cut-overwrite (suc off) (d ∷ ds) [] h = absurd (omega arith)
cut-overwrite zero (d ∷ ds) (o ∷ old) h = ap (λ l. d ∷ l) (cut-overwrite zero ds old (omega arith))
cut-overwrite (suc off) (d ∷ ds) (o ∷ old) h = cut-overwrite off (d ∷ ds) old (omega arith)

pub length-blanked :
    (bs : List Bool) (ds : List ℕ) → length (blanked bs ds) ≡ min (length bs) (length ds)
length-blanked [] ds = omega arith
length-blanked (b ∷ bs) [] = omega arith
length-blanked (b ∷ bs) (d ∷ ds) = omega (arith, length-blanked bs ds)

-- Writing into padding leaves zeros.
overwrite-blanked-false :
    (off k len : ℕ) (ds : List ℕ)
    → overwrite off (blanked (replicate k false) ds) (replicate len 0) ≡ replicate len 0
overwrite-blanked-false off k zero ds = refl
overwrite-blanked-false zero zero (suc len) ds = refl
overwrite-blanked-false zero (suc k) (suc len) [] = refl
overwrite-blanked-false zero (suc k) (suc len) (d ∷ ds) =
    ap (λ l. 0 ∷ l) (overwrite-blanked-false zero k len ds)
overwrite-blanked-false (suc off) k (suc len) ds =
    ap (λ l. 0 ∷ l) (overwrite-blanked-false off k len ds)

blanked-true : (k : ℕ) (ds : List ℕ) → blanked (replicate k true) ds ≡ take k ds
blanked-true zero ds = refl
blanked-true (suc k) [] = refl
blanked-true (suc k) (d ∷ ds) = ap (λ l. d ∷ l) (blanked-true k ds)

-- The part of a write that falls on one file, stored or not.
pub overwrite-blanked :
    (padding : Bool) (off k len : ℕ) (ds old : List ℕ)
    → overwrite off
        (blanked (replicate k (not padding)) ds)
        (if padding then replicate len 0 else old)
      ≡ (if padding then replicate len 0 else overwrite off (take k ds) old)
overwrite-blanked true off k len ds old = overwrite-blanked-false off k len ds
overwrite-blanked false off k len ds old = rw (blanked-true k ds) refl

take-blanked :
    (k : ℕ) (b : Bool) (bs : List Bool) (ds : List ℕ)
    → take k (blanked (replicate k b ++ bs) ds) ≡ blanked (replicate k b) ds
take-blanked zero b bs ds = refl
take-blanked (suc k) b bs [] = refl
take-blanked (suc k) b bs (d ∷ ds) = ap (λ l. (if b then d else 0) ∷ l) (take-blanked k b bs ds)

drop-blanked :
    (k : ℕ) (b : Bool) (bs : List Bool) (ds : List ℕ)
    → drop k (blanked (replicate k b ++ bs) ds) ≡ blanked bs (drop k ds)
drop-blanked zero b bs ds = refl
drop-blanked (suc k) b [] [] = refl
drop-blanked (suc k) b (c ∷ bs) [] = refl
drop-blanked (suc k) b bs (d ∷ ds) = drop-blanked k b bs ds

-- A write from `off` on over a file `c` of which `off` bytes are passed, and over the files after it.
pub overwrite_file :
    (off len : ℕ) (b : Bool) (bs : List Bool) (ds c r : List ℕ)
    → off ≤ len
    → length c ≡ len
    → overwrite off (blanked (drop off (replicate len b ++ bs)) ds) (c ++ r)
      ≡ overwrite off (blanked (replicate (len - off) b) ds) c
        ++ overwrite 0 (blanked bs (drop (len - off) ds)) r
overwrite_file off len b bs ds c r h e =
    let z : off - len ≡ 0 = omega arith in
    rw
      (
        drop-append off (replicate len b) bs,
        length-replicate,
        z,
        drop-replicate,
        overwrite_in off (len - off) _ c r (omega arith),
        take-blanked,
        drop-blanked,
      )
      refl

pub stored_after :
    (off len : ℕ) (b : Bool) (bs : List Bool)
    → len ≤ off
    → drop off (replicate len b ++ bs) ≡ drop (off - len) bs
stored_after off len b bs h =
    rw
      (
        drop-append off (replicate len b) bs,
        length-replicate,
        drop_all off (replicate len b) (omega (arith, length-replicate len b)),
      )
      refl

pub drop-min : (k : ℕ) (ds : List ℕ) → drop (min (length ds) k) ds ≡ drop k ds
drop-min k ds = elim (dec_le k (length ds)) [
  | yes h ↦ ap (λ m. drop m ds) {x = min (length ds) k} {y = k} (omega arith)
  | no h ↦ drop_all (min (length ds) k) ds (omega arith) ∙ sym (drop_all k ds (omega arith))
]
