-- ===== src/Base/Slices.antt =====
-- How `take` and `drop` cut a list.
use Prim.Native.Nat.{ℕ, zero, suc, ◌+◌, ◌-◌, ◌≤◌, min}
use mathlib.Core.Path.{◌≡◌, refl, ap, sym, ◌∙◌}
use mathlib.Core.List.{List, [], ◌∷◌, ◌++◌}
use native.Mathlib.Omega.{arith}
use librtbit.Base.Lists.{length, take, drop, replicate, length-drop}
use native.Mathlib.Decide.{dec_le}

module _ {ℓ} {A : Type ℓ} where
  pub take-append :
      (n : ℕ) (xs ys : List A) → take n (xs ++ ys) ≡ take n xs ++ take (n - length xs) ys
  take-append zero [] ys = refl
  take-append (suc n) [] ys = ap (λ k. take k ys) {x = suc n} {y = suc n - 0} (omega arith)
  take-append zero (x ∷ xs) ys = ap (λ k. take k ys) {x = 0} {y = 0 - suc (length xs)} (omega arith)
  take-append (suc n) (x ∷ xs) ys =
      let e : suc n - suc (length xs) ≡ n - length xs = omega arith in
      rw e (ap (λ l. x ∷ l) (take-append n xs ys))

  pub drop-append :
      (n : ℕ) (xs ys : List A) → drop n (xs ++ ys) ≡ drop n xs ++ drop (n - length xs) ys
  drop-append zero [] ys = refl
  drop-append (suc n) [] ys = ap (λ k. drop k ys) {x = suc n} {y = suc n - 0} (omega arith)
  drop-append zero (x ∷ xs) ys = let e : 0 - suc (length xs) ≡ 0 = omega arith in rw e refl
  drop-append (suc n) (x ∷ xs) ys =
      let e : suc n - suc (length xs) ≡ n - length xs = omega arith in rw e (drop-append n xs ys)

  take_all : (n : ℕ) (xs : List A) → length xs ≤ n → take n xs ≡ xs
  take_all zero [] h = refl
  take_all zero (x ∷ xs) h = absurd (omega arith)
  take_all (suc n) [] h = refl
  take_all (suc n) (x ∷ xs) h = ap (λ l. x ∷ l) (take_all n xs (omega arith))

  pub drop_all : (n : ℕ) (xs : List A) → length xs ≤ n → drop n xs ≡ []
  drop_all zero [] h = refl
  drop_all zero (x ∷ xs) h = absurd (omega arith)
  drop_all (suc n) [] h = refl
  drop_all (suc n) (x ∷ xs) h = drop_all n xs (omega arith)

  pub drop-drop : (m n k : ℕ) (xs : List A) → k ≡ n + m → drop m (drop n xs) ≡ drop k xs
  drop-drop m zero k xs e = let e' : m ≡ k = omega arith in rw e' refl
  drop-drop zero (suc n) zero [] e = refl
  drop-drop zero (suc n) (suc k) [] e = refl
  drop-drop (suc m) (suc n) zero [] e = refl
  drop-drop (suc m) (suc n) (suc k) [] e = refl
  drop-drop m (suc n) zero (x ∷ xs) e = absurd (omega arith)
  drop-drop m (suc n) (suc k) (x ∷ xs) e = drop-drop m n k xs (omega arith)

  -- Taking in two goes.
  pub take_add : (m n k : ℕ) (xs : List A) → k ≡ m + n → take k xs ≡ take m xs ++ take n (drop m xs)
  take_add zero n k xs e = let e' : k ≡ n = omega arith in rw e' refl
  take_add (suc m) n zero xs e = absurd (omega arith)
  take_add (suc m) zero (suc k) [] e = refl
  take_add (suc m) (suc n) (suc k) [] e = refl
  take_add (suc m) n (suc k) (x ∷ xs) e = ap (λ l. x ∷ l) (take_add m n k xs (omega arith))

  pub take-replicate : (n m : ℕ) (a : A) → n ≤ m → take n (replicate m a) ≡ replicate n a
  take-replicate zero m a h = refl
  take-replicate (suc n) zero a h = absurd (omega arith)
  take-replicate (suc n) (suc m) a h = ap (λ l. a ∷ l) (take-replicate n m a (omega arith))

  pub drop-replicate : (n m : ℕ) (a : A) → drop n (replicate m a) ≡ replicate (m - n) a
  drop-replicate zero m a = ap (λ k. replicate k a) {x = m} {y = m - 0} (omega arith)
  drop-replicate (suc n) zero a = ap (λ k. replicate k a) {x = 0} {y = 0 - suc n} (omega arith)
  drop-replicate (suc n) (suc m) a =
      let e : suc m - suc n ≡ m - n = omega arith in rw e (drop-replicate n m a)

  pub take_min : (n : ℕ) (xs : List A) → take n xs ≡ take (min (length xs) n) xs
  take_min n xs = elim (dec_le n (length xs)) [
    | yes h ↦ ap (λ k. take k xs) {x = n} {y = min (length xs) n} (omega arith)
    | no h ↦ take_all n xs (omega arith) ∙ sym (take_all (min (length xs) n) xs (omega arith))
  ]

  -- A cut of two lists joined that starts after the first, and one that starts in it.
  pub cut_after :
      (c r : List A) (off n : ℕ)
      → length c ≤ off
      → take n (drop off (c ++ r)) ≡ take n (drop (off - length c) r)
  cut_after c r off n h = rw (drop-append off c r, drop_all off c h) refl

  pub cut_in :
      (c r : List A) (off n : ℕ)
      → off ≤ length c
      → take n (drop off (c ++ r))
        ≡ take (min (length c - off) n) (drop off c) ++ take (n - min (length c - off) n) r
  cut_in c r off n h =
      let e : off - length c ≡ 0 = omega arith in
      let k : n - (length c - off) ≡ n - min (length c - off) n = omega arith in
      let t : take n (drop off c) ≡ take (min (length c - off) n) (drop off c) =
        take_min n (drop off c) ∙ rw (length-drop off c) refl in
      rw (drop-append off c r, e, take-append n (drop off c) r, length-drop, k, t) refl
