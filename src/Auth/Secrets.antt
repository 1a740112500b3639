-- ===== src/Auth/Secrets.antt =====
-- `constant_time_eq` of src/http_api/mod.rs compares.
use Prim.Native.Nat.{bit_or, bit_xor, bit_or-bitwise, bit_xor-bitwise, digits, differ}
use librtbit.Base.{
  sym, ◌∙◌, ℕ, zero, suc, ◌/◌, ◌%◌, ◌≤◌, max, ◌≡◌, refl, true, [], ◌∷◌, arith, length, ap, ap₂,
  ==_refl, ◌↔◌,
}
use librtbit.Auth.Tokens.{Text, difference, constant_time_eq}

differ-zero : (x y : ℕ) → differ x y ≡ 0 → x ≡ y
differ-zero zero y e = sym e
differ-zero (suc x) zero e = e
differ-zero (suc x) (suc y) e = ap suc (differ-zero x y e)

differ_same : (x : ℕ) → differ x x ≡ 0
differ_same zero = refl
differ_same (suc x) = differ_same x

xor_digits-zero : (n a b : ℕ) → a ≤ n → digits (λ b. b) differ n a b ≡ 0 → a ≡ b
xor_digits-zero zero a b small e = omega arith
xor_digits-zero (suc n) zero b small e = sym e
xor_digits-zero (suc n) (suc a) b small e =
    let halves = xor_digits-zero n (suc a / 2) (b / 2) (omega arith) (omega arith) in
    let lowest = differ-zero (suc a % 2) (b % 2) (omega arith) in omega arith

xor_digits_same : (n a : ℕ) → a ≤ n → digits (λ b. b) differ n a a ≡ 0
xor_digits_same zero a small = omega arith
xor_digits_same (suc n) zero small = refl
xor_digits_same (suc n) (suc a) small =
    let halves = xor_digits_same n (suc a / 2) (omega arith) in
    let lowest = differ_same (suc a % 2) in omega arith

or_digits-zero : (n a b : ℕ) → a ≤ n → digits (λ b. b) max n a b ≡ 0 → (a ≡ 0) × (b ≡ 0)
or_digits-zero zero a b small e = (omega arith, e)
or_digits-zero (suc n) zero b small e = (refl, e)
or_digits-zero (suc n) (suc a) b small e =
    let (left, right) = or_digits-zero n (suc a / 2) (b / 2) (omega arith) (omega arith) in
    (omega arith, omega arith)

bit_xor-digits : (x y : ℕ) → bit_xor x y ≡ digits (λ b. b) differ x x y
bit_xor-digits x y = λ i. bit_xor-bitwise x y i

bit_or-digits : (x y : ℕ) → bit_or x y ≡ digits (λ b. b) max x x y
bit_or-digits x y = λ i. bit_or-bitwise x y i

bit_xor-zero : (x y : ℕ) → bit_xor x y ≡ 0 → x ≡ y
bit_xor-zero x y e = xor_digits-zero x x y (omega arith) (sym (bit_xor-digits x y) ∙ e)

bit_xor_same : (x : ℕ) → bit_xor x x ≡ 0
bit_xor_same x = bit_xor-digits x x ∙ xor_digits_same x x (omega arith)

bit_or-zero : (x y : ℕ) → bit_or x y ≡ 0 → (x ≡ 0) × (y ≡ 0)
bit_or-zero x y e = or_digits-zero x x y (omega arith) (sym (bit_or-digits x y) ∙ e)

difference-zero :
    (acc : ℕ) (a b : Text) → length a ≡ length b → difference acc a b ≡ 0 → (acc ≡ 0) × (a ≡ b)
unfolding difference
difference-zero acc [] [] len e = (e, refl)
difference-zero acc [] (y ∷ b) len e = absurd (omega arith)
difference-zero acc (x ∷ a) [] len e = absurd (omega arith)
difference-zero acc (x ∷ a) (y ∷ b) len e =
    let (both, rest) = difference-zero (bit_or acc (bit_xor x y)) a b (omega arith) e in
    let (none_yet, same) = bit_or-zero acc (bit_xor x y) both in
    (none_yet, ap₂ (λ c cs. c ∷ cs) (bit_xor-zero x y same) rest)

difference_same : (a : Text) → difference 0 a a ≡ 0
unfolding difference
difference_same [] = refl
difference_same (x ∷ a) = rw (bit_xor_same x) (difference_same a)

-- `constant_time_eq` says whether two texts are the same.
pub constant_time_eq-exact : (a b : Text) → (constant_time_eq a b ≡ true) ↔ (a ≡ b)
unfolding constant_time_eq
constant_time_eq-exact a b = (
  (λ e. (difference-zero 0 a b (ground arith) (ground arith)).1),
  λ same. rw (sym same, ==_refl (length a), difference_same a) refl,
)
