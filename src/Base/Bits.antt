-- ===== src/Base/Bits.antt =====
-- The operations of a bit vector that the program calls (`BF`, `BS` of type_aliases.rs: boxes and
-- slices of the `bitvec` crate), over the list of the bits in index order. An index out of range
-- panics; `get` and `get_mut` of a range out of bounds give `None`.
use librtbit.Base.{
  ℕ, zero, suc, ◌+◌, ◌-◌, ◌*◌, ◌≤◌, ◌<◌, ◌≡◌, refl, ap, ◌⊎◌, inl, inr, Bool, true, false, not, ◌&&◌,
  ◌||◌, Option, none, some, List, [], ◌∷◌, arith, ltb, leb, ◌==◌, if◌then◌else◌, length, get_or,
  get_elem?, set, replicate, get_elem?-eq-get_or, All, All-mono, dec_lt,
}

abbrev pub Bits : Type 0
Bits = List Bool

-- `start..end`
pub record Range : Type 0 where
  pub start : ℕ
  pub end : ℕ

-- `vec![0u8; bytes]` as bits
abbrev pub zeroed : ℕ → Bits
zeroed bytes = replicate (8 * bytes) false

-- `bits[i]`
abbrev pub index : Bits → ℕ → Option Bool
index bits i = get_elem? bits i

-- Whether bit `i` is there and set.
abbrev pub bit : Bits → ℕ → Bool
bit bits i = get_or bits i false

-- `bits.set(i, v)`
pub set_bit : Bits → ℕ → Bool → Option Bits
set_bit bits i v = if ltb i (length bits) then some (set bits i v) else none

-- Writes `v` to `n` bits from `i` on, as far as there are bits.
pub fill_from : Bits → ℕ → ℕ → Bool → Bits
fill_from [] i n v = []
fill_from (b ∷ bits) zero zero v = b ∷ bits
fill_from (b ∷ bits) zero (suc n) v = v ∷ fill_from bits zero n v
fill_from (b ∷ bits) (suc i) n v = b ∷ fill_from bits i n v

-- Whether the `n` bits from `i` on are all set.
pub all_from : Bits → ℕ → ℕ → Bool
all_from bits i zero = true
all_from bits i (suc n) = bit bits i && all_from bits (suc i) n

abbrev holds_range : Bits → Range → Bool
holds_range bits r = leb r.start r.end && leb r.end (length bits)

-- `bits.get_mut(r)`, filled with `v`
unfoldable pub fill_range : Bits → Range → Bool → Option Bits
fill_range bits r v =
    if holds_range bits r then some (fill_from bits r.start (r.end - r.start) v) else none

-- `bits.get(r).map(|s| s.all())`
pub all_range : Bits → Range → Option Bool
all_range bits r =
    if holds_range bits r then some (all_from bits r.start (r.end - r.start)) else none

-- `!a`
pub bits_not : Bits → Bits
bits_not [] = []
bits_not (a ∷ as') = not a ∷ bits_not as'

-- `a & b` and `a &= b`: the length of `a`; a bit that `b` lacks counts as unset
pub bits_and : Bits → Bits → Bits
bits_and [] bs = []
bits_and (a ∷ as') [] = false ∷ bits_and as' []
bits_and (a ∷ as') (b ∷ bs) = (a && b) ∷ bits_and as' bs

-- `a |= b`
pub bits_or : Bits → Bits → Bits
bits_or [] bs = []
bits_or (a ∷ as') [] = a ∷ as'
bits_or (a ∷ as') (b ∷ bs) = (a || b) ∷ bits_or as' bs

pub length-fill_from :
    (bits : Bits) (i n : ℕ) (v : Bool) → length (fill_from bits i n v) ≡ length bits
unfolding fill_from
length-fill_from [] i n v = refl
length-fill_from (b ∷ bits) zero zero v = refl
length-fill_from (b ∷ bits) zero (suc n) v = ap suc (length-fill_from bits zero n v)
length-fill_from (b ∷ bits) (suc i) n v = ap suc (length-fill_from bits i n v)

pub length-bits_not : (a : Bits) → length (bits_not a) ≡ length a
unfolding bits_not
length-bits_not [] = refl
length-bits_not (x ∷ a) = ap suc (length-bits_not a)

pub length-bits_and : (a b : Bits) → length (bits_and a b) ≡ length a
unfolding bits_and
length-bits_and [] b = refl
length-bits_and (x ∷ a) [] = ap suc (length-bits_and a [])
length-bits_and (x ∷ a) (y ∷ b) = ap suc (length-bits_and a b)

length-bits_or : (a b : Bits) → length (bits_or a b) ≡ length a
unfolding bits_or
length-bits_or [] b = refl
length-bits_or (x ∷ a) [] = refl
length-bits_or (x ∷ a) (y ∷ b) = ap suc (length-bits_or a b)

pub bit-bits_not : (a : Bits) (i : ℕ) → i < length a → bit (bits_not a) i ≡ not (bit a i)
unfolding bits_not
bit-bits_not [] i h = absurd (omega arith)
bit-bits_not (x ∷ a) zero h = refl
bit-bits_not (x ∷ a) (suc i) h = bit-bits_not a i (omega arith)

pub bit-bits_and : (a b : Bits) (i : ℕ) → bit (bits_and a b) i ≡ (bit a i && bit b i)
unfolding bits_and
bit-bits_and [] b i = refl
bit-bits_and (x ∷ a) [] zero = ground arith
bit-bits_and (x ∷ a) [] (suc i) = bit-bits_and a [] i
bit-bits_and (x ∷ a) (y ∷ b) zero = refl
bit-bits_and (x ∷ a) (y ∷ b) (suc i) = bit-bits_and a b i

pub bit-bits_or : (a b : Bits) (i : ℕ) → i < length a → bit (bits_or a b) i ≡ (bit a i || bit b i)
unfolding bits_or
bit-bits_or [] b i h = absurd (omega arith)
bit-bits_or (x ∷ a) [] zero h = ground arith
bit-bits_or (x ∷ a) [] (suc i) h = ground arith
bit-bits_or (x ∷ a) (y ∷ b) zero h = refl
bit-bits_or (x ∷ a) (y ∷ b) (suc i) h = bit-bits_or a b i (omega arith)

-- A fill changes the bits of its range only.
pub bit-fill_from :
    (bits : Bits) (i n j : ℕ) (v : Bool)
    → j < length bits
    → bit (fill_from bits i n v) j ≡ (if leb i j && ltb j (i + n) then v else bit bits j)
unfolding fill_from
bit-fill_from [] i n j v h = absurd (omega arith)
bit-fill_from (b ∷ bits) zero zero j v h = ground arith
bit-fill_from (b ∷ bits) zero (suc n) zero v h = ground arith
bit-fill_from (b ∷ bits) zero (suc n) (suc j) v h =
    ground (arith, bit-fill_from bits zero n j v (omega arith))
bit-fill_from (b ∷ bits) (suc i) n zero v h = ground arith
bit-fill_from (b ∷ bits) (suc i) n (suc j) v h =
    ground (arith, bit-fill_from bits i n j v (omega arith))

pub all_from_sound :
    (bits : Bits) (i n j : ℕ) → all_from bits i n ≡ true → i ≤ j → j < i + n → bit bits j ≡ true
unfolding all_from
all_from_sound bits i zero j h p q = absurd (omega arith)
all_from_sound bits i (suc n) j h p q = elim (dec_eq i j) [
  | inl e ↦ ground arith
  | inr ne ↦ all_from_sound bits (suc i) n j (ground arith) (omega arith) (omega arith)
]
  where
    dec_eq : (a b : ℕ) → (a ≡ b) ⊎ (¬ (a ≡ b))
    dec_eq a b = ground arith

pub all_from_complete :
    (bits : Bits) (i n : ℕ)
    → ((j : ℕ) → i ≤ j → j < i + n → bit bits j ≡ true)
    → all_from bits i n ≡ true
unfolding all_from
all_from_complete bits i zero h = refl
all_from_complete bits i (suc n) h = ground (
  arith,
  h i (omega arith) (omega arith),
  all_from_complete bits (suc i) n (λ j p q. h j (omega arith) (omega arith)),
)

pub index-eq-bit : (bits : Bits) (i : ℕ) → i < length bits → index bits i ≡ some (bit bits i)
index-eq-bit bits i h = get_elem?-eq-get_or bits i false h

-- `bits.iter_ones()`, where bit 0 has index `i`
abbrev ones_from : ℕ → Bits → List ℕ
ones_from i [] = []
ones_from i (b ∷ bits) = let rest = ones_from (suc i) bits in if b then i ∷ rest else rest

abbrev pub ones : Bits → List ℕ
ones = ones_from 0

pub set_bit_lem :
    (bits : Bits) (i : ℕ) (v : Bool) → i < length bits → set_bit bits i v ≡ some (set bits i v)
unfolding set_bit
set_bit_lem bits i v h = ground arith

pub bit-set :
    (bits : Bits) (i j : ℕ) (v : Bool)
    → i < length bits
    → bit (set bits i v) j ≡ (if j == i then v else bit bits j)
bit-set [] i j v h = absurd (omega arith)
bit-set (b ∷ bits) zero zero v h = refl
bit-set (b ∷ bits) zero (suc j) v h = ground arith
bit-set (b ∷ bits) (suc i) zero v h = ground arith
bit-set (b ∷ bits) (suc i) (suc j) v h = ground (arith, bit-set bits i j v (omega arith))

pub fill_range_lem :
    (bits : Bits) (r : Range) (v : Bool)
    → r.start ≤ r.end
    → r.end ≤ length bits
    → fill_range bits r v ≡ some (fill_from bits r.start (r.end - r.start) v)
unfolding fill_range
fill_range_lem bits r v h u = ground arith

pub all_range_lem :
    (bits : Bits) (r : Range)
    → r.start ≤ r.end
    → r.end ≤ length bits
    → all_range bits r ≡ some (all_from bits r.start (r.end - r.start))
unfolding all_range
all_range_lem bits r h u = ground arith

abbrev pub within : Range → ℕ → Bool
within r j = leb r.start j && ltb j r.end

abbrev pub contains : List ℕ → ℕ → Bool
contains [] j = false
contains (x ∷ xs) j = j == x || contains xs j

contains-ones_from :
    (i : ℕ) (bits : Bits) (j : ℕ) → contains (ones_from i bits) j ≡ (leb i j && bit bits (j - i))
contains-ones_from i [] j = ground arith
contains-ones_from i (b ∷ bits) j = elim (dec_lt i j) [
  | yes lt ↦
      let e : j - i ≡ suc (j - suc i) = omega arith in
      rw e (ground (arith, contains-ones_from (suc i) bits j))
  | no ge ↦
      ground (arith, contains-ones_from (suc i) bits j, ap (bit (b ∷ bits)) {x = j - i} {y = 0})
]

pub contains-ones : (bits : Bits) (j : ℕ) → contains (ones bits) j ≡ bit bits j
contains-ones bits j =
    let e : j - 0 ≡ j = omega arith in ground (arith, contains-ones_from 0 bits j, ap (bit bits) e)

ones_from_bounded : (i : ℕ) (bits : Bits) → All (λ j. j < i + length bits) (ones_from i bits)
ones_from_bounded i [] = tt
ones_from_bounded i (true ∷ bits) =
    (omega arith, All-mono _ (λ j h. omega arith) (ones_from_bounded (suc i) bits))
ones_from_bounded i (false ∷ bits) =
    All-mono _ (λ j h. omega arith) (ones_from_bounded (suc i) bits)

pub ones_bounded : (bits : Bits) → All (λ j. j < length bits) (ones bits)
ones_bounded bits = All-mono (ones bits) (λ j h. omega arith) (ones_from_bounded 0 bits)
