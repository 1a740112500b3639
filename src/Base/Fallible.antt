-- ===== src/Base/Fallible.antt =====
-- Computations that may stop: `none` is a Rust panic, an `Err` whose text is not modelled, or `None`.
use mathlib.Core.Path.{◌≡◌, refl, subst}
use mathlib.Core.Option.{Option, none, some}

infixl 5 ◌>>=◌
abbrev pub ◌>>=◌ {ℓ κ} : {A : Type ℓ} {B : Type κ} → Option A → (A → Option B) → Option B
none >>= f = none
some a >>= f = f a

-- The bind of a computation that is known to return.
pub >>=-some {ℓ κ} :
    {A : Type ℓ} {B : Type κ} (m : Option A) (f : A → Option B) {a : A}
    → m ≡ some a
    → (m >>= f) ≡ f a
>>=-some m f e = rw (e, ◌>>=◌)

-- Inversion of a bind that returned.
pub >>=-eq-some {ℓ κ} :
    {A : Type ℓ} {B : Type κ} (m : Option A) (f : A → Option B) {b : B}
    → (m >>= f) ≡ some b
    → (a : A) × (m ≡ some a) × (f a ≡ some b)
>>=-eq-some (some a) f h = (a, refl, h)
>>=-eq-some none f h = cc

-- The computation returns, with a result of which `P` holds.
abbrev pub Returns {ℓ κ} : {A : Type ℓ} → Option A → (A → Type κ) → Type (ℓ ⊔ κ)
Returns {A = A} m P = (a : A) × (m ≡ some a) × P a

>>=-Returns {ℓ κ ι υ} :
    {A : Type ℓ} {B : Type κ} (m : Option A) (f : A → Option B) (P : A → Type ι) (Q : B → Type υ)
    → Returns m P
    → ((a : A) → P a → Returns (f a) Q)
    → Returns (m >>= f) Q
>>=-Returns m f P Q (a, e, p) k = rw (e, ◌>>=◌) (k a p)

-- What holds of every result holds of the one that a run gave.
pub Returns-of {ℓ κ} :
    {A : Type ℓ} {P : A → Type κ} {m : Option A} {a : A} → Returns m P → m ≡ some a → P a
Returns-of {P = P} {a = a} (b, e, x) f = let same : b ≡ a = cc in subst P same x
