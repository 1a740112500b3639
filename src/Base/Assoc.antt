-- ===== src/Base/Assoc.antt =====
-- Hash maps with numbers for keys, as association lists in the order in which the map would be
-- iterated. Nothing proved depends on that order.
use librtbit.Base.{
  ℕ, ◌≡◌, refl, ap, Bool, true, false, not, ◌&&◌, ◌||◌, Option, none, some, List, [], ◌∷◌, map,
  arith, ◌==◌, if◌then◌else◌, inl, inr, Bool-cases,
}

module _ {ℓ} {V : Type ℓ} where
  unfoldable pub lookup : ℕ → List (ℕ × V) → Option V
  lookup key [] = none
  lookup key ((other, w) ∷ rest) = if other == key then some w else lookup key rest

  -- `HashMap::insert`: the value of a key that is there is replaced.
  unfoldable pub insert : ℕ → V → List (ℕ × V) → List (ℕ × V)
  insert key v [] = (key, v) ∷ []
  insert key v ((other, w) ∷ rest) =
      if other == key then (key, v) ∷ rest else (other, w) ∷ insert key v rest

  unfoldable pub remove : ℕ → List (ℕ × V) → List (ℕ × V)
  remove k [] = []
  remove k ((j, w) ∷ m) = if j == k then m else (j, w) ∷ remove k m

  abbrev pub contains_key : ℕ → List (ℕ × V) → Bool
  contains_key k [] = false
  contains_key k ((j, v) ∷ m) = j == k || contains_key k m

  -- No key occurs twice.
  abbrev pub IsMap : List (ℕ × V) → Type 0
  IsMap [] = Unit
  IsMap ((j, v) ∷ m) = (contains_key j m ≡ false) × IsMap m

  abbrev pub keys : List (ℕ × V) → List ℕ
  keys = map (λ e. e.0)

module _ {ℓ} {V : Type ℓ} where
  pub contains_key-lookup :
      (k : ℕ) (m : List (ℕ × V)) {v : V} → lookup k m ≡ some v → contains_key k m ≡ true
  unfolding lookup
  contains_key-lookup k [] e = cc
  contains_key-lookup k ((j, w) ∷ m) {v} e = ground (arith, contains_key-lookup k m {v = v})

  pub lookup-absent : (k : ℕ) (m : List (ℕ × V)) → contains_key k m ≡ false → lookup k m ≡ none
  unfolding lookup
  lookup-absent k [] e = refl
  lookup-absent k ((j, w) ∷ m) e = ground (arith, lookup-absent k m)

  pub lookup-insert :
      (key at : ℕ) (new : V) (m : List (ℕ × V))
      → lookup at (insert key new m) ≡ (if key == at then some new else lookup at m)
  unfolding lookup insert
  lookup-insert key at new [] = refl
  lookup-insert key at new ((other, old) ∷ rest) = ground (arith, lookup-insert key at new rest)

  pub contains_key-insert :
      (k j : ℕ) (v : V) (m : List (ℕ × V))
      → contains_key j (insert k v m) ≡ (k == j || contains_key j m)
  unfolding insert
  contains_key-insert k j v [] = refl
  contains_key-insert k j v ((i, w) ∷ m) = ground (arith, contains_key-insert k j v m)

  pub insert-IsMap : (k : ℕ) (v : V) (m : List (ℕ × V)) → IsMap m → IsMap (insert k v m)
  unfolding insert
  insert-IsMap k v [] u = (refl, tt)
  insert-IsMap k v ((i, w) ∷ m) u = ground (
    arith,
    insert-IsMap k v m u.1,
    contains_key-insert k i v m,
    ap (λ n. contains_key n m) {x = i} {y = k},
  )

  pub contains_key-remove :
      (k j : ℕ) (m : List (ℕ × V))
      → IsMap m
      → contains_key j (remove k m) ≡ (not (k == j) && contains_key j m)
  unfolding remove
  contains_key-remove k j [] u = ground arith
  contains_key-remove k j ((i, w) ∷ m) u =
      ground (arith, contains_key-remove k j m u.1, ap (λ n. contains_key n m) {x = i} {y = j})

  pub lookup-remove :
      (k j : ℕ) (m : List (ℕ × V))
      → IsMap m
      → lookup j (remove k m) ≡ (if k == j then none else lookup j m)
  unfolding lookup remove
  lookup-remove k j [] u = ground arith
  lookup-remove k j ((i, w) ∷ m) u =
      ground (
        arith,
        lookup-remove k j m u.1,
        lookup-absent i m u.0,
        ap (λ n. lookup n m) {x = i} {y = j},
      )

  pub remove-IsMap : (k : ℕ) (m : List (ℕ × V)) → IsMap m → IsMap (remove k m)
  unfolding remove
  remove-IsMap k [] u = tt
  remove-IsMap k ((i, w) ∷ m) u =
      ground (arith, remove-IsMap k m u.1, contains_key-remove k i m u.1)

  lookup-contains_key :
      (k : ℕ) (m : List (ℕ × V)) → contains_key k m ≡ true → (v : V) × (lookup k m ≡ some v)
  unfolding lookup
  lookup-contains_key k [] e = absurd (cc)
  lookup-contains_key k ((j, w) ∷ m) e = elim (Bool-cases (j == k)) [
    | inl here ↦ (w, ground arith)
    | inr there ↦
        let (v, found) = lookup-contains_key k m (ground arith) in (v, ground (arith, found))
  ]
