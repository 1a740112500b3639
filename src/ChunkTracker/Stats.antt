-- ===== src/ChunkTracker/Stats.antt =====
-- src/chunk_tracker.rs: `calc_hns` against the sums that it stands for.
use librtbit.Base.{
  ℕ, zero, suc, ◌+◌, ◌^◌, ◌≤◌, ◌<◌, ◌≡◌, ◌≢◌, refl, sym, ap, ◌∙◌, Bool, true, false, not, ◌&&◌,
  some, List, [], ◌∷◌, ◌>>=◌, arith, length, inl, inr, ◌⊎◌, add64, set, ==_refl, ==_ne, Bool-cases,
  ℕ_discrete,
}
use librtbit.Base.Bits.{Bits, bit, index-eq-bit, bit-set}
use librtbit.Lengths.{Lengths, Laws, PieceInfo, piece_infos_from, sum_lengths}
use librtbit.ChunkTracker.{
  ChunkTracker, HaveNeededSelected, no_bytes, if_set, calc_hns_from, calc_hns,
}

-- The bytes of the pieces that pass a test.
abbrev sum_if : (ℕ → Bool) → List PieceInfo → ℕ
sum_if p [] = 0
sum_if p (i ∷ is) = if_set (p i.piece_index) i.len + sum_if p is

-- The three figures as plain sums.
abbrev pub bytes_of : Lengths → Bits → Bits → HaveNeededSelected
bytes_of l have selected = record {
  have_bytes = sum_if (bit have) l.iter_piece_infos;
  needed_bytes = sum_if (λ i. bit selected i && not (bit have i)) l.iter_piece_infos;
  selected_bytes = sum_if (bit selected) l.iter_piece_infos;
}

sum_if-le : (p : ℕ → Bool) (is : List PieceInfo) → sum_if p is ≤ sum_lengths is
sum_if-le p [] = omega arith
sum_if-le p (i ∷ is) = ground (arith, sum_if-le p is)

sum_if-same :
    (p q : ℕ → Bool) (f : ℕ → ℕ) (i n : ℕ)
    → ((j : ℕ) → i ≤ j → j < i + n → p j ≡ q j)
    → sum_if p (piece_infos_from f i n) ≡ sum_if q (piece_infos_from f i n)
sum_if-same p q f i zero h = refl
sum_if-same p q f i (suc n) h = ground (
  arith,
  h i (omega arith) (omega arith),
  sum_if-same p q f (suc i) n (λ j a b. h j (omega arith) (omega arith)),
)

-- Two tests that differ at one piece, in sums over a range of pieces that holds it.
sum_if-differ :
    (p q : ℕ → Bool) (f : ℕ → ℕ) (t i n : ℕ)
    → ((j : ℕ) → j ≢ t → p j ≡ q j)
    → p t ≡ false
    → q t ≡ true
    → i ≤ t
    → t < i + n
    → sum_if q (piece_infos_from f i n) ≡ sum_if p (piece_infos_from f i n) + f t
sum_if-differ p q f t i zero h pt qt a b = absurd (omega arith)
sum_if-differ p q f t i (suc n) h pt qt a b = elim (at_or_past i t a) [
  | inl e ↦
      ground
        (arith, ap p e, ap q e, ap f e, sum_if-same p q f (suc i) n (λ j c d. h j (omega arith)))
  | inr lt ↦
      ground (arith, h i (omega arith), sum_if-differ p q f t (suc i) n h pt qt lt (omega arith))
]
  where
    at_or_past : (i t : ℕ) → i ≤ t → (i ≡ t) ⊎ (suc i ≤ t)
    at_or_past i t a = ground arith

-- One step of an accumulator that stays below `2 ^ 64`.
add64-if_set :
    (h x s : ℕ) (b : Bool)
    → h + (x + s) < 2 ^ 64
    → (add64 h (if_set b x) ≡ h + if_set b x) × (add64 h (if_set b x) + s < 2 ^ 64)
add64-if_set h x s true u = (omega arith, omega arith)
add64-if_set h x s false u = (omega arith, omega arith)

pub HaveNeededSelected-eq :
    {a b : HaveNeededSelected}
    → a.have_bytes ≡ b.have_bytes
    → a.needed_bytes ≡ b.needed_bytes
    → a.selected_bytes ≡ b.selected_bytes
    → a ≡ b
HaveNeededSelected-eq p q r = ground arith

calc_hns_from-exact :
    (have selected : Bits) (f : ℕ → ℕ) (n i : ℕ) (hns : HaveNeededSelected)
    → i + n ≤ length have
    → i + n ≤ length selected
    → hns.have_bytes + sum_lengths (piece_infos_from f i n) < 2 ^ 64
    → hns.needed_bytes + sum_lengths (piece_infos_from f i n) < 2 ^ 64
    → hns.selected_bytes + sum_lengths (piece_infos_from f i n) < 2 ^ 64
    → calc_hns_from have selected (piece_infos_from f i n) hns
      ≡ some (record {
        have_bytes = hns.have_bytes + sum_if (bit have) (piece_infos_from f i n);
        needed_bytes =
            hns.needed_bytes
            + sum_if (λ i. bit selected i && not (bit have i)) (piece_infos_from f i n);
        selected_bytes = hns.selected_bytes + sum_if (bit selected) (piece_infos_from f i n);
      })
unfolding calc_hns_from
calc_hns_from-exact have selected f zero i hns a b u v w = ground arith
calc_hns_from-exact have selected f (suc n) i hns a b u v w =
    let hs =
      add64-if_set hns.have_bytes (f i) (sum_lengths (piece_infos_from f (suc i) n)) (bit have i)
        u in
    let ns =
      add64-if_set hns.needed_bytes (f i) (sum_lengths (piece_infos_from f (suc i) n))
        (bit selected i && not (bit have i)) v in
    let ss =
      add64-if_set hns.selected_bytes (f i) (sum_lengths (piece_infos_from f (suc i) n))
        (bit selected i) w in
    rw (index-eq-bit have i (omega arith), index-eq-bit selected i (omega arith), ◌>>=◌)
      (calc_hns_from-exact have selected f n (suc i) _ (omega arith) (omega arith) hs.1 ns.1 ss.1
        ∙ ap some (
            HaveNeededSelected-eq (omega (arith, hs.0)) (omega (arith, ns.0))
              (omega (arith, ss.0))))

-- With both bit fields as long as there are pieces, `calc_hns` returns, without overflow, the sums
-- of the lengths of the pieces that are had, of those that are selected and not had, and of those
-- that are selected.
pub calc_hns-exact :
    (ct : ChunkTracker)
    → Laws ct.lengths
    → ct.lengths.total_pieces ≤ length ct.have
    → ct.lengths.total_pieces ≤ length ct.selected
    → calc_hns ct ≡ some (bytes_of ct.lengths ct.have ct.selected)
unfolding calc_hns
calc_hns-exact ct laws h s =
    let bound : sum_lengths ct.lengths.iter_piece_infos < 2 ^ 64 =
      omega (arith, laws.adds_up, laws.total_length_u64) in
    let bound' : sum_lengths (piece_infos_from ct.lengths.piece_length 0 ct.lengths.total_pieces)
        < 2 ^ 64 =
      rw laws.enumerates at bound in
    rw laws.enumerates (
      calc_hns_from-exact ct.have ct.selected ct.lengths.piece_length ct.lengths.total_pieces 0
        no_bytes (omega arith) (omega arith) (omega arith) (omega arith) (omega arith)
      ∙ ground arith)

-- What one piece that comes to be had adds to the bytes had, and takes from those needed.
module _ {l : Lengths} (laws : Laws l) (have selected : Bits) (t : ℕ) (h : t < l.total_pieces)
    (fits : t < length have) (not_had : bit have t ≡ false) where
  other : (j : ℕ) → j ≢ t → bit (set have t true) j ≡ bit have j
  other j ne = rw (bit-set have t j true fits, ==_ne j t ne)

  self : bit (set have t true) t ≡ true
  self = rw (bit-set have t t true fits, ==_refl t)

  pub have_bytes-set :
      sum_if (bit (set have t true)) l.iter_piece_infos
      ≡ sum_if (bit have) l.iter_piece_infos + l.piece_length t
  have_bytes-set = rw laws.enumerates (
      sum_if-differ (bit have) (bit (set have t true)) l.piece_length t 0 l.total_pieces
        (λ j ne. sym (other j ne)) not_had self (omega arith) (omega arith))

  pub needed_bytes-set :
      sum_if (λ j. bit selected j && not (bit have j)) l.iter_piece_infos
      ≡ sum_if (λ j. bit selected j && not (bit (set have t true) j)) l.iter_piece_infos
        + if_set (bit selected t) (l.piece_length t)
  needed_bytes-set = rw laws.enumerates (elim (Bool-cases (bit selected t)) [
    | inl chosen ↦ rw chosen (
        sum_if-differ (λ j. bit selected j && not (bit (set have t true) j))
          (λ j. bit selected j && not (bit have j)) l.piece_length t 0 l.total_pieces
          (λ j ne. ground (arith, other j ne)) (ground (arith, self)) (ground arith) (omega arith)
          (omega arith))
    | inr not_chosen ↦ rw not_chosen (
        sum_if-same (λ j. bit selected j && not (bit have j))
          (λ j. bit selected j && not (bit (set have t true) j)) l.piece_length 0 l.total_pieces
          (λ j a b. unchosen not_chosen j)
        ∙ omega arith)
  ])
    where
      unchosen :
          bit selected t ≡ false
          → (j : ℕ)
          → (bit selected j && not (bit have j)) ≡ (bit selected j && not (bit (set have t true) j))
      unchosen n j = elim (ℕ_discrete j t) [
        | yes e ↦ ground (arith, ap (bit selected) e)
        | no ne ↦ ground (arith, other j ne)
      ]

-- Every sum of piece lengths is a `u64`.
pub sum_if-u64 : {l : Lengths} (laws : Laws l) (p : ℕ → Bool) → sum_if p l.iter_piece_infos < 2 ^ 64
sum_if-u64 {l} laws p =
    omega (arith, sum_if-le p l.iter_piece_infos, laws.adds_up, laws.total_length_u64)
