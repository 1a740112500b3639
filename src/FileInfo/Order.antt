-- ===== src/FileInfo/Order.antt =====
-- file_info.rs: the order of `iter_piece_priorities`.
use mathlib.Core.List.{Perm, perm_append_comm}
use mathlib.Core.List.Perm
use librtbit.Base.{
  ℕ, zero, suc, ◌+◌, ◌-◌, ◌≤◌, ◌<◌, ◌^◌, ◌≡◌, refl, ap, ◌∙◌, List, [], ◌∷◌, ◌++◌, arith, take, drop,
  range_from, add64, sub64, leb, ltb, ◌&&◌,
}
use librtbit.Base.Bits.{Range, contains, within}
use librtbit.FileInfo.{elements, range_len, iter_piece_priorities}

take-range_from : (k n i : ℕ) → k ≤ n → take k (range_from i n) ≡ range_from i k
take-range_from zero n i h = refl
take-range_from (suc k) zero i h = absurd (omega arith)
take-range_from (suc k) (suc n) i h = ap (◌∷◌ i) (take-range_from k n (suc i) (omega arith))

range_from-suc : (i n : ℕ) → range_from i (suc n) ≡ range_from i n ++ ((i + n) ∷ [])
range_from-suc i zero = ap (λ k. k ∷ []) (omega arith)
range_from-suc i (suc n) =
    ap (◌∷◌ i) (range_from-suc (suc i) n ∙ ap (λ k. range_from (suc i) n ++ (k ∷ [])) (omega arith))

-- The list that the iterator chains, over the range's start and length.
abbrev chained : ℕ → ℕ → List ℕ
chained s n =
    take n ((s ∷ []) ++ ((add64 s (sub64 n 1) ∷ []) ++ take (sub64 n 2) (drop 1 (range_from s n))))

chained-two :
    (s k : ℕ)
    → s + suc (suc k) < 2 ^ 64
    → chained s (suc (suc k)) ≡ s ∷ (s + suc k) ∷ range_from (suc s) k
chained-two s k h =
    ap (◌∷◌ s) (rw (last, mid) (ap (◌∷◌ (s + suc k)) (take-range_from k k (suc s) (omega arith))))
  where
    last : add64 s (sub64 (suc (suc k)) 1) ≡ s + suc k
    last = omega arith

    mid : take (sub64 (suc (suc k)) 2) (range_from (suc s) (suc k)) ≡ range_from (suc s) k
    mid =
        let e : sub64 (suc (suc k)) 2 ≡ k = omega arith in
        rw e (take-range_from k (suc k) (suc s) (omega arith))

chained-perm : (s n : ℕ) → s + n < 2 ^ 64 → Perm (chained s n) (range_from s n)
chained-perm s zero h = Perm.nil
chained-perm s (suc zero) h = Perm.refl _
chained-perm s (suc (suc k)) h =
    rw (chained-two s k h, range_from-suc (suc s) k)
      (Perm.cons s (
        let e : s + suc k ≡ suc s + k = omega arith in
        rw e (perm_append_comm ((suc s + k) ∷ []) (range_from (suc s) k))))

-- For a range that does not end before it starts and ends below 2^64, the priorities are the
-- range's pieces in another order: every piece comes exactly once.
pub iter_piece_priorities-perm :
    (r : Range) → r.start ≤ r.end → r.end < 2 ^ 64 → Perm (iter_piece_priorities r) (elements r)
unfolding iter_piece_priorities
iter_piece_priorities-perm r h u = chained-perm r.start (range_len r) (omega arith)

-- Of a range of two pieces or more that ends below 2^64, the first piece comes first, the last
-- second, and the others follow in order.
iter_piece_priorities_order :
    (s k : ℕ)
    → s + suc (suc k) < 2 ^ 64
    → iter_piece_priorities (record { start = s; end = s + suc (suc k) })
      ≡ s ∷ (s + suc k) ∷ range_from (suc s) k
unfolding iter_piece_priorities
iter_piece_priorities_order s k h =
    let e : s + suc (suc k) - s ≡ suc (suc k) = omega arith in rw e (chained-two s k h)

contains-range_from : (i n j : ℕ) → contains (range_from i n) j ≡ (leb i j && ltb j (i + n))
contains-range_from i zero j = ground arith
contains-range_from i (suc n) j = ground (arith, contains-range_from (suc i) n j)

contains-chained :
    (s n j : ℕ) → s + n < 2 ^ 64 → contains (chained s n) j ≡ (leb s j && ltb j (s + n))
contains-chained s zero j h = ground arith
contains-chained s (suc zero) j h = ground arith
contains-chained s (suc (suc k)) j h =
    ap (λ xs. contains xs j) (chained-two s k h) ∙ ground (arith, contains-range_from (suc s) k j)

-- The numbers that come are those of the range.
pub contains-iter_piece_priorities :
    (r : Range) (j : ℕ)
    → r.start ≤ r.end
    → r.end < 2 ^ 64
    → contains (iter_piece_priorities r) j ≡ within r j
unfolding iter_piece_priorities
contains-iter_piece_priorities r j h u =
    ground (arith, contains-chained r.start (range_len r) j (omega arith))
