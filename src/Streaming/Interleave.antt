-- ===== src/Streaming/Interleave.antt =====
-- `iter_next_pieces` of src/torrent_state/streaming.rs takes the streams in turn.
use librtbit.Base.{
  ℕ, zero, suc, ◌+◌, ◌≤◌, ◌≡◌, refl, ap, ◌∙◌, sym, Option, none, some, List, [], ◌∷◌, ◌++◌, arith,
  length, get_elem?, max,
}
use mathlib.Core.List.{append-nil, append_assoc}
use librtbit.Streaming.{yielded, total}

abbrev prepend : Option ℕ → List ℕ → List ℕ
prepend none rest = rest
prepend (some p) rest = p ∷ rest

-- The pieces number `k` of the queues that are so long, in the queues' order.
abbrev column : ℕ → List (List ℕ) → List ℕ
column k [] = []
column k (it ∷ its) = prepend (get_elem? it k) (column k its)

-- `n` columns, from number `k` on.
abbrev pub columns : ℕ → ℕ → List (List ℕ) → List ℕ
columns k zero all = []
columns k (suc n) all = column k all ++ columns (suc k) n all

abbrev pub longest : List (List ℕ) → ℕ
longest [] = 0
longest (it ∷ its) = max (length it) (longest its)

-- The queues after a round: those with no piece left are gone.
abbrev rests : List (List ℕ) → List (List ℕ)
rests [] = []
rests ([] ∷ its) = rests its
rests ((p ∷ it) ∷ its) = it ∷ rests its

column-rests : (k : ℕ) (all : List (List ℕ)) → column k (rests all) ≡ column (suc k) all
column-rests k [] = refl
column-rests k ([] ∷ its) = column-rests k its
column-rests k ((p ∷ it) ∷ its) = ap (prepend (get_elem? it k)) (column-rests k its)

columns-rests : (n k : ℕ) (all : List (List ℕ)) → columns k n (rests all) ≡ columns (suc k) n all
columns-rests zero k all = refl
columns-rests (suc n) k all = rw (column-rests k all, columns-rests n (suc k) all) refl

yielded_skip : (m : ℕ) (its : List (List ℕ)) → yielded m ([] ∷ its) ≡ yielded m its
unfolding yielded
yielded_skip zero its = refl
yielded_skip (suc m) its = refl

-- The rest of a round: the queues of `front` are still to come, those of `back` have been.
round :
    (n m : ℕ) (front back : List (List ℕ))
    → m ≡ length (column 0 front) + n
    → yielded m (front ++ back) ≡ column 0 front ++ yielded n (back ++ rests front)
unfolding yielded
round n m [] back e = let e' : m ≡ n = omega arith in rw (e', append-nil) refl
round n m ([] ∷ front) back e = yielded_skip m (front ++ back) ∙ round n m front back e
round n zero ((p ∷ it) ∷ front) back e = absurd (omega arith)
round n (suc m) ((p ∷ it) ∷ front) back e =
    ap (λ ps. p ∷ ps)
      (rw (append_assoc front back (it ∷ [])) (
        round n m front (back ++ (it ∷ [])) (omega arith)
        ∙ rw (append_assoc back (it ∷ []) (rests front)) refl))

total-rests : (all : List (List ℕ)) → total all ≡ length (column 0 all) + total (rests all)
total-rests [] = omega arith
total-rests ([] ∷ its) = omega (arith, total-rests its)
total-rests ((p ∷ it) ∷ its) = omega (arith, total-rests its)

longest-rests : (n : ℕ) (all : List (List ℕ)) → longest all ≤ suc n → longest (rests all) ≤ n
longest-rests n [] h = omega arith
longest-rests n ([] ∷ its) h = longest-rests n its (omega arith)
longest-rests n ((p ∷ it) ∷ its) h = omega (arith, longest-rests n its (omega arith))

yielded_none : (all : List (List ℕ)) → longest all ≤ 0 → (m : ℕ) → yielded m all ≡ []
unfolding yielded
yielded_none [] h zero = refl
yielded_none [] h (suc m) = refl
yielded_none ([] ∷ its) h m = yielded_skip m its ∙ yielded_none its (omega arith) m
yielded_none ((p ∷ it) ∷ its) h m = absurd (omega arith)

pub yielded-columns :
    (n : ℕ) (all : List (List ℕ)) → longest all ≤ n → yielded (total all) all ≡ columns 0 n all
yielded-columns zero all h = yielded_none all h (total all)
yielded-columns (suc n) all h =
    ap (yielded (total all)) (sym (append-nil all))
    ∙ round (total (rests all)) (total all) all [] (total-rests all)
    ∙ ap (λ ps. column 0 all ++ ps)
        (yielded-columns n (rests all) (longest-rests n all h) ∙ columns-rests n 0 all)
