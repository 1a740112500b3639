-- ===== src/Tests/Buffer.antt =====
-- The theorems on src/read_buf.rs at one buffer.
use librtbit.Base.{
  ℕ, ◌-◌, ◌<◌, ◌≡◌, refl, [], ◌∷◌, arith, length-replicate, if◌then◌else◌, ltb, get_or, replicate,
  Returns,
}
use librtbit.ReadBuf.{ReadBuf, make_contiguous, receive, is_contiguous}
use librtbit.ReadBuf.Ring.{IsRing, at, make_contiguous-keeps, receive-pushes}

-- Six bytes, of which the last two lie at the front.
abbrev wrapped : ReadBuf
wrapped = record { buf = replicate 32768 7; start = 32764; len = 6 }

wrapped-IsRing : IsRing wrapped
wrapped-IsRing = record {
  sized = length-replicate {A = ℕ} 32768 7;
  start_within = omega arith;
  len_within = omega arith;
}

receive-pushes_example :
    IsRing (receive wrapped (1 ∷ 2 ∷ []))
    × ((receive wrapped (1 ∷ 2 ∷ [])).len ≡ 8)
    × ((i : ℕ)
        → i < 8
        → at (receive wrapped (1 ∷ 2 ∷ [])) i
          ≡ (if ltb i 6 then at wrapped i else get_or (1 ∷ 2 ∷ []) (i - 6) 0))
receive-pushes_example = receive-pushes wrapped (1 ∷ 2 ∷ []) wrapped-IsRing (omega arith)

make_contiguous-keeps_example : Returns (make_contiguous wrapped) (λ rb'.
    IsRing rb' × (rb'.start ≡ 0) × (rb'.len ≡ 6) × ((i : ℕ) → i < 6 → at rb' i ≡ at wrapped i))
unfolding is_contiguous
make_contiguous-keeps_example = make_contiguous-keeps wrapped wrapped-IsRing refl
