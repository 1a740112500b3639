-- ===== src/ChunkTracker/Files/Requeue.antt =====
-- src/chunk_tracker.rs: the two loops of `update_only_files`.
use librtbit.Base.{
  ℕ, ◌^◌, ◌<◌, ◌≡◌, refl, ap, ◌∙◌, Bool, true, not, ◌&&◌, ◌||◌, Option, none, some, List, [], ◌∷◌,
  ◌>>=◌, arith, length, if◌then◌else◌, ◌==◌, ltb, inl, inr, set, Returns, >>=-some, dec_lt,
  Bool-cases, All, length-set,
}
use librtbit.Base.Bits.{Bits, bit, index-eq-bit, set_bit_lem, bit-set, contains}
use librtbit.Lengths.{Lengths, Laws}
use librtbit.ChunkTracker.{ChunkTracker, mark_piece_broken_if_not_have}
use librtbit.ChunkTracker.Files.{newly_selected, requeue}
use librtbit.ChunkTracker.Pieces.{IsSized, mark_piece_broken_if_not_have-Requeued}

-- `b'` has the bits of `b` and those of the given pieces that were not selected and are not had.
abbrev Marks : Bits → Bits → Bits → List ℕ → Bits → Type 0
Marks prev have b idxs b' =
    (length b' ≡ length prev)
    × ((j : ℕ) → bit b' j ≡ ((contains idxs j && not (bit prev j) && not (bit have j)) || bit b j))

Marks-cons :
    (prev have b b₁ : Bits) (x : ℕ) (xs : List ℕ) (m : Option Bits)
    → ((j : ℕ) → bit b₁ j ≡ ((j == x && not (bit prev j) && not (bit have j)) || bit b j))
    → Returns m (Marks prev have b₁ xs)
    → Returns m (Marks prev have b (x ∷ xs))
Marks-cons prev have b b₁ x xs m one (b', e, (l, k)) = (
  b',
  e,
  (
    l,
    λ j.
        k j
        ∙ after (contains xs j) (j == x) (not (bit prev j)) (not (bit have j)) (bit b j) (one j),
  ),
)
  where
    after :
        (c x p h o : Bool) {o₁ : Bool}
        → o₁ ≡ ((x && p && h) || o)
        → ((c && p && h) || o₁) ≡ (((x || c) && p && h) || o)
    after c x p h o e = ground arith

pub newly_selected-Marks :
    (prev have b : Bits) (idxs : List ℕ)
    → All (λ j. j < length prev) idxs
    → length have ≡ length prev
    → length b ≡ length prev
    → Returns (newly_selected prev have b idxs) (Marks prev have b idxs)
unfolding newly_selected
newly_selected-Marks prev have b [] a hl bl = (b, refl, (bl, λ j. refl))
newly_selected-Marks prev have b (x ∷ xs) a hl bl =
    let skip = newly_selected-Marks prev have b xs a.1 hl bl in
    let mark = newly_selected-Marks prev have (set b x true) xs a.1 hl (length-set b x true ∙ bl) in
    rw (index-eq-bit prev x a.0, ◌>>=◌)
      (elim (Bool-cases (bit prev x)) [
        | inl was ↦ rw was (
            Marks-cons prev have b b x xs _ (λ j. ground (arith, ap (bit prev) {x = j} {y = x}))
              skip)
        | inr new ↦
            rw (new, index-eq-bit have x (omega arith), ◌>>=◌)
              (elim (Bool-cases (bit have x)) [
                | inl had ↦ rw had (
                    Marks-cons prev have b b x xs _
                      (λ j. ground (arith, ap (bit have) {x = j} {y = x})) skip)
                | inr not_had ↦
                    rw (not_had, set_bit_lem b x true (omega arith), ◌>>=◌)
                      (Marks-cons prev have b (set b x true) x xs _
                        (λ j. ground (
                          arith,
                          bit-set b x j true (omega arith),
                          ap (bit have) {x = j} {y = x},
                          ap (bit prev) {x = j} {y = x},
                        ))
                        mark)
              ])
      ])

-- What the second loop leaves: the given pieces, if valid and not had, are queued.
pub record RequeuedAll (idxs : List ℕ) (ct ct' : ChunkTracker) : Type 0 where
  pub sized : IsSized ct'
  pub hns : ct'.hns ≡ ct.hns
  pub files : ct'.per_file_bytes ≡ ct.per_file_bytes
  pub lengths : ct'.lengths ≡ ct.lengths
  pub have : ct'.have ≡ ct.have
  pub selected : ct'.selected ≡ ct.selected
  pub queue :
      (j : ℕ)
      → bit ct'.queue_pieces j ≡ (
          (contains idxs j && ltb j ct.lengths.total_pieces && not (bit ct.have j))
          || bit ct.queue_pieces j)

-- One round of the second loop.
requeue_one : ChunkTracker → ℕ → Option ChunkTracker
requeue_one ct idx =
    if ltb idx (2 ^ 32)
    then elim (ct.lengths.validate_piece_index idx) [
      | none ↦ some ct
      | some p ↦ mark_piece_broken_if_not_have ct p
    ]
    else some ct

requeue_one-valid :
    (ct : ChunkTracker) (x : ℕ)
    → Laws ct.lengths
    → x < ct.lengths.total_pieces
    → requeue_one ct x ≡ mark_piece_broken_if_not_have ct x
unfolding requeue_one
requeue_one-valid ct x laws h = ground (arith, laws.validates x, laws.total_pieces_u32)

requeue_one-invalid :
    (ct : ChunkTracker) (x : ℕ)
    → Laws ct.lengths
    → ¬ (x < ct.lengths.total_pieces)
    → requeue_one ct x ≡ some ct
unfolding requeue_one
requeue_one-invalid ct x laws h = ground (arith, laws.validates x)

requeue_one-RequeuedAll :
    (ct : ChunkTracker) (x : ℕ) → IsSized ct → Returns (requeue_one ct x) (RequeuedAll (x ∷ []) ct)
requeue_one-RequeuedAll ct x v = elim (dec_lt x ct.lengths.total_pieces) [
  | yes valid ↦
      let (ct', e, q) = mark_piece_broken_if_not_have-Requeued x v valid in
      (
        ct',
        requeue_one-valid ct x v.laws valid ∙ e,
        record {
          sized = q.sized;
          hns = q.hns;
          files = q.files;
          lengths = q.lengths;
          have = q.have;
          selected = q.selected;
          queue = λ j. ground (arith, q.queue j, ap (bit ct.have) {x = j} {y = x});
        },
      )
  | no invalid ↦ (
    ct,
    requeue_one-invalid ct x v.laws invalid,
    record {
      sized = v;
      hns = refl;
      files = refl;
      lengths = refl;
      have = refl;
      selected = refl;
      queue = λ j. ground arith;
    },
  )
]

pub requeue-RequeuedAll :
    (ct : ChunkTracker) (idxs : List ℕ)
    → IsSized ct
    → Returns (requeue ct idxs) (RequeuedAll idxs ct)
unfolding requeue requeue_one
requeue-RequeuedAll ct [] v = (
  ct,
  refl,
  record {
    sized = v;
    hns = refl;
    files = refl;
    lengths = refl;
    have = refl;
    selected = refl;
    queue = λ j. refl;
  },
)
requeue-RequeuedAll ct (x ∷ xs) v =
    let (ct₁, e₁, q₁) = requeue_one-RequeuedAll ct x v in
    let (ct₂, e₂, q₂) = requeue-RequeuedAll ct₁ xs q₁.sized in
    (
      ct₂,
      >>=-some (requeue_one ct x) (λ c. requeue c xs) e₁ ∙ e₂,
      record {
        sized = q₂.sized;
        hns = q₂.hns ∙ q₁.hns;
        files = q₂.files ∙ q₁.files;
        lengths = q₂.lengths ∙ q₁.lengths;
        have = q₂.have ∙ q₁.have;
        selected = q₂.selected ∙ q₁.selected;
        queue = λ j. ground (
          arith,
          q₁.queue j,
          q₂.queue j,
          ap (λ b. bit b j) q₁.have,
          ap (λ (l : Lengths). l.total_pieces) q₁.lengths,
        );
      },
    )
