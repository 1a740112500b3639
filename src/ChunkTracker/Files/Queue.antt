-- ===== src/ChunkTracker/Files/Queue.antt =====
-- src/chunk_tracker.rs: what `iter_queued_pieces` yields.
use librtbit.Base.{
  ℕ, zero, suc, ◌^◌, ◌≤◌, ◌<◌, ◌≡◌, refl, sym, ap, ◌∙◌, Bool, true, false, not, ◌&&◌, ◌||◌, none,
  some, List, [], ◌∷◌, ◌++◌, ◌>>=◌, arith, length, get_elem?, get_or, get_elem?-eq-get_or,
  if◌then◌else◌, ltb, ◌==◌, inl, inr, Returns, >>=-some, Bool-cases, All, Option-cases,
}
use librtbit.Base.Bits.{bit, index-eq-bit, contains, within}
use librtbit.Lengths.{Laws}
use librtbit.FileInfo.{FileInfo, iter_piece_priorities}
use librtbit.FileInfo.Order.{contains-iter_piece_priorities}
use librtbit.ChunkTracker.{ChunkTracker}
use librtbit.ChunkTracker.Files.{queued_of, wanted_of, iter_queued_pieces}
use librtbit.ChunkTracker.Pieces.{IsSized}

-- Some file of the list is unfinished and has the piece `j`.
abbrev pub is_wanted : ChunkTracker → List FileInfo → List ℕ → ℕ → Bool
is_wanted ct fis [] j = false
is_wanted ct fis (id ∷ ids) j =
    let rest = is_wanted ct fis ids j in
    elim (get_elem? fis id) [
      | none ↦ rest
      | some f ↦ (not (get_or ct.per_file_bytes id 0 == f.len) && within f.piece_range j) || rest
    ]

contains-append :
    (xs ys : List ℕ) (j : ℕ) → contains (xs ++ ys) j ≡ (contains xs j || contains ys j)
contains-append [] ys j = refl
contains-append (x ∷ xs) ys j = ground (arith, contains-append xs ys j)

-- Files whose pieces the bit fields hold.
abbrev pub FitsQueue : ChunkTracker → FileInfo → Type 0
FitsQueue ct f =
    (f.piece_range.start ≤ f.piece_range.end)
    × (f.piece_range.end ≤ length ct.queue_pieces)
    × (f.piece_range.end < 2 ^ 64)

get_elem?-FitsQueue :
    (ct : ChunkTracker) (fis : List FileInfo) (id : ℕ) {f : FileInfo}
    → All (FitsQueue ct) fis
    → get_elem? fis id ≡ some f
    → FitsQueue ct f × (id < length fis)
get_elem?-FitsQueue ct [] id h e = absurd (cc)
get_elem?-FitsQueue ct (g ∷ fis) zero {f} h e = (ground arith, omega arith)
get_elem?-FitsQueue ct (g ∷ fis) (suc id) h e =
    let (p, b) = get_elem?-FitsQueue ct fis id h.1 e in (p, omega arith)

wanted_of-exact :
    (ct : ChunkTracker) (fis : List FileInfo) (ids : List ℕ)
    → All (FitsQueue ct) fis
    → length ct.per_file_bytes ≡ length fis
    → Returns (wanted_of ct fis ids) (λ ps. (j : ℕ) → contains ps j ≡ is_wanted ct fis ids j)
unfolding wanted_of
wanted_of-exact ct fis [] h l = ([], refl, λ j. refl)
wanted_of-exact ct fis (id ∷ ids) h l =
    let (rest, e, k) = wanted_of-exact ct fis ids h l in
    elim (Option-cases (get_elem? fis id)) [
      | inl missing ↦ (rest, rw (e, ◌>>=◌) (rw missing refl), λ j. rw (missing, is_wanted) (k j))
      | inr (f, there) ↦
          let ((ordered, fits, small), b) = get_elem?-FitsQueue ct fis id h there in
          let bytes : get_elem? ct.per_file_bytes id ≡ some (get_or ct.per_file_bytes id 0) =
            get_elem?-eq-get_or ct.per_file_bytes id 0 (omega arith) in
          (
            if get_or ct.per_file_bytes id 0 == f.len
                then rest
                else iter_piece_priorities f.piece_range ++ rest,
            rw (e, ◌>>=◌) (rw there (rw (bytes, ◌>>=◌) refl)),
            λ j.
                rw (there, is_wanted)
                  (ground (
                    arith,
                    k j,
                    contains-append (iter_piece_priorities f.piece_range) rest j,
                    contains-iter_piece_priorities f.piece_range j ordered small,
                  )),
          )
    ]

-- What one number adds to the queued pieces.
keep : ChunkTracker → ℕ → List ℕ → List ℕ
keep ct id rest =
    if bit ct.queue_pieces id && ltb id ct.lengths.total_pieces then id ∷ rest else rest

keep_lem :
    (ct : ChunkTracker) (id : ℕ) (rest : List ℕ)
    → Laws ct.lengths
    → some (
        if bit ct.queue_pieces id && ltb id (2 ^ 32)
        then elim (ct.lengths.validate_piece_index id) [ none ↦ rest | some p ↦ p ∷ rest ]
        else rest)
      ≡ some (keep ct id rest)
unfolding keep
keep_lem ct id rest laws = ground (arith, laws.validates id, laws.total_pieces_u32)

contains-keep :
    (ct : ChunkTracker) (id : ℕ) (rest : List ℕ) (j : ℕ)
    → contains (keep ct id rest) j
      ≡ ((j == id && bit ct.queue_pieces id && ltb id ct.lengths.total_pieces) || contains rest j)
unfolding keep
contains-keep ct id rest j = ground arith

is_wanted-lt :
    (ct : ChunkTracker) (fis : List FileInfo) (ids : List ℕ) (j : ℕ)
    → All (FitsQueue ct) fis
    → is_wanted ct fis ids j ≡ true
    → j < length ct.queue_pieces
is_wanted-lt ct fis [] j h w = absurd (cc)
is_wanted-lt ct fis (id ∷ ids) j h w = elim (Option-cases (get_elem? fis id)) [
  | inl missing ↦ is_wanted-lt ct fis ids j h (ground (arith, missing))
  | inr (f, there) ↦
      let ((ordered, fits, small), b) = get_elem?-FitsQueue ct fis id h there in
      elim (Bool-cases (is_wanted ct fis ids j)) [
        | inl later ↦ is_wanted-lt ct fis ids j h later
        | inr here ↦ ground (arith, there)
      ]
]

queued_of-exact :
    (ct : ChunkTracker) (ids : List ℕ)
    → IsSized ct
    → ((j : ℕ) → contains ids j ≡ true → j < length ct.queue_pieces)
    → Returns (queued_of ct ids) (λ ps.
      (j : ℕ)
      → contains ps j ≡ (contains ids j && bit ct.queue_pieces j && ltb j ct.lengths.total_pieces))
unfolding queued_of
queued_of-exact ct [] v h = ([], refl, λ j. refl)
queued_of-exact ct (id ∷ ids) v h =
    let (rest, e, k) = queued_of-exact ct ids v (λ j c. h j (ground arith)) in
    (
      keep ct id rest,
      rw (index-eq-bit ct.queue_pieces id (h id (ground arith)), e, ◌>>=◌)
          (keep_lem ct id rest v.laws),
      λ j.
          contains-keep ct id rest j
          ∙ ground (arith, k j, ap (bit ct.queue_pieces) {x = j} {y = id}),
    )

-- On a tracker of the right sizes, with files that fit the bit fields and of which each has its
-- count of bytes, `iter_queued_pieces` does not panic and yields exactly the valid queued pieces of
-- the unfinished files that the priorities name.
pub iter_queued_pieces-exact :
    (ct : ChunkTracker) (ids : List ℕ) (fis : List FileInfo)
    → IsSized ct
    → All (FitsQueue ct) fis
    → length ct.per_file_bytes ≡ length fis
    → Returns (iter_queued_pieces ct ids fis) (λ ps.
      (j : ℕ)
      → contains ps j
        ≡ (is_wanted ct fis ids j && bit ct.queue_pieces j && ltb j ct.lengths.total_pieces))
unfolding iter_queued_pieces
iter_queued_pieces-exact ct ids fis v h l =
    let (wanted, e, k) = wanted_of-exact ct fis ids h l in
    let (ps, e', k') =
      queued_of-exact ct wanted v (λ j c. is_wanted-lt ct fis ids j h (sym (k j) ∙ c)) in
    (
      ps,
      >>=-some (wanted_of ct fis ids) (queued_of ct) e ∙ e',
      λ j. k' j ∙ ap (λ b. b && bit ct.queue_pieces j && ltb j ct.lengths.total_pieces) (k j),
    )
