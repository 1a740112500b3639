-- ===== src/ChunkTracker/Files/Chosen.antt =====
-- src/chunk_tracker.rs: the pieces of the chosen files.
use librtbit.Base.{
  ℕ, ◌+◌, ◌-◌, ◌*◌, ◌<◌, ◌≡◌, refl, ap, ◌∙◌, Bool, true, false, not, ◌&&◌, ◌||◌, none, some, List,
  [], ◌∷◌, arith, length, if◌then◌else◌, leb, length-replicate, get_or-replicate,
}
use librtbit.Base.Bits.{Bits, bit, within, fill_range, length-fill_from, bit-fill_from, zeroed}
use librtbit.Lengths.{Lengths}
use librtbit.FileInfo.{FileInfo}
use librtbit.ChunkTracker.{selected_pieces_from, compute_selected_pieces}

-- Whether the piece `j` lies in a file that is chosen and not padding.
abbrev is_chosen : (ℕ → Bool) → ℕ → List FileInfo → ℕ → ℕ → Bool
is_chosen only_files id [] bits j = false
is_chosen only_files id (fi ∷ fis) bits j =
    let rest = is_chosen only_files (id + 1) fis bits j in
    (not fi.attrs.padding
      && only_files id
      && leb fi.piece_range.start fi.piece_range.end
      && leb fi.piece_range.end bits
      && within fi.piece_range j)
    || rest

-- One file of the loop.
choose : (ℕ → Bool) → ℕ → FileInfo → Bits → Bits
choose only_files id fi bf =
    if not fi.attrs.padding && only_files id
    then elim (fill_range bf fi.piece_range true) [ none ↦ bf | some bf' ↦ bf' ]
    else bf

length-choose :
    (only_files : ℕ → Bool) (id : ℕ) (fi : FileInfo) (bf : Bits)
    → length (choose only_files id fi bf) ≡ length bf
unfolding choose fill_range
length-choose only_files id fi bf = ground (
  arith,
  length-fill_from bf fi.piece_range.start (fi.piece_range.end - fi.piece_range.start) true,
)

bit-choose :
    (only_files : ℕ → Bool) (id : ℕ) (fi : FileInfo) (bf : Bits) (j : ℕ)
    → j < length bf
    → bit (choose only_files id fi bf) j
      ≡ (not fi.attrs.padding
          && only_files id
          && leb fi.piece_range.start fi.piece_range.end
          && leb fi.piece_range.end (length bf)
          && within fi.piece_range j)
        || bit bf j
unfolding choose fill_range
bit-choose only_files id fi bf j h = ground (
  arith,
  bit-fill_from bf fi.piece_range.start (fi.piece_range.end - fi.piece_range.start) j true h,
)

selected_pieces_from-exact :
    (only_files : ℕ → Bool) (id : ℕ) (fis : List FileInfo) (bf : Bits)
    → (length (selected_pieces_from only_files id fis bf) ≡ length bf)
      × ((j : ℕ)
          → j < length bf
          → bit (selected_pieces_from only_files id fis bf) j
            ≡ (is_chosen only_files id fis (length bf) j || bit bf j))
unfolding selected_pieces_from choose
selected_pieces_from-exact only_files id [] bf = (refl, λ j h. refl)
selected_pieces_from-exact only_files id (fi ∷ fis) bf =
    let (l, b) = selected_pieces_from-exact only_files (id + 1) fis (choose only_files id fi bf) in
    let same = length-choose only_files id fi bf in
    (
      l ∙ same,
      λ j h. ground (
        arith,
        b j (rw same h),
        bit-choose only_files id fi bf j h,
        ap (λ n. is_chosen only_files (id + 1) fis n j) same,
      ),
    )

-- The selection has a bit for each bit of the pieces' bytes, and a bit is set exactly if it lies in
-- the range of a chosen file that is not padding and whose range the bit field holds.
pub compute_selected_pieces-exact :
    (l : Lengths) (only_files : ℕ → Bool) (fis : List FileInfo)
    → let bf = compute_selected_pieces l only_files fis in
      let bits = 8 * l.piece_bitfield_bytes in
      (length bf ≡ bits) × ((j : ℕ) → j < bits → bit bf j ≡ is_chosen only_files 0 fis bits j)
unfolding compute_selected_pieces
compute_selected_pieces-exact l only_files fis =
    let (n, b) = selected_pieces_from-exact only_files 0 fis (zeroed l.piece_bitfield_bytes) in
    let size = length-replicate (8 * l.piece_bitfield_bytes) false in
    (
      n ∙ size,
      λ j h. ground (
        arith,
        b j (omega (arith, size)),
        get_or-replicate (8 * l.piece_bitfield_bytes) j false,
        ap (λ n. is_chosen only_files 0 fis n j) size,
      ),
    )
