-- ===== src/ChunkTracker/Create.antt =====
-- src/chunk_tracker.rs: what `ChunkTracker::new` sets up.
use librtbit.Base.{
  ℕ, zero, suc, ◌+◌, ◌-◌, ◌*◌, ◌%◌, ◌^◌, ◌≤◌, ◌<◌, ◌≡◌, refl, ap, ◌∙◌, Bool, true, false, not, ◌&&◌,
  ◌||◌, Option, some, List, [], ◌∷◌, ◌>>=◌, arith, length, map, if◌then◌else◌, ltb, ◌==◌, inl, inr,
  Returns, >>=-some, Bool-cases, All, replicate, length-replicate, get_or-replicate, range_from,
}
use librtbit.Base.Bits.{
  Bits, Range, bit, within, index-eq-bit, fill_range, fill_range_lem, fill_from, length-fill_from,
  bit-fill_from, zeroed, bits_and, bits_not, length-bits_and, length-bits_not, bit-bits_and,
  bit-bits_not,
}
use librtbit.Lengths.{Lengths, Laws, piece_infos_from}
use librtbit.FileInfo.{FileInfo, elements, range_len}
use librtbit.ChunkTracker.{
  ChunkTracker, chunk_have_status_from, compute_chunk_have_status, compute_queued_pieces,
  file_bytes, per_file_bytes_of, recalculate_per_file_bytes, new, no_bytes,
}
use librtbit.ChunkTracker.Stats.{bytes_of, calc_hns-exact}
use librtbit.ChunkTracker.Pieces.{IsValid}

-- Whether chunk `j` belongs to a piece that is had, of the `n` pieces from `i` on.
abbrev is_chunk_of_had : Lengths → Bits → ℕ → ℕ → ℕ → Bool
is_chunk_of_had l have i zero j = false
is_chunk_of_had l have i (suc n) j =
    (bit have i && within (l.chunk_range i) j) || is_chunk_of_had l have (suc i) n j

-- One round of the loop.
fill_piece : Lengths → Bits → Bits → ℕ → Option Bits
fill_piece l have bf i =
    if bit have i
    then fill_range bf
        (record {
          start = l.default_chunks_per_piece * i % 2 ^ 32;
          end = l.default_chunks_per_piece * i % 2 ^ 32 + l.chunks_per_piece i;
        })
        true
    else some bf

abbrev Fills : Bits → (ℕ → Bool) → Bits → Type 0
Fills bf p bf' =
    (length bf' ≡ length bf) × ((j : ℕ) → j < length bf → bit bf' j ≡ (p j || bit bf j))

module _ {l : Lengths} (laws : Laws l) (have : Bits) where
  fill_piece-Fills :
      (bf : Bits) (i : ℕ)
      → i < l.total_pieces
      → length bf ≡ 8 * l.chunk_bitfield_bytes
      → Returns (fill_piece l have bf i) (Fills bf (λ j. bit have i && within (l.chunk_range i) j))
  unfolding fill_piece
  fill_piece-Fills bf i h size = elim (Bool-cases (bit have i)) [
    | inr missing ↦ (bf, rw missing, (refl, λ j b. rw missing refl))
    | inl had ↦
        let no_wrap : l.default_chunks_per_piece * i % 2 ^ 32 ≡ l.default_chunks_per_piece * i =
          omega (arith, laws.start_u32 i h) in
        let r : Range = record {
          start = l.default_chunks_per_piece * i;
          end = l.default_chunks_per_piece * i + l.chunks_per_piece i;
        } in
        (
          fill_from bf r.start (r.end - r.start) true,
          rw (had, no_wrap)
              (fill_range_lem bf r true (omega arith)
                (omega (arith, laws.chunks_fit i h, laws.range_start i, laws.range_end i, size))),
          (
            length-fill_from bf r.start (r.end - r.start) true,
            λ j b. rw had (
                ground (
                  arith,
                  bit-fill_from bf r.start (r.end - r.start) j true b,
                  laws.range_start i,
                  laws.range_end i,
                )),
          ),
        )
  ]

  chunk_have_status_from-Fills :
      (f : ℕ → ℕ) (n i : ℕ) (bf : Bits)
      → i + n ≤ l.total_pieces
      → l.total_pieces ≤ length have
      → length bf ≡ 8 * l.chunk_bitfield_bytes
      → Returns
          (chunk_have_status_from l have bf (piece_infos_from f i n))
          (Fills bf (is_chunk_of_had l have i n))
  unfolding chunk_have_status_from fill_piece
  chunk_have_status_from-Fills f zero i bf h fits size = (bf, refl, (refl, λ j b. refl))
  chunk_have_status_from-Fills f (suc n) i bf h fits size =
      let (bf₁, e₁, (l₁, k₁)) = fill_piece-Fills bf i (omega arith) size in
      let (bf₂, e₂, (l₂, k₂)) =
        chunk_have_status_from-Fills f n (suc i) bf₁ (omega arith) fits (l₁ ∙ size) in
      (
        bf₂,
        rw (index-eq-bit have i (omega arith), ◌>>=◌) (>>=-some (fill_piece l have bf i) _ e₁ ∙ e₂),
        (l₂ ∙ l₁, λ j b. ground (arith, k₁ j b, k₂ j (omega (arith, l₁)))),
      )

  -- From a bit field with a bit for every piece, `compute_chunk_have_status` returns a bit field of
  -- the chunks' bytes in which exactly the chunks of the pieces that are had are set.
  compute_chunk_have_status-exact :
      l.total_pieces ≤ length have
      → Returns (compute_chunk_have_status l have) (λ bf.
        (length bf ≡ 8 * l.chunk_bitfield_bytes)
        × ((j : ℕ)
            → j < 8 * l.chunk_bitfield_bytes
            → bit bf j ≡ is_chunk_of_had l have 0 l.total_pieces j))
  unfolding compute_chunk_have_status
  compute_chunk_have_status-exact fits =
      let size = length-replicate (8 * l.chunk_bitfield_bytes) false in
      let (bf, e, (n, k)) =
        chunk_have_status_from-Fills l.piece_length l.total_pieces 0 (zeroed l.chunk_bitfield_bytes)
          (omega arith) fits size in
      let enough : ltb (length have) l.total_pieces ≡ false = ground arith in
      (
        bf,
        rw (enough, laws.enumerates) e,
        (
          n ∙ size,
          λ j b. ground (
            arith,
            k j (omega (arith, size)),
            get_or-replicate (8 * l.chunk_bitfield_bytes) j false,
          ),
        ),
      )

-- The bytes of a file that lie in pieces that are had.
abbrev file_sum : Lengths → Bits → FileInfo → List ℕ → ℕ
file_sum l have fi [] = 0
file_sum l have fi (p ∷ ps) =
    (if bit have p then l.size_of_piece_in_file p fi.offset_in_torrent fi.len else 0)
    + file_sum l have fi ps

file_bytes-exact :
    (l : Lengths) (have : Bits) (fi : FileInfo) (i n : ℕ)
    → i + n ≤ length have
    → file_bytes l have fi (range_from i n) ≡ some (file_sum l have fi (range_from i n) % 2 ^ 64)
unfolding file_bytes
file_bytes-exact l have fi i zero h = refl
file_bytes-exact l have fi i (suc n) h =
    rw
      (index-eq-bit have i (omega arith), file_bytes-exact l have fi (suc i) n (omega arith), ◌>>=◌)
      (ground arith)

-- What `recalculate_per_file_bytes` puts into the slots.
abbrev file_sums : Lengths → Bits → List FileInfo → List ℕ
file_sums l have = map (λ fi. file_sum l have fi (elements fi.piece_range) % 2 ^ 64)

abbrev pub InRange : Bits → FileInfo → Type 0
InRange have fi = (fi.piece_range.start ≤ fi.piece_range.end) × (fi.piece_range.end ≤ length have)

per_file_bytes_of-exact :
    (l : Lengths) (have : Bits) (fis : List FileInfo)
    → All (InRange have) fis
    → per_file_bytes_of l have (replicate (length fis) 0) fis ≡ some (file_sums l have fis)
unfolding per_file_bytes_of
per_file_bytes_of-exact l have [] h = refl
per_file_bytes_of-exact l have (fi ∷ fis) h =
    rw
      (
        file_bytes-exact l have fi fi.piece_range.start (range_len fi.piece_range)
            (omega (arith, h.0)),
        per_file_bytes_of-exact l have fis h.1,
        ◌>>=◌,
      )
      refl

-- A new tracker.
pub record Created (have selected : Bits) (l : Lengths) (fis : List FileInfo) (ct : ChunkTracker)
    : Type 0 where
  pub valid : IsValid ct
  pub lengths : ct.lengths ≡ l
  pub have_kept : ct.have ≡ have
  pub selected_kept : ct.selected ≡ selected
  pub queue :
      (j : ℕ) → j < l.total_pieces → bit ct.queue_pieces j ≡ (not (bit have j) && bit selected j)
  pub chunks :
      (j : ℕ)
      → j < 8 * l.chunk_bitfield_bytes
      → bit ct.chunk_status j ≡ is_chunk_of_had l have 0 l.total_pieces j
  pub files : ct.per_file_bytes ≡ file_sums l have fis

-- From bit fields of the torrent's size and files whose ranges lie within them, `new` returns a
-- valid tracker: it keeps both bit fields, queues the valid pieces that are selected and not had,
-- has exactly the chunks of the pieces that are had, and counts for each file, modulo 2^64, the
-- bytes of its pieces that are had.
pub new-Created :
    (have selected : Bits) {l : Lengths} (fis : List FileInfo)
    → Laws l
    → length have ≡ 8 * l.piece_bitfield_bytes
    → length selected ≡ 8 * l.piece_bitfield_bytes
    → All (InRange have) fis
    → Returns (new have selected l fis) (Created have selected l fis)
unfolding new recalculate_per_file_bytes compute_queued_pieces
new-Created have selected {l} fis laws hs ss files =
    let (bf, e, (n, k)) =
      compute_chunk_have_status-exact laws have (omega (arith, hs, laws.pieces_fit)) in
    let same : (length have == length selected) ≡ true = ground arith in
    let queue = bits_and (bits_not have) selected in
    let ct : ChunkTracker = record {
      queue_pieces = queue;
      chunk_status = bf;
      have = have;
      selected = selected;
      per_file_bytes = file_sums l have fis;
      lengths = l;
      hns = no_bytes;
    } in
    let synced =
      calc_hns-exact ct laws (omega (arith, hs, laws.pieces_fit))
        (omega (arith, ss, laws.pieces_fit)) in
    (
      record ct { hns = bytes_of l have selected },
      rw (same, e, per_file_bytes_of-exact l have fis files, synced, ◌>>=◌) refl,
      record {
        valid = record {
          sized = record {
            laws = laws;
            have_sized = hs;
            selected_sized = ss;
            queue_sized = length-bits_and (bits_not have) selected ∙ (length-bits_not have ∙ hs);
            chunks_sized = n;
          };
          synced = refl;
        };
        lengths = refl;
        have_kept = refl;
        selected_kept = refl;
        queue = λ j b.
            bit-bits_and (bits_not have) selected j
            ∙ ap (λ x. x && bit selected j)
                (bit-bits_not have j (omega (arith, hs, laws.pieces_fit)));
        chunks = k;
        files = refl;
      },
    )
