-- ===== src/ChunkTracker/Chunks/Marking.antt =====
-- src/chunk_tracker.rs: what `mark_chunk_downloaded` records and answers.
use librtbit.Base.{
  ℕ, ◌+◌, ◌-◌, ◌<◌, ◌≡◌, refl, Bool, true, false, none, some, ◌>>=◌, arith, length, length-set,
  if◌then◌else◌, set, inl, inr, ◌⊎◌, Returns, Bool-cases, dec_lt,
}
use librtbit.Base.Bits.{
  Bits, bit, within, set_bit_lem, all_range, all_range_lem, all_from, all_from_sound,
  all_from_complete,
}
use librtbit.Lengths.{Laws, ChunkInfo}
use librtbit.ChunkTracker.{ChunkTracker}
use librtbit.ChunkTracker.Pieces.{IsSized}
use librtbit.ChunkTracker.Chunks.{
  ChunkMarkingResult, previously_completed, not_completed, completed, Piece, set_in_range,
  mark_chunk, mark_chunk_downloaded,
}

-- Every chunk of piece `p` is marked in `bits`.
abbrev IsComplete : ChunkTracker → ℕ → Bits → Type 0
IsComplete ct p bits = (j : ℕ) → within (ct.lengths.chunk_range p) j ≡ true → bit bits j ≡ true

-- The bit of a chunk.
abbrev pub chunk_bit : ChunkTracker → ChunkInfo → ℕ
chunk_bit ct c = (ct.lengths.chunk_range c.piece_index).start + c.chunk_index

-- What the answer says: the piece was complete and nothing changed; or the chunk, and no other,
-- was marked, which completed the piece or did not.
pub data Marked (ct : ChunkTracker) (c : ChunkInfo) (r : ChunkTracker × ChunkMarkingResult)
    : Type 0 where
  was_complete :
      r.1 ≡ previously_completed
      → r.0 ≡ ct
      → IsComplete ct c.piece_index ct.chunk_status
      → Marked ct c r
  was_marked :
      ¬ IsComplete ct c.piece_index ct.chunk_status
      → r.0 ≡ record ct { chunk_status = set ct.chunk_status (chunk_bit ct c) true }
      → ((r.1 ≡ completed) × IsComplete ct c.piece_index r.0.chunk_status)
        ⊎ ((r.1 ≡ not_completed) × (¬ IsComplete ct c.piece_index r.0.chunk_status))
      → Marked ct c r

module _ {ct : ChunkTracker} (v : IsSized ct) (p : ℕ) (h : p < ct.lengths.total_pieces) where
  -- `chunk_range.all()`
  all_chunks : Bits → Bool
  all_chunks bits =
      all_from bits (ct.lengths.chunk_range p).start
        ((ct.lengths.chunk_range p).end - (ct.lengths.chunk_range p).start)

  all_chunks_lem :
      (bits : Bits)
      → length bits ≡ length ct.chunk_status
      → all_range bits (ct.lengths.chunk_range p) ≡ some (all_chunks bits)
  unfolding all_chunks
  all_chunks_lem bits e =
      all_range_lem bits (ct.lengths.chunk_range p) (omega (arith, v.laws.range_end p))
        (omega (arith, v.laws.chunks_fit p h, v.chunks_sized))

  all_chunks-IsComplete : (bits : Bits) → all_chunks bits ≡ true → IsComplete ct p bits
  unfolding all_chunks
  all_chunks-IsComplete bits e j w =
      all_from_sound bits (ct.lengths.chunk_range p).start _ j e (ground arith)
        (ground (arith, v.laws.range_end p))

  not-IsComplete : (bits : Bits) → all_chunks bits ≡ false → ¬ IsComplete ct p bits
  unfolding all_chunks
  not-IsComplete bits e all = cc (
    e,
    all_from_complete bits (ct.lengths.chunk_range p).start
        ((ct.lengths.chunk_range p).end - (ct.lengths.chunk_range p).start)
        (λ j a b. all j (ground (arith, v.laws.range_end p))),
  )

module _ {ct : ChunkTracker} (v : IsSized ct) (c : ChunkInfo)
    (h : c.piece_index < ct.lengths.total_pieces)
    (b : c.chunk_index < ct.lengths.chunks_per_piece c.piece_index) where
  marked_bits : Bits
  marked_bits = set ct.chunk_status (chunk_bit ct c) true

  set_in_range_lem :
      set_in_range ct.chunk_status (ct.lengths.chunk_range c.piece_index) c.chunk_index
      ≡ some marked_bits
  unfolding marked_bits
  set_in_range_lem =
      let inside : chunk_bit ct c < length ct.chunk_status = omega (
        arith,
        v.laws.range_end c.piece_index,
        v.laws.chunks_fit c.piece_index h,
        v.chunks_sized,
      ) in
      ground (
        arith,
        v.laws.range_end c.piece_index,
        set_bit_lem ct.chunk_status (chunk_bit ct c) true inside,
      )

  answer : Bool → ChunkTracker × ChunkMarkingResult
  answer after =
      (record ct { chunk_status = marked_bits }, if after then completed else not_completed)

  mark_chunk_open :
      all_chunks v c.piece_index h ct.chunk_status ≡ false
      → mark_chunk ct c ≡ some (answer (all_chunks v c.piece_index h marked_bits))
  unfolding mark_chunk answer
  mark_chunk_open not_full =
      rw
        (
          all_chunks_lem v c.piece_index h ct.chunk_status refl,
          not_full,
          set_in_range_lem,
          all_chunks_lem v c.piece_index h marked_bits same,
          ◌>>=◌,
        )
        refl
    where
      same : length marked_bits ≡ length ct.chunk_status
      same = unfold marked_bits in length-set ct.chunk_status (chunk_bit ct c) true

  mark_chunk_full :
      all_chunks v c.piece_index h ct.chunk_status ≡ true
      → mark_chunk ct c ≡ some (ct, previously_completed)
  unfolding mark_chunk
  mark_chunk_full full =
      rw (all_chunks_lem v c.piece_index h ct.chunk_status refl, full, ◌>>=◌) refl

  mark_chunk-Marked : Returns (mark_chunk ct c) (Marked ct c)
  unfolding answer marked_bits
  mark_chunk-Marked = elim (Bool-cases (all_chunks v c.piece_index h ct.chunk_status)) [
    | inl full ↦ (
      (ct, previously_completed),
      mark_chunk_full full,
      was_complete refl refl (all_chunks-IsComplete v c.piece_index h ct.chunk_status full),
    )
    | inr not_full ↦ (
      answer (all_chunks v c.piece_index h marked_bits),
      mark_chunk_open not_full,
      was_marked (not-IsComplete v c.piece_index h ct.chunk_status not_full) refl
          (elim (Bool-cases (all_chunks v c.piece_index h marked_bits)) [
            | inl all ↦ inl (rw all refl, all_chunks-IsComplete v c.piece_index h marked_bits all)
            | inr few ↦ inr (rw few refl, not-IsComplete v c.piece_index h marked_bits few)
          ]),
    )
  ]

-- Data that is a chunk of a valid piece is marked without a panic on a tracker of the right sizes.
-- If all of the piece's chunks were there, nothing changes and the answer is `PreviouslyCompleted`;
-- otherwise just that chunk is set, and the answer is `Completed` if all chunks of the piece are
-- there then, and `NotCompleted` if not.
pub mark_chunk_downloaded-Marked :
    (ct : ChunkTracker) (piece : Piece) (c : ChunkInfo)
    → IsSized ct
    → piece.index < ct.lengths.total_pieces
    → ct.lengths.chunk_info_from_received_data piece.index piece.begin piece.len ≡ some c
    → Returns
        (mark_chunk_downloaded ct piece)
        (λ r. (m : ChunkMarkingResult) × (r.1 ≡ some m) × Marked ct c (r.0, m))
unfolding mark_chunk_downloaded
mark_chunk_downloaded-Marked ct piece c v h e =
    let (same, small) = v.laws.chunk_of_piece piece.index piece.begin piece.len c e in
    let ((ct', m), returned, marked) = mark_chunk-Marked v c (rw same h) (rw same small) in
    let valid : ct.lengths.validate_piece_index piece.index ≡ some piece.index =
      ground (arith, v.laws.validates piece.index) in
    ((ct', some m), ground (arith, valid, e, returned), (m, refl, marked))

-- Data for a piece that is not valid, or that is no chunk of its piece, changes nothing and is
-- answered by `None`.
pub mark_chunk_downloaded_refused :
    (ct : ChunkTracker) (piece : Piece)
    → Laws ct.lengths
    → (piece.index < ct.lengths.total_pieces
        → ct.lengths.chunk_info_from_received_data piece.index piece.begin piece.len ≡ none)
    → mark_chunk_downloaded ct piece ≡ some (ct, none)
unfolding mark_chunk_downloaded
mark_chunk_downloaded_refused ct piece laws h = elim (dec_lt piece.index ct.lengths.total_pieces) [
  | yes valid ↦ ground (arith, laws.validates piece.index, h valid)
  | no invalid ↦ ground (arith, laws.validates piece.index)
]
