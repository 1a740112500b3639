-- ===== src/ChunkTracker/Pieces.antt =====
-- src/chunk_tracker.rs: the invariant of the tracker, and what the per-piece methods do.
use librtbit.Base.{
  ℕ, ◌-◌, ◌*◌, ◌≤◌, ◌<◌, ◌≡◌, refl, ap, ◌∙◌, true, false, not, ◌&&◌, some, ◌>>=◌, arith, length,
  length-set, if◌then◌else◌, ◌==◌, inl, inr, set, Returns, add64, sub64, Bool-cases,
}
use librtbit.Base.Bits.{
  Bits, bit, within, index-eq-bit, set_bit_lem, bit-set, fill_range_lem, fill_from,
  length-fill_from, bit-fill_from,
}
use librtbit.Lengths.{Laws}
use librtbit.ChunkTracker.{
  ChunkTracker, reserve_needed_piece, mark_piece_broken_if_not_have, mark_piece_downloaded,
}
use librtbit.ChunkTracker.Stats.{
  bytes_of, have_bytes-set, needed_bytes-set, sum_if-u64, HaveNeededSelected-eq,
}

-- Bit fields of the torrent's size.
pub record IsSized (ct : ChunkTracker) : Type 0 where
  pub laws : Laws ct.lengths
  pub have_sized : length ct.have ≡ 8 * ct.lengths.piece_bitfield_bytes
  pub selected_sized : length ct.selected ≡ 8 * ct.lengths.piece_bitfield_bytes
  pub queue_sized : length ct.queue_pieces ≡ 8 * ct.lengths.piece_bitfield_bytes
  pub chunks_sized : length ct.chunk_status ≡ 8 * ct.lengths.chunk_bitfield_bytes

-- And figures that are in sync with them.
pub record IsValid (ct : ChunkTracker) : Type 0 where
  pub sized : IsSized ct
  pub open sized use *
  pub synced : ct.hns ≡ bytes_of ct.lengths ct.have ct.selected

-- Only the piece `i` left the queue.
pub record Reserved (i : ℕ) (ct ct' : ChunkTracker) : Type 0 where
  pub sized : IsSized ct'
  pub hns : ct'.hns ≡ ct.hns
  pub files : ct'.per_file_bytes ≡ ct.per_file_bytes
  pub lengths : ct'.lengths ≡ ct.lengths
  pub have : ct'.have ≡ ct.have
  pub selected : ct'.selected ≡ ct.selected
  pub chunks : ct'.chunk_status ≡ ct.chunk_status
  pub queue : (j : ℕ) → bit ct'.queue_pieces j ≡ (if j == i then false else bit ct.queue_pieces j)

-- The piece `i`, if not had, is queued and its chunks are to be written again; all else stays.
pub record Requeued (i : ℕ) (ct ct' : ChunkTracker) : Type 0 where
  pub sized : IsSized ct'
  pub hns : ct'.hns ≡ ct.hns
  pub files : ct'.per_file_bytes ≡ ct.per_file_bytes
  pub lengths : ct'.lengths ≡ ct.lengths
  pub have : ct'.have ≡ ct.have
  pub selected : ct'.selected ≡ ct.selected
  pub queue :
      (j : ℕ)
      → bit ct'.queue_pieces j
        ≡ (if j == i && not (bit ct.have i) then true else bit ct.queue_pieces j)
  pub chunks :
      (j : ℕ)
      → j < length ct.chunk_status
      → bit ct'.chunk_status j ≡ (
          if within (ct.lengths.chunk_range i) j && not (bit ct.have i)
          then false
          else bit ct.chunk_status j)

-- The piece `i` is had; the queue, the selection and the chunks stay.
pub record Downloaded (i : ℕ) (ct ct' : ChunkTracker) : Type 0 where
  pub valid : IsValid ct'
  pub lengths : ct'.lengths ≡ ct.lengths
  pub selected : ct'.selected ≡ ct.selected
  pub queue : ct'.queue_pieces ≡ ct.queue_pieces
  pub chunks : ct'.chunk_status ≡ ct.chunk_status
  pub have : (j : ℕ) → bit ct'.have j ≡ (if j == i then true else bit ct.have j)

module _ {ct : ChunkTracker} (i : ℕ) (v : IsSized ct) (h : i < ct.lengths.total_pieces) where
  in_queue : i < length ct.queue_pieces
  in_queue = omega (arith, v.laws.pieces_fit, v.queue_sized)

  in_have : i < length ct.have
  in_have = omega (arith, v.laws.pieces_fit, v.have_sized)

  in_selected : i < length ct.selected
  in_selected = omega (arith, v.laws.pieces_fit, v.selected_sized)

  -- On a tracker of the right sizes, reserving a valid piece does not panic, and takes just that
  -- piece out of the queue.
  pub reserve_needed_piece-Reserved : Returns (reserve_needed_piece ct i) (Reserved i ct)
  unfolding reserve_needed_piece
  reserve_needed_piece-Reserved = (
    record ct { queue_pieces = set ct.queue_pieces i false },
    rw (set_bit_lem ct.queue_pieces i false in_queue, ◌>>=◌),
    record {
      sized = record {
        laws = v.laws;
        have_sized = v.have_sized;
        selected_sized = v.selected_sized;
        queue_sized = length-set ct.queue_pieces i false ∙ v.queue_sized;
        chunks_sized = v.chunks_sized;
      };
      hns = refl;
      files = refl;
      lengths = refl;
      have = refl;
      selected = refl;
      chunks = refl;
      queue = λ j. bit-set ct.queue_pieces i j false in_queue;
    },
  )

  range_ordered : (ct.lengths.chunk_range i).start ≤ (ct.lengths.chunk_range i).end
  range_ordered = omega (arith, v.laws.range_end i)

  -- What `get_mut(chunk_range)` and `fill(false)` leave.
  cleared : Bits
  cleared =
      fill_from ct.chunk_status (ct.lengths.chunk_range i).start
        ((ct.lengths.chunk_range i).end - (ct.lengths.chunk_range i).start) false

  broken : ChunkTracker
  unfolding cleared
  broken = record ct { queue_pieces = set ct.queue_pieces i true; chunk_status = cleared }

  broken-IsSized : IsSized broken
  unfolding broken
  broken-IsSized = record {
    laws = v.laws;
    have_sized = v.have_sized;
    selected_sized = v.selected_sized;
    queue_sized = length-set ct.queue_pieces i true ∙ v.queue_sized;
    chunks_sized = length-fill_from ct.chunk_status _ _ false ∙ v.chunks_sized;
  }

  broken_lem : bit ct.have i ≡ false → mark_piece_broken_if_not_have ct i ≡ some broken
  unfolding mark_piece_broken_if_not_have broken cleared
  broken_lem not_had =
      rw (not_had, set_bit_lem ct.queue_pieces i true in_queue, ◌>>=◌)
        (rw (fill_range_lem ct.chunk_status (ct.lengths.chunk_range i) false range_ordered fits))
    where
      fits : (ct.lengths.chunk_range i).end ≤ length ct.chunk_status
      fits = omega (arith, v.laws.chunks_fit i h, v.chunks_sized)

  broken-Requeued : bit ct.have i ≡ false → Requeued i ct broken
  unfolding broken cleared
  broken-Requeued not_had = record {
    sized = broken-IsSized;
    hns = refl;
    files = refl;
    lengths = refl;
    have = refl;
    selected = refl;
    queue = λ j. rw not_had (ground (arith, bit-set ct.queue_pieces i j true in_queue));
    chunks = λ j b. rw not_had (
        ground (
          arith,
          range_ordered,
          bit-fill_from ct.chunk_status (ct.lengths.chunk_range i).start
              ((ct.lengths.chunk_range i).end - (ct.lengths.chunk_range i).start) j false b,
        ));
  }

  -- On a tracker of the right sizes, marking a valid piece broken does not panic: if it is had
  -- nothing changes, and otherwise it is queued and just its own chunks are cleared.
  pub mark_piece_broken_if_not_have-Requeued :
      Returns (mark_piece_broken_if_not_have ct i) (Requeued i ct)
  unfolding mark_piece_broken_if_not_have
  mark_piece_broken_if_not_have-Requeued = elim (Bool-cases (bit ct.have i)) [
    | inl had ↦ (
      ct,
      rw had,
      record {
        sized = v;
        hns = refl;
        files = refl;
        lengths = refl;
        have = refl;
        selected = refl;
        queue = λ j. ground arith;
        chunks = λ j b. ground arith;
      },
    )
    | inr not_had ↦ (broken, broken_lem not_had, broken-Requeued not_had)
  ]

module _ {ct : ChunkTracker} (i : ℕ) (v : IsValid ct) (h : i < ct.lengths.total_pieces) where
  downloaded : ChunkTracker
  downloaded = record ct {
    have = set ct.have i true;
    hns = record {
      have_bytes = add64 ct.hns.have_bytes (ct.lengths.piece_length i);
      needed_bytes =
          if bit ct.selected i
          then sub64 ct.hns.needed_bytes (ct.lengths.piece_length i)
          else ct.hns.needed_bytes;
      selected_bytes = ct.hns.selected_bytes;
    };
  }

  downloaded_lem : bit ct.have i ≡ false → mark_piece_downloaded ct i ≡ some downloaded
  unfolding mark_piece_downloaded downloaded
  downloaded_lem not_had =
      rw
        (
          index-eq-bit ct.have i (in_have i v.sized h),
          not_had,
          set_bit_lem ct.have i true (in_have i v.sized h),
          index-eq-bit ct.selected i (in_selected i v.sized h),
          ◌>>=◌,
        )
        refl

  had_lem : bit ct.have i ≡ true → mark_piece_downloaded ct i ≡ some ct
  unfolding mark_piece_downloaded
  had_lem had = rw (index-eq-bit ct.have i (in_have i v.sized h), had, ◌>>=◌) refl

  bit_have : (j : ℕ) → bit (set ct.have i true) j ≡ (if j == i then true else bit ct.have j)
  bit_have j = bit-set ct.have i j true (in_have i v.sized h)

  -- The figures follow the change of one piece from not had to had.
  bytes_of-downloaded :
      bit ct.have i ≡ false → downloaded.hns ≡ bytes_of ct.lengths (set ct.have i true) ct.selected
  unfolding downloaded
  bytes_of-downloaded not_had =
      HaveNeededSelected-eq
        (ground (
          arith,
          v.synced,
          have_bytes-set v.laws ct.have ct.selected i h (in_have i v.sized h) not_had,
          sum_if-u64 v.laws (bit (set ct.have i true)),
        ))
        (ground (
          arith,
          v.synced,
          needed_bytes-set v.laws ct.have ct.selected i h (in_have i v.sized h) not_had,
          sum_if-u64 v.laws (λ j. bit ct.selected j && not (bit ct.have j)),
        ))
        (ground (arith, v.synced))

  -- On a valid tracker, marking a valid piece downloaded does not panic: the piece is had, every
  -- other piece is had as before, the selection, the queue and the chunks stay, and the tracker is
  -- valid, with its figures in sync.
  pub mark_piece_downloaded-Downloaded : Returns (mark_piece_downloaded ct i) (Downloaded i ct)
  unfolding downloaded
  mark_piece_downloaded-Downloaded = elim (Bool-cases (bit ct.have i)) [
    | inl had ↦ (
      ct,
      had_lem had,
      record {
        valid = v;
        lengths = refl;
        selected = refl;
        queue = refl;
        chunks = refl;
        have = λ j. ground (arith, ap (bit ct.have) {x = j} {y = i});
      },
    )
    | inr not_had ↦ (
      downloaded,
      downloaded_lem not_had,
      record {
        valid = record {
          sized = record {
            laws = v.laws;
            have_sized = length-set ct.have i true ∙ v.have_sized;
            selected_sized = v.selected_sized;
            queue_sized = v.queue_sized;
            chunks_sized = v.chunks_sized;
          };
          synced = bytes_of-downloaded not_had;
        };
        lengths = refl;
        selected = refl;
        queue = refl;
        chunks = refl;
        have = bit_have;
      },
    )
  ]

-- What leaves the figures, the selection and the pieces had alone keeps the invariant.
pub IsValid-same :
    {ct ct' : ChunkTracker}
    → IsValid ct
    → IsSized ct'
    → ct'.lengths ≡ ct.lengths
    → ct'.have ≡ ct.have
    → ct'.selected ≡ ct.selected
    → ct'.hns ≡ ct.hns
    → IsValid ct'
IsValid-same v z l h s e = record { sized = z; synced = e ∙ (v.synced ∙ rw (l, h, s)) }
