-- ===== src/ChunkTracker/Files/Selection.antt =====
-- src/chunk_tracker.rs: what `update_only_files` does.
use librtbit.Base.{
  All-mono, ℕ, ◌*◌, ◌<◌, ◌≡◌, refl, ap, ◌∙◌, Bool, false, not, ◌&&◌, ◌||◌, some, List, ◌>>=◌, arith,
  length, Returns, length-replicate, get_or-replicate,
}
use librtbit.Base.Bits.{
  Bits, bit, ones, contains-ones, ones_bounded, zeroed, bits_and, bits_or, length-bits_and,
  bit-bits_and, bit-bits_or,
}
use librtbit.FileInfo.{FileInfo}
use librtbit.ChunkTracker.{ChunkTracker, compute_selected_pieces, calc_hns}
use librtbit.ChunkTracker.Files.{select, update_only_files}
use librtbit.ChunkTracker.Stats.{bytes_of, calc_hns-exact}
use librtbit.ChunkTracker.Pieces.{IsSized, IsValid}
use librtbit.ChunkTracker.Files.Chosen.{compute_selected_pieces-exact}
use librtbit.ChunkTracker.Files.Requeue.{newly_selected-Marks, requeue-RequeuedAll}

-- What `update_only_files` does to a tracker once `selected` is known.
pub record Selected (selected : Bits) (ct ct' : ChunkTracker) : Type 0 where
  pub valid : IsValid ct'
  pub lengths : ct'.lengths ≡ ct.lengths
  pub have : ct'.have ≡ ct.have
  pub chosen : ct'.selected ≡ selected
  pub queue :
      (j : ℕ)
      → j < ct.lengths.total_pieces
      → bit ct'.queue_pieces j ≡ (
          (bit selected j && not (bit ct.have j) && not (bit ct.selected j))
          || (bit ct.queue_pieces j && (bit selected j || bit ct.have j)))

-- The tracker after the last statements of `select`.
settled : Bits → ChunkTracker → ChunkTracker
settled selected ct = record ct {
  queue_pieces = bits_and ct.queue_pieces (bits_or selected ct.have);
  hns = bytes_of ct.lengths ct.have ct.selected;
}

settled-IsValid : (selected : Bits) (ct : ChunkTracker) → IsSized ct → IsValid (settled selected ct)
unfolding settled
settled-IsValid selected ct v = record {
  sized = record {
    laws = v.laws;
    have_sized = v.have_sized;
    selected_sized = v.selected_sized;
    queue_sized = length-bits_and ct.queue_pieces (bits_or selected ct.have) ∙ v.queue_sized;
    chunks_sized = v.chunks_sized;
  };
  synced = refl;
}

-- `calc_hns` reads neither the queue nor the old figures.
calc_hns-settled :
    (ct : ChunkTracker) (queue : Bits)
    → IsSized ct
    → calc_hns (record ct { queue_pieces = queue }) ≡ some (bytes_of ct.lengths ct.have ct.selected)
calc_hns-settled ct queue v =
    calc_hns-exact (record ct { queue_pieces = queue }) v.laws
      (omega (arith, v.laws.pieces_fit, v.have_sized))
      (omega (arith, v.laws.pieces_fit, v.selected_sized))

bit-settled :
    (selected : Bits) (ct : ChunkTracker) (j : ℕ)
    → j < length selected
    → bit (settled selected ct).queue_pieces j
      ≡ (bit ct.queue_pieces j && (bit selected j || bit ct.have j))
unfolding settled
bit-settled selected ct j h =
    bit-bits_and ct.queue_pieces (bits_or selected ct.have) j
    ∙ ap (λ b. bit ct.queue_pieces j && b) (bit-bits_or selected ct.have j h)

select-Selected :
    (ct : ChunkTracker) (selected : Bits)
    → IsValid ct
    → length selected ≡ 8 * ct.lengths.piece_bitfield_bytes
    → Returns (select ct selected) (λ r. Selected selected ct r.0 × (r.1 ≡ r.0.hns))
unfolding select settled
select-Selected ct selected v size =
    let zeros = zeroed ct.lengths.piece_bitfield_bytes in
    let none_set : length zeros ≡ 8 * ct.lengths.piece_bitfield_bytes =
      length-replicate (8 * ct.lengths.piece_bitfield_bytes) false in
    let (b, eb, (lb, kb)) =
      newly_selected-Marks ct.selected ct.have zeros (ones selected)
        (All-mono (ones selected) (λ j h. omega (arith, size, v.selected_sized))
          (ones_bounded selected))
        (omega (arith, v.have_sized, v.selected_sized))
        (omega (arith, none_set, v.selected_sized)) in
    let v₁ : IsSized (record ct { selected = selected }) = record {
      laws = v.laws;
      have_sized = v.have_sized;
      selected_sized = size;
      queue_sized = v.queue_sized;
      chunks_sized = v.chunks_sized;
    } in
    let (ct₂, e₂, q₂) = requeue-RequeuedAll (record ct { selected = selected }) (ones b) v₁ in
    (
      (settled selected ct₂, (settled selected ct₂).hns),
      rw
          (
            eb,
            e₂,
            calc_hns-settled ct₂ (bits_and ct₂.queue_pieces (bits_or selected ct₂.have)) q₂.sized,
            ◌>>=◌,
          )
          refl,
      (
        record {
          valid = settled-IsValid selected ct₂ q₂.sized;
          lengths = q₂.lengths;
          have = q₂.have;
          chosen = q₂.selected;
          queue = λ j h. ground (
            arith,
            bit-settled selected ct₂ j (omega (arith, size, v.laws.pieces_fit)),
            q₂.queue j,
            contains-ones b j,
            kb j,
            contains-ones selected j,
            get_or-replicate (8 * ct.lengths.piece_bitfield_bytes) j false,
            ap (λ b. bit b j) q₂.have,
          );
        },
        refl,
      ),
    )

-- `update_only_files` on a valid tracker returns: the selection is that of the chosen files, the
-- pieces had stay, the tracker is valid again with its figures in sync, which are the answer, and
-- of the valid pieces exactly those are queued that were queued and are now selected or had, and
-- those that are now selected, were not, and are not had.
pub update_only_files-Selected :
    (ct : ChunkTracker) (fis : List FileInfo) (only_files : ℕ → Bool)
    → IsValid ct
    → Returns
        (update_only_files ct fis only_files)
        (λ r. Selected (compute_selected_pieces ct.lengths only_files fis) ct r.0 × (r.1 ≡ r.0.hns))
unfolding update_only_files
update_only_files-Selected ct fis only_files v =
    select-Selected ct _ v (compute_selected_pieces-exact ct.lengths only_files fis).0
