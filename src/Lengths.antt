-- ===== src/Lengths.antt =====
-- `librtbit_core::lengths`, another repository's crate: how a torrent is cut into pieces and
-- chunks. The model takes a value of `Lengths` as an argument wherever the code holds one, and
-- `Laws` says what the code relies on. A `ValidPieceIndex` is its `u32`.
use librtbit.Base.{
  ℕ, zero, suc, ◌+◌, ◌*◌, ◌^◌, ◌≤◌, ◌<◌, ◌≡◌, ◌≢◌, Option, none, some, List, [], ◌∷◌, ltb,
  if◌then◌else◌, arith,
}
use librtbit.Base.Bits.{Range}

pub record PieceInfo : Type 0 where
  pub piece_index : ℕ
  pub len : ℕ

pub record ChunkInfo : Type 0 where
  pub piece_index : ℕ
  pub chunk_index : ℕ
  pub size : ℕ
  pub offset : ℕ

pub record CurrentPiece : Type 0 where
  pub id : ℕ
  pub piece_remaining : ℕ

-- One field for each method that the modelled code calls.
pub record Lengths : Type 0 where
  pub total_pieces : ℕ
  pub total_length : ℕ
  pub default_piece_length : ℕ
  pub default_chunks_per_piece : ℕ
  pub piece_bitfield_bytes : ℕ
  pub chunk_bitfield_bytes : ℕ
  pub piece_length : ℕ → ℕ
  pub chunks_per_piece : ℕ → ℕ
  pub chunk_range : ℕ → Range
  pub iter_piece_infos : List PieceInfo
  pub validate_piece_index : ℕ → Option ℕ
  pub chunk_info_from_received_data : ℕ → ℕ → ℕ → Option ChunkInfo
  pub size_of_piece_in_file : ℕ → ℕ → ℕ → ℕ
  pub piece_offset : ℕ → ℕ
  pub chunk_absolute_offset : ChunkInfo → ℕ
  pub compute_current_piece : ℕ → ℕ → Option CurrentPiece

-- Pieces `i`, `i + 1`, …, `n` of them.
abbrev pub piece_infos_from : (ℕ → ℕ) → ℕ → ℕ → List PieceInfo
piece_infos_from piece_length i zero = []
piece_infos_from piece_length i (suc n) =
    record { piece_index = i; len = piece_length i } ∷ piece_infos_from piece_length (suc i) n

abbrev pub sum_lengths : List PieceInfo → ℕ
sum_lengths [] = 0
sum_lengths (p ∷ ps) = p.len + sum_lengths ps

pub record Laws (l : Lengths) : Type 0 where
  -- The pieces are enumerated in order, with their lengths, which add up to the torrent's.
  pub enumerates : l.iter_piece_infos ≡ piece_infos_from l.piece_length 0 l.total_pieces
  pub adds_up : sum_lengths l.iter_piece_infos ≡ l.total_length
  pub total_length_u64 : l.total_length < 2 ^ 64
  pub total_pieces_u32 : l.total_pieces < 2 ^ 32
  -- An index is valid if it is below the number of pieces.
  pub validates :
      (i : ℕ) → l.validate_piece_index i ≡ (if ltb i l.total_pieces then some i else none)
  -- A bitfield has a bit for each piece, one for each chunk.
  pub pieces_fit : l.total_pieces ≤ 8 * l.piece_bitfield_bytes
  pub chunks_fit : (i : ℕ) → i < l.total_pieces → (l.chunk_range i).end ≤ 8 * l.chunk_bitfield_bytes
  -- The number of a piece's first chunk is a `u32`.
  pub start_u32 : (i : ℕ) → i < l.total_pieces → l.default_chunks_per_piece * i < 2 ^ 32
  pub range_start : (i : ℕ) → (l.chunk_range i).start ≡ l.default_chunks_per_piece * i
  pub range_end : (i : ℕ) → (l.chunk_range i).end ≡ (l.chunk_range i).start + l.chunks_per_piece i
  -- Every piece has chunks, none more than the first.
  pub some_chunks : (i : ℕ) → i < l.total_pieces → 0 < l.chunks_per_piece i
  pub few_chunks : (i : ℕ) → l.chunks_per_piece i ≤ l.default_chunks_per_piece
  -- Received data is accepted as a chunk of its piece.
  pub chunk_of_piece :
      (p begin len : ℕ) (c : ChunkInfo)
      → l.chunk_info_from_received_data p begin len ≡ some c
      → (c.piece_index ≡ p) × (c.chunk_index < l.chunks_per_piece p)
  -- The pieces of the first one's length cover the torrent.
  pub length_some : 0 < l.default_piece_length
  pub covered : l.total_length ≤ l.default_piece_length * l.total_pieces
  -- Pieces are as long as the first, save the last, and follow each other from the start.
  pub piece_at : (i : ℕ) → l.piece_offset i ≡ l.default_piece_length * i
  pub piece_then : (i : ℕ) → suc i < l.total_pieces → l.piece_length i ≡ l.default_piece_length
  pub piece_inside :
      (i : ℕ) → i < l.total_pieces → l.piece_offset i + l.piece_length i ≤ l.total_length
  pub piece_some : (i : ℕ) → i < l.total_pieces → 0 < l.piece_length i
  -- A chunk's offset counts from the start of its piece.
  pub chunk_at :
      (c : ChunkInfo) → l.chunk_absolute_offset c ≡ l.piece_offset c.piece_index + c.offset
  -- A position of a file, which starts at the second number, stands in a piece if it is in the torrent.
  pub current_some :
      (pos offset : ℕ) → offset + pos < l.total_length → l.compute_current_piece pos offset ≢ none
  pub current_at :
      (pos offset : ℕ) (c : CurrentPiece)
      → l.compute_current_piece pos offset ≡ some c
      → (c.id < l.total_pieces)
        × (l.piece_offset c.id ≤ offset + pos)
        × (offset + pos + c.piece_remaining ≡ l.piece_offset c.id + l.piece_length c.id)
        × (0 < c.piece_remaining)

-- Each piece starts where the last one ends.
pub piece_offset-suc :
    (l : Lengths) (i : ℕ)
    → Laws l
    → suc i < l.total_pieces
    → l.piece_offset (suc i) ≡ l.piece_offset i + l.piece_length i
piece_offset-suc l i laws h =
    grind (arith, laws.piece_at i, laws.piece_at (suc i), laws.piece_then i h)
