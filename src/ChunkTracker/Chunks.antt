-- ===== src/ChunkTracker/Chunks.antt =====
-- src/chunk_tracker.rs: `mark_chunk_downloaded`.
pub mod Marking
use librtbit.Base.{
  ℕ, ◌+◌, Bool, true, false, Option, none, some, ◌>>=◌, ltb, ◌&&◌, if◌then◌else◌, ◌-◌,
}
use librtbit.Base.Bits.{Bits, Range, set_bit, all_range}
use librtbit.Lengths.{ChunkInfo}
use librtbit.ChunkTracker.{ChunkTracker}

pub data ChunkMarkingResult : Type 0 where
  previously_completed not_completed completed : ChunkMarkingResult

-- `peer_binary_protocol::Piece`, by what the tracker reads of it; `len` is the length of its data.
pub record Piece : Type 0 where
  pub index : ℕ
  pub begin : ℕ
  pub len : ℕ

-- `chunk_range.set(i, true)`: the slice of the chunk bits panics past its own end.
abbrev pub set_in_range : Bits → Range → ℕ → Option Bits
set_in_range bits r i = if ltb i (r.end - r.start) then set_bit bits (r.start + i) true else none

-- What is done once the received data is known to be a chunk. The outer `none` is a panic.
pub mark_chunk : ChunkTracker → ChunkInfo → Option (ChunkTracker × ChunkMarkingResult)
mark_chunk ct c =
    let r = ct.lengths.chunk_range c.piece_index in
    do
      before ← all_range ct.chunk_status r
      if before then some (ct, previously_completed) else (do
        bits ← set_in_range ct.chunk_status r c.chunk_index
        after ← all_range bits r
        some (record ct { chunk_status = bits }, if after then completed else not_completed))

-- The inner `none` is the method's own: the data is no chunk of the torrent.
pub mark_chunk_downloaded : ChunkTracker → Piece → Option (ChunkTracker × Option ChunkMarkingResult)
unfolding mark_chunk
mark_chunk_downloaded ct piece = elim (ct.lengths.validate_piece_index piece.index) [
  | none ↦ some (ct, none)
  | some p ↦ elim (ct.lengths.chunk_info_from_received_data p piece.begin piece.len) [
    | none ↦ some (ct, none)
    | some c ↦ do (ct', r) ← mark_chunk ct c; some (ct', some r)
  ]
]
