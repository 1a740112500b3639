-- ===== src/Samples.antt =====
-- A torrent of three pieces for the tests: two of 32768 bytes, each of two chunks, and one of one
-- byte. Its first file has the first two pieces, its second one the last.
pub mod Disk
use librtbit.Base.{
  ℕ, ◌+◌, ◌-◌, ◌*◌, ◌/◌, refl, Bool, true, false, Option, none, some, List, [], ◌∷◌, arith, ltb,
  if◌then◌else◌,
}
use librtbit.Base.Bits.{Bits}
use librtbit.Lengths.{ChunkInfo, CurrentPiece, Lengths, Laws, piece_infos_from}
use librtbit.FileInfo.{FileInfo}
use librtbit.ChunkTracker.{ChunkTracker}
use librtbit.ChunkTracker.Pieces.{IsSized, IsValid}
use librtbit.PieceTracker.{PieceTracker, AcquireRequest}
use librtbit.PieceTracker.Invariant.{Inv}

abbrev pub piece_length : ℕ → ℕ
piece_length i = if ltb i 2 then 32768 else 1

abbrev pub chunks_per_piece : ℕ → ℕ
chunks_per_piece i = if ltb i 2 then 2 else 1

abbrev chunk_of : ℕ → ℕ → ℕ → Option ChunkInfo
chunk_of p begin len =
    if ltb (begin / 16384) (chunks_per_piece p)
    then some (record { piece_index = p; chunk_index = begin / 16384; size = len; offset = begin })
    else none

abbrev current_piece : ℕ → ℕ → Option CurrentPiece
current_piece pos offset =
    let i = (offset + pos) / 32768 in
    if ltb (offset + pos) 65537
    then some (record { id = i; piece_remaining = 32768 * i + piece_length i - (offset + pos) })
    else none

abbrev pub lengths : Lengths
lengths = record {
  total_pieces = 3;
  total_length = 65537;
  default_piece_length = 32768;
  default_chunks_per_piece = 2;
  piece_bitfield_bytes = 1;
  chunk_bitfield_bytes = 1;
  piece_length = piece_length;
  chunks_per_piece = chunks_per_piece;
  chunk_range = λ i. record { start = 2 * i; end = 2 * i + chunks_per_piece i };
  iter_piece_infos = piece_infos_from piece_length 0 3;
  validate_piece_index = λ i. if ltb i 3 then some i else none;
  chunk_info_from_received_data = chunk_of;
  size_of_piece_in_file = λ p offset len. piece_length p;
  piece_offset = λ i. 32768 * i;
  chunk_absolute_offset = λ c. 32768 * c.piece_index + c.offset;
  compute_current_piece = current_piece;
}

pub lengths-Laws : Laws lengths
lengths-Laws = record {
  enumerates = refl;
  adds_up = refl;
  total_length_u64 = omega arith;
  total_pieces_u32 = omega arith;
  validates = λ i. refl;
  pieces_fit = omega arith;
  chunks_fit = λ i h. ground arith;
  start_u32 = λ i h. omega arith;
  range_start = λ i. refl;
  range_end = λ i. refl;
  some_chunks = λ i h. ground arith;
  few_chunks = λ i. ground arith;
  chunk_of_piece = λ p begin len c e. ground arith;
  length_some = omega arith;
  covered = omega arith;
  piece_at = λ i. refl;
  piece_then = λ i h. ground arith;
  piece_inside = λ i h. ground arith;
  piece_some = λ i h. ground arith;
  chunk_at = λ c. refl;
  current_some = λ pos offset h. ground arith;
  current_at = λ pos offset c e. ground arith;
}

abbrev pub files : List FileInfo
files =
    record {
      relative_filename = "a";
      offset_in_torrent = 0;
      piece_range = record { start = 0; end = 2 };
      attrs = record { padding = false };
      len = 65536;
    }
    ∷ record {
      relative_filename = "b";
      offset_in_torrent = 65536;
      piece_range = record { start = 2; end = 3 };
      attrs = record { padding = false };
      len = 1;
    }
    ∷ []

abbrev of_three : Bool → Bool → Bool → Bits
of_three a b c = a ∷ b ∷ c ∷ false ∷ false ∷ false ∷ false ∷ false ∷ []

-- Piece 0 is had, piece 1 is queued, piece 2 is in flight and not selected.
abbrev pub chunks : ChunkTracker
chunks = record {
  queue_pieces = of_three false true false;
  chunk_status = true ∷ true ∷ false ∷ false ∷ false ∷ false ∷ false ∷ false ∷ [];
  have = of_three true false false;
  selected = of_three true true false;
  per_file_bytes = 32768 ∷ 0 ∷ [];
  lengths = lengths;
  hns = record { have_bytes = 32768; needed_bytes = 32768; selected_bytes = 65536 };
}

pub chunks-IsSized : IsSized chunks
chunks-IsSized = record {
  laws = lengths-Laws;
  have_sized = refl;
  selected_sized = refl;
  queue_sized = refl;
  chunks_sized = refl;
}

pub chunks-IsValid : IsValid chunks
chunks-IsValid = record { sized = chunks-IsSized; synced = refl }

-- Peer 7 downloads piece 2 since the time 100.
abbrev pub tracker : PieceTracker
tracker = record { chunks = chunks; inflight = (2, record { peer = 7; started = 100 }) ∷ [] }

pub tracker-Inv : Inv tracker
tracker-Inv = record {
  valid = chunks-IsValid;
  is_map = (refl, tt);
  known = λ i e. ground arith;
  flying_not_had = λ i e. ground arith;
  flying_not_queued = λ i e. ground arith;
  had_not_queued = λ i h e. ground arith;
}

-- The same, when piece 2 was taken out of flight.
abbrev pub idle : PieceTracker
idle = record tracker { inflight = [] }

pub idle-Inv : Inv idle
idle-Inv = record {
  valid = chunks-IsValid;
  is_map = tt;
  known = λ i e. absurd (cc);
  flying_not_had = λ i e. cc;
  flying_not_queued = λ i e. cc;
  had_not_queued = λ i h e. ground arith;
}

-- Peer 8 has every piece, takes 20 for a piece on average, and may steal.
abbrev pub request : AcquireRequest
request = record {
  peer = 8;
  peer_avg_time = some 20;
  priority_pieces = 0 ∷ [];
  file_priorities = 0 ∷ 1 ∷ [];
  file_infos = files;
  peer_has_piece = λ p. true;
  can_steal = λ p. true;
}
