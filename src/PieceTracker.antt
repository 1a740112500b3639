-- ===== src/PieceTracker.antt =====
-- src/piece_tracker.rs: the chunk tracker with the pieces in flight. `HashMap` is an association
-- list over the piece's number, a peer's address is a number, `Instant` and `Duration` are numbers
-- of nanoseconds; the clock is read once for each call (`now`). `none` is a panic.
pub mod Steal
pub mod Invariant
use librtbit.Base.{
  ℕ, ◌+◌, ◌-◌, Bool, true, false, not, ◌&&◌, ◌||◌, Option, none, some, List, [], ◌∷◌, ◌>>=◌, leb,
  ◌==◌, if◌then◌else◌, length,
}
use librtbit.Base.Assoc.{lookup, insert, remove, contains_key, keys}
use librtbit.FileInfo.{FileInfo}
use librtbit.ChunkTracker.{
  ChunkTracker, HaveNeededSelected, reserve_needed_piece, is_piece_have,
  mark_piece_broken_if_not_have, mark_piece_downloaded,
}
use librtbit.ChunkTracker.Chunks.{Piece, ChunkMarkingResult}
use librtbit.ChunkTracker.Chunks
use librtbit.ChunkTracker.Files.{iter_queued_pieces}
use librtbit.ChunkTracker.Files

pub record InflightPiece : Type 0 where
  pub peer : ℕ
  pub started : ℕ

pub data AcquireResult : Type 0 where
  reserved : ℕ → AcquireResult
  stolen : ℕ → ℕ → AcquireResult
  none_available : AcquireResult

pub record AcquireRequest : Type 0 where
  pub peer : ℕ
  pub peer_avg_time : Option ℕ
  pub priority_pieces : List ℕ
  pub file_priorities : List ℕ
  pub file_infos : List FileInfo
  pub peer_has_piece : ℕ → Bool
  pub can_steal : ℕ → Bool

pub record PieceTracker : Type 0 where
  pub chunks : ChunkTracker
  pub inflight : List (ℕ × InflightPiece)

unfoldable pub new : ChunkTracker → PieceTracker
new chunks = record { chunks = chunks; inflight = [] }

-- `mark_piece_broken_if_not_have` on each of the pieces.
pub mark_all_broken : ChunkTracker → List ℕ → Option ChunkTracker
mark_all_broken ct [] = some ct
mark_all_broken ct (p ∷ ps) = do ct' ← mark_piece_broken_if_not_have ct p; mark_all_broken ct' ps

pub into_chunks : PieceTracker → Option ChunkTracker
unfolding mark_all_broken
into_chunks pt = mark_all_broken pt.chunks (keys pt.inflight)

-- `started.elapsed()`, which is 0 for an instant in the future
abbrev pub elapsed : ℕ → InflightPiece → ℕ
elapsed now info = now - info.started

-- The three filters of `try_steal`.
abbrev pub is_candidate : AcquireRequest → ℕ → ℕ → ℕ × InflightPiece → Bool
is_candidate req now min_elapsed (p, info) =
    not (info.peer == req.peer) && req.peer_has_piece p && leb min_elapsed (elapsed now info)

-- One step of `max_by_key(elapsed)` over the candidates, which keeps the last of the greatest.
abbrev pub better :
    AcquireRequest
    → ℕ
    → ℕ
    → Option (ℕ × InflightPiece)
    → ℕ × InflightPiece
    → Option (ℕ × InflightPiece)
better req now min_elapsed none e = if is_candidate req now min_elapsed e then some e else none
better req now min_elapsed (some b) e =
    if is_candidate req now min_elapsed e && leb (elapsed now b.1) (elapsed now e.1)
    then some e
    else some b

unfoldable pub slowest :
    AcquireRequest
    → ℕ
    → ℕ
    → Option (ℕ × InflightPiece)
    → List (ℕ × InflightPiece)
    → Option (ℕ × InflightPiece)
slowest req now min_elapsed best [] = best
slowest req now min_elapsed best (e ∷ es) =
    slowest req now min_elapsed (better req now min_elapsed best e) es

-- `scaled` is `Duration::from_secs_f64(my_avg.as_secs_f64() * threshold)` at the call's threshold.
unfoldable pub try_steal :
    PieceTracker → AcquireRequest → ℕ → (ℕ → ℕ) → Option (PieceTracker × AcquireResult)
unfolding slowest
try_steal pt req now scaled = do
  my_avg ← req.peer_avg_time
  (piece, info) ← slowest req now (scaled my_avg) none pt.inflight
  if req.can_steal piece
      then some (
        record pt {
          inflight = insert piece (record { peer = req.peer; started = now }) pt.inflight;
        },
        stolen piece info.peer,
      )
      else none

pub reserve_piece : PieceTracker → ℕ → ℕ → ℕ → Option (PieceTracker × AcquireResult)
reserve_piece pt now piece peer = do
  chunks ← reserve_needed_piece pt.chunks piece
  some (
    record {
      chunks = chunks;
      inflight = insert piece (record { peer = peer; started = now }) pt.inflight;
    },
    reserved piece,
  )

-- The loop over `priority_pieces`: the first piece that can be had from the peer.
pub first_priority : PieceTracker → AcquireRequest → List ℕ → Option (Option ℕ)
first_priority pt req [] = some none
first_priority pt req (p ∷ ps) = do
  had ← is_piece_have pt.chunks p
  let rest = first_priority pt req ps
  if not had && not (contains_key p pt.inflight) && req.peer_has_piece p
      then some (some p)
      else rest

-- The loop over the queued pieces.
pub first_queued : AcquireRequest → List ℕ → Option ℕ
first_queued req [] = none
first_queued req (p ∷ ps) = if req.peer_has_piece p then some p else first_queued req ps

-- The second step of `acquire_piece`: the piece to reserve, if any.
pub choose_piece : PieceTracker → AcquireRequest → Option (Option ℕ)
unfolding first_priority first_queued
choose_piece pt req = do
  prior ← first_priority pt req req.priority_pieces
  elim prior [
    | some p ↦ some (some p)
    | none ↦ do
      queued ← iter_queued_pieces pt.chunks req.file_priorities req.file_infos
      some (first_queued req queued)
  ]

-- `ten` and `three` are `scaled` at the thresholds 10.0 and 3.0.
pub acquire_piece :
    (ℕ → ℕ) → (ℕ → ℕ) → PieceTracker → ℕ → AcquireRequest → Option (PieceTracker × AcquireResult)
unfolding try_steal reserve_piece choose_piece
acquire_piece ten three pt now req = elim (try_steal pt req now ten) [
  | some r ↦ some r
  | none ↦ do
    chosen ← choose_piece pt req
    elim chosen [
      | some p ↦ reserve_piece pt now p req.peer
      | none ↦ elim (try_steal pt req now three) [
        | some r ↦ some r
        | none ↦ some (pt, none_available)
      ]
    ]
]

unfoldable pub take_inflight : PieceTracker → ℕ → ℕ → PieceTracker × Option ℕ
take_inflight pt now piece = elim (lookup piece pt.inflight) [
  | none ↦ (pt, none)
  | some info ↦ (record pt { inflight = remove piece pt.inflight }, some (elapsed now info))
]

pub mark_piece_hash_ok : PieceTracker → ℕ → Option PieceTracker
mark_piece_hash_ok pt piece = do
  chunks ← mark_piece_downloaded pt.chunks piece
  some (record pt { chunks = chunks })

pub mark_piece_hash_failed : PieceTracker → ℕ → Option PieceTracker
mark_piece_hash_failed pt piece = do
  chunks ← mark_piece_broken_if_not_have pt.chunks piece
  some (record pt { chunks = chunks })

-- The pieces that `release_pieces_owned_by` collects.
abbrev pub owned_by : ℕ → List (ℕ × InflightPiece) → List ℕ
owned_by peer [] = []
owned_by peer ((p, info) ∷ m) =
    let rest = owned_by peer m in if info.peer == peer then p ∷ rest else rest

-- The body of the loop of `release_pieces_owned_by`.
pub release_one : PieceTracker → ℕ → Option PieceTracker
release_one pt p = do
  chunks ← mark_piece_broken_if_not_have pt.chunks p
  some (record { chunks = chunks; inflight = remove p pt.inflight })

pub release_all : PieceTracker → List ℕ → Option PieceTracker
release_all pt [] = some pt
release_all pt (p ∷ ps) = do pt' ← release_one pt p; release_all pt' ps

pub release_pieces_owned_by : PieceTracker → ℕ → Option (PieceTracker × ℕ)
unfolding release_all release_one
release_pieces_owned_by pt peer = do
  let pieces_to_release = owned_by peer pt.inflight
  pt' ← release_all pt pieces_to_release
  some (pt', length pieces_to_release)

unfoldable pub get_inflight : PieceTracker → ℕ → Option InflightPiece
get_inflight pt piece = lookup piece pt.inflight

unfoldable is_inflight : PieceTracker → ℕ → Bool
is_inflight pt piece = contains_key piece pt.inflight

unfoldable inflight_count : PieceTracker → ℕ
inflight_count pt = length pt.inflight

unfoldable pub mark_chunk_downloaded :
    PieceTracker → Piece → Option (PieceTracker × Option ChunkMarkingResult)
mark_chunk_downloaded pt piece = do
  (chunks, r) ← Chunks.mark_chunk_downloaded pt.chunks piece
  some (record pt { chunks = chunks }, r)

unfoldable pub update_only_files :
    PieceTracker → List FileInfo → (ℕ → Bool) → Option (PieceTracker × HaveNeededSelected)
update_only_files pt file_infos new_only_files = do
  (chunks, hns) ← Files.update_only_files pt.chunks file_infos new_only_files
  some (record pt { chunks = chunks }, hns)

unfoldable pub update_file_have_on_piece_completed :
    PieceTracker → ℕ → ℕ → FileInfo → Option (PieceTracker × ℕ)
update_file_have_on_piece_completed pt piece_id file_id file_info = do
  (chunks, remaining) ←
      Files.update_file_have_on_piece_completed pt.chunks piece_id file_id file_info
  some (record pt { chunks = chunks }, remaining)
