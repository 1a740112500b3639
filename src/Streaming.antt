-- ===== src/Streaming.antt =====
-- src/torrent_state/streaming.rs: the streams that read a torrent's files while it is downloaded,
-- and the pieces that they want next. A waker is a number. The shuffle of the queues, the pieces
-- had and the storage are arguments; so is the rest of the torrent. `none` is a panic where the
-- result is an `Option` of a triple.
pub mod Queues
pub mod Interleave
pub mod Polling
pub mod Seeking
use librtbit.Base.{
  ℕ, zero, suc, ◌+◌, ◌-◌, ◌*◌, ◌/◌, ◌^◌, Bool, true, false, Option, none, some, List, [], ◌∷◌, ◌++◌,
  map, ltb, leb, ◌==◌, if◌then◌else◌, length, range_from, get_elem?, ◌>>=◌, min, add64, sub64,
}
use librtbit.Base.Bits.{Bits, index}
use librtbit.Base.Assoc.{lookup, insert, remove}
use librtbit.Lengths.{CurrentPiece, Lengths}
use librtbit.FileInfo.{FileInfo}
use librtbit.FileOps.{TorrentStorage}

-- 32 mb lookahead
abbrev pub per_stream_buf_default : ℕ
per_stream_buf_default = 32 * 1024 * 1024

pub record StreamState : Type 0 where
  pub file_id : ℕ
  pub file_len : ℕ
  pub file_abs_offset : ℕ
  pub position : ℕ
  pub waker : Option ℕ

pub record TorrentStreams : Type 0 where
  pub next_stream_id : ℕ
  pub streams : List (ℕ × StreamState)

abbrev pub current_piece : Lengths → StreamState → Option CurrentPiece
current_piece l s = l.compute_current_piece s.position s.file_abs_offset

-- A `u64` as a `u32`.
abbrev as_u32 : ℕ → Option ℕ
as_u32 n = if ltb n (2 ^ 32) then some n else none

abbrev pub valid_pieces : Lengths → List ℕ → List ℕ
valid_pieces l [] = []
valid_pieces l (i ∷ ids) =
    let rest = valid_pieces l ids in
    elim (l.validate_piece_index i) [ none ↦ rest | some p ↦ p ∷ rest ]

-- The pieces of the look-ahead. A piece length of 0 is a division by zero, which panics.
pub queue : Lengths → StreamState → Option (List ℕ)
queue l s =
    let start = add64 s.file_abs_offset s.position in
    let end = min (add64 start per_stream_buf_default) (add64 s.file_abs_offset s.file_len) in
    let dpl = l.default_piece_length in
    if dpl == 0 then none else do
      start_id ← as_u32 (start / dpl)
      end_id ← as_u32 ((end + dpl - 1) / dpl)
      some (valid_pieces l (range_from start_id (end_id - start_id)))

-- `Interleave::next`: the next piece, and the iterators left.
abbrev pub next : List (List ℕ) → Option (ℕ × List (List ℕ))
next [] = none
next ([] ∷ its) = next its
next ((piece ∷ it) ∷ its) = some (piece, its ++ (it ∷ []))

-- All that the iterator yields, on fuel.
pub yielded : ℕ → List (List ℕ) → List ℕ
yielded zero all = []
yielded (suc fuel) all = elim (next all) [
  | none ↦ []
  | some (piece, all') ↦ piece ∷ yielded fuel all'
]

abbrev pub total : List (List ℕ) → ℕ
total [] = 0
total (it ∷ its) = length it + total its

abbrev pub queues : Lengths → List (ℕ × StreamState) → Option (List (List ℕ))
queues l [] = some []
queues l ((i, s) ∷ streams) = do q ← queue l s; qs ← queues l streams; some (q ∷ qs)

pub iter_next_pieces : (List (List ℕ) → List (List ℕ)) → Lengths → TorrentStreams → Option (List ℕ)
iter_next_pieces shuffle l ts = do
  all ← queues l ts.streams
  some (yielded (total (shuffle all)) (shuffle all))

-- The identifier, and the streams with the next one.
abbrev next_id : TorrentStreams → ℕ × TorrentStreams
next_id ts = (ts.next_stream_id, record ts { next_stream_id = add64 ts.next_stream_id 1 })

pub register_waker : TorrentStreams → ℕ → ℕ → TorrentStreams
register_waker ts stream_id waker = elim (lookup stream_id ts.streams) [
  | none ↦ ts
  | some s ↦ record ts { streams = insert stream_id (record s { waker = some waker }) ts.streams }
]

drop_stream : TorrentStreams → ℕ → Option StreamState × TorrentStreams
drop_stream ts stream_id =
    (lookup stream_id ts.streams, record ts { streams = remove stream_id ts.streams })

abbrev streamed_file_ids : TorrentStreams → List ℕ
streamed_file_ids ts = map (λ e. e.1.file_id) ts.streams

abbrev is_at : Lengths → ℕ → StreamState → Bool
is_at l piece_id s = elim (current_piece l s) [ none ↦ false | some p ↦ p.id == piece_id ]

-- The wakers called, and the streams without them.
abbrev pub wake_all : Lengths → ℕ → List (ℕ × StreamState) → List ℕ × List (ℕ × StreamState)
wake_all l piece_id [] = ([], [])
wake_all l piece_id ((i, s) ∷ streams) =
    let (woken, rest) = wake_all l piece_id streams in
    if is_at l piece_id s
    then elim s.waker [
      | none ↦ (woken, (i, s) ∷ rest)
      | some w ↦ (w ∷ woken, (i, record s { waker = none }) ∷ rest)
    ]
    else (woken, (i, s) ∷ rest)

pub wake_streams_on_piece_completed : ℕ → Lengths → TorrentStreams → List ℕ × TorrentStreams
wake_streams_on_piece_completed piece_id l ts =
    let (woken, streams) = wake_all l piece_id ts.streams in
    (woken, record ts { streams = streams })

-- `FileStream`, without the handles that it shares.
pub record FileStream : Type 0 where
  pub stream_id : ℕ
  pub file_id : ℕ
  pub position : ℕ
  pub file_len : ℕ
  pub file_torrent_abs_offset : ℕ

pub set_position : FileStream → TorrentStreams → ℕ → Option (FileStream × TorrentStreams)
set_position fs ts new_pos = do
  s ← lookup fs.stream_id ts.streams
  some (
    record fs { position = new_pos },
    record ts { streams = insert fs.stream_id (record s { position = new_pos }) ts.streams },
  )

abbrev pub advance : FileStream → TorrentStreams → ℕ → Option (FileStream × TorrentStreams)
advance fs ts diff = set_position fs ts (add64 fs.position diff)

-- `Poll<io::Result<()>>`, with the bytes put in the buffer.
pub data PollRead : Type 0 where
  pending eof failed : PollRead
  filled : List ℕ → PollRead

-- What the torrent gives: the pieces had, if it has a chunk tracker; its storage, if it is paused or
-- live; and its files.
pub record Source (S : Type 0) : Type 0 where
  pub have_pieces : Option Bits
  pub files : Option S
  pub file_infos : List FileInfo

module _ {S : Type 0} (storage : TorrentStorage S) where
  abbrev with_storage_and_file : {A : Type 0} → Source S → ℕ → (S → FileInfo → A) → Option A
  with_storage_and_file source file_id f = do
    files ← source.files
    fi ← get_elem? source.file_infos file_id
    some (f files fi)

  -- Reads from the piece that is had, up to its end, to the file's end and to the buffer's end.
  pub read_current :
      Source S
      → FileStream
      → TorrentStreams
      → ℕ
      → CurrentPiece
      → Option (PollRead × FileStream × TorrentStreams)
  read_current source fs ts buf_len current =
      let bytes_to_read =
        min (min buf_len current.piece_remaining) (sub64 fs.file_len fs.position) in
      let read =
        with_storage_and_file source fs.file_id
          (λ files fi. storage.pread_exact files fs.file_id fs.position bytes_to_read)
        >>= (λ r. r) in
      elim read [
        | none ↦ some (failed, fs, ts)
        | some bytes ↦ do (fs', ts') ← advance fs ts bytes_to_read; some (filled bytes, fs', ts')
      ]

  pub poll_have :
      Source S
      → FileStream
      → TorrentStreams
      → ℕ
      → ℕ
      → CurrentPiece
      → Option Bits
      → Option (PollRead × FileStream × TorrentStreams)
  poll_have source fs ts waker buf_len current none = some (failed, fs, ts)
  poll_have source fs ts waker buf_len current (some have_pieces) =
      let waits = register_waker ts fs.stream_id waker in
      index have_pieces current.id >>= (λ have.
        if have then read_current source fs ts buf_len current else some (pending, fs, waits))

  pub poll_read :
      Source S
      → Lengths
      → FileStream
      → TorrentStreams
      → ℕ
      → ℕ
      → Option (PollRead × FileStream × TorrentStreams)
  poll_read source l fs ts waker buf_len =
      let current = l.compute_current_piece fs.position fs.file_torrent_abs_offset in
      let read : Option (PollRead × FileStream × TorrentStreams) = elim current [
        | none ↦ some (failed, fs, ts)
        | some piece ↦ poll_have source fs ts waker buf_len piece source.have_pieces
      ] in
      if fs.position == fs.file_len then some (eof, fs, ts) else read

-- `SeekFrom`; an `i64` is the number of bytes forward or backward.
pub data SeekFrom : Type 0 where
  from_start end_forward end_backward current_forward current_backward : ℕ → SeekFrom

-- A `u64` as an `i64`, and an `i64` plus an `i64`, which wraps to a negative number in a release
-- build; `none` is an error here, as a negative position is one later.
abbrev as_i64 : ℕ → Option ℕ
as_i64 n = if ltb n (2 ^ 63) then some n else none

abbrev forward : ℕ → ℕ → Option ℕ
forward base n = as_i64 (base + n)

abbrev backward : ℕ → ℕ → Option ℕ
backward base n = if leb n base then some (base - n) else none

abbrev new_position : FileStream → SeekFrom → Option ℕ
new_position fs (from_start s) = as_i64 s
new_position fs (end_forward n) = as_i64 fs.file_len >>= (λ base. forward base n)
new_position fs (end_backward n) = as_i64 fs.file_len >>= (λ base. backward base n)
new_position fs (current_forward n) = as_i64 fs.position >>= (λ base. forward base n)
new_position fs (current_backward n) = as_i64 fs.position >>= (λ base. backward base n)

-- The target of the seek, if the seek is allowed.
pub seek_target : FileStream → SeekFrom → Option ℕ
seek_target fs position = do
  end_i64 ← as_i64 fs.file_len
  new_pos ← new_position fs position
  if ltb end_i64 new_pos then none else some new_pos

-- Whether the seek succeeded, and what it leaves.
pub start_seek :
    FileStream → TorrentStreams → SeekFrom → Option (Bool × FileStream × TorrentStreams)
start_seek fs ts position = elim (seek_target fs position) [
  | none ↦ some (false, fs, ts)
  | some new_pos ↦ do (fs', ts') ← set_position fs ts new_pos; some (true, fs', ts')
]
