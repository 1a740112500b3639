-- ===== src/Streaming/Polling.antt =====
-- `poll_read` of src/torrent_state/streaming.rs: what it reads, and that a stream that waits for a
-- piece is woken when the piece is there.
use librtbit.Base.{
  ℕ, ◌+◌, ◌-◌, ◌≤◌, ◌≡◌, ◌≢◌, refl, ◌∙◌, sym, inl, inr, true, false, some, List, [], ◌∷◌, arith,
  ◌==◌, ==_ne, ==→eq, ==_refl, length, take, drop, get_elem?, min, ◌>>=◌, Returns, Bool-cases,
  Option-cases, add64, sub64,
}
use librtbit.Base.Bits.{Bits, bit, contains, index, index-eq-bit}
use librtbit.Base.Assoc.{lookup, insert, lookup-insert}
use librtbit.Lengths.{CurrentPiece, Lengths, Laws}
use librtbit.FileInfo.{FileInfo}
use librtbit.FileOps.{TorrentStorage}
use librtbit.FileOps.Layout.{IsStorage}
use librtbit.Streaming.{
  StreamState, TorrentStreams, FileStream, Source, PollRead, pending, eof, filled, is_at, wake_all,
  wake_streams_on_piece_completed, register_waker, set_position, read_current, poll_have, poll_read,
}

-- The streams know the stream as it is, and it lies in its file and the torrent.
pub record IsOpen (l : Lengths) (fs : FileStream) (ts : TorrentStreams) : Type 0 where
  pub state : StreamState
  pub registered : lookup fs.stream_id ts.streams ≡ some state
  pub same_position : state.position ≡ fs.position
  pub same_offset : state.file_abs_offset ≡ fs.file_torrent_abs_offset
  pub within : fs.position ≤ fs.file_len
  pub in_torrent : fs.file_torrent_abs_offset + fs.file_len ≤ l.total_length

-- Only the stream itself is changed.
abbrev pub SameOthers : ℕ → TorrentStreams → TorrentStreams → Type 0
SameOthers id before after = (j : ℕ) → j ≢ id → lookup j after.streams ≡ lookup j before.streams

-- Only the stream itself is changed, and it stands at the new position or waits.
lookup_other :
    (id : ℕ) (st : StreamState) (m : List (ℕ × StreamState)) (j : ℕ)
    → j ≢ id
    → lookup j (insert id st m) ≡ lookup j m
lookup_other id st m j other = rw (lookup-insert id j st m, ==_ne id j (λ e. other (sym e))) refl

lookup_same :
    (id : ℕ) (st : StreamState) (m : List (ℕ × StreamState)) → lookup id (insert id st m) ≡ some st
lookup_same id st m = rw (lookup-insert id id st m, ==_refl id) refl

module _ {l : Lengths} where
  -- A stream moves inside its file.
  pub set_position-IsOpen :
      (fs : FileStream) (ts : TorrentStreams) (new_pos : ℕ)
      → IsOpen l fs ts
      → new_pos ≤ fs.file_len
      → Returns (set_position fs ts new_pos) (λ result.
        IsOpen l (result.0) (result.1)
        × (result.0 ≡ record fs { position = new_pos })
        × SameOthers fs.stream_id ts (result.1))
  unfolding set_position
  set_position-IsOpen fs ts new_pos o h =
      let st : StreamState = record o.state { position = new_pos } in
      rw (o.registered, ◌>>=◌)
        (
          _,
          refl,
          (
            record {
              state = st;
              registered = lookup_same fs.stream_id st ts.streams;
              same_position = refl;
              same_offset = o.same_offset;
              within = h;
              in_torrent = o.in_torrent;
            },
            refl,
            λ j other. lookup_other fs.stream_id st ts.streams j other,
          ),
        )

  register_waker-Waits :
      (fs : FileStream) (ts : TorrentStreams) (waker : ℕ)
      → IsOpen l fs ts
      → (o : IsOpen l fs (register_waker ts fs.stream_id waker)) × (o.state.waker ≡ some waker)
        × SameOthers fs.stream_id ts (register_waker ts fs.stream_id waker)
  unfolding register_waker
  register_waker-Waits fs ts waker o =
      let st : StreamState = record o.state { waker = some waker } in
      let now : register_waker ts fs.stream_id waker
          ≡ record ts { streams = insert fs.stream_id st ts.streams } =
        rw (register_waker, o.registered) refl in
      rw now (
        record {
          state = st;
          registered = lookup_same fs.stream_id st ts.streams;
          same_position = o.same_position;
          same_offset = o.same_offset;
          within = o.within;
          in_torrent = o.in_torrent;
        },
        refl,
        λ j other. lookup_other fs.stream_id st ts.streams j other,
      )

-- The outcomes of a poll, on a file with the bytes `bytes` and with the pieces `have` had.
pub data Polled (l : Lengths) (have : Bits) (bytes : List ℕ) (waker buf_len : ℕ) (fs : FileStream)
    : PollRead → FileStream → TorrentStreams → Type 0 where
  at_end :
      {ts : TorrentStreams}
      → fs.position ≡ fs.file_len
      → Polled l have bytes waker buf_len fs eof fs ts
  waits :
      {ts : TorrentStreams} (current : CurrentPiece) (o : IsOpen l fs ts)
      → l.compute_current_piece fs.position fs.file_torrent_abs_offset ≡ some current
      → bit have current.id ≡ false
      → o.state.waker ≡ some waker
      → Polled l have bytes waker buf_len fs pending fs ts
  reads :
      {fs' : FileStream} {ts : TorrentStreams} (current : CurrentPiece)
      → l.compute_current_piece fs.position fs.file_torrent_abs_offset ≡ some current
      → bit have current.id ≡ true
      → fs' ≡ record fs {
        position =
            fs.position + min (min buf_len current.piece_remaining) (fs.file_len - fs.position);
      }
      → Polled l have bytes waker buf_len fs
          (filled (
            take
              (min (min buf_len current.piece_remaining) (fs.file_len - fs.position))
              (drop fs.position bytes)))
          fs'
          ts

-- The torrent is paused or live, and gives the stream's file, which has its length.
pub record IsReadable {S : Type 0} (view : S → ℕ → List ℕ) (l : Lengths) (source : Source S)
    (have : Bits) (s : S) (fs : FileStream) : Type 0 where
  pub fi : FileInfo
  pub tracked : source.have_pieces ≡ some have
  pub stored : source.files ≡ some s
  pub file : get_elem? source.file_infos fs.file_id ≡ some fi
  pub sized : length (view s fs.file_id) ≡ fs.file_len
  pub every_piece : l.total_pieces ≤ length have

module _ {S : Type 0} {storage : TorrentStorage S} {view : S → ℕ → List ℕ}
    (lawful : IsStorage storage view) {l : Lengths} (laws : Laws l) where
  read_current-Polled :
      (source : Source S) (have : Bits) (s : S) (fs : FileStream) (ts : TorrentStreams)
      (waker buf_len : ℕ) (current : CurrentPiece)
      → IsReadable view l source have s fs
      → IsOpen l fs ts
      → l.compute_current_piece fs.position fs.file_torrent_abs_offset ≡ some current
      → bit have current.id ≡ true
      → Returns (read_current storage source fs ts buf_len current) (λ (r, fs', ts').
        IsOpen l fs' ts'
        × SameOthers fs.stream_id ts ts'
        × Polled l have (view s fs.file_id) waker buf_len fs r fs' ts')
  unfolding read_current
  read_current-Polled source have s fs ts waker buf_len current readable o found had =
      let n : ℕ = min (min buf_len current.piece_remaining) (fs.file_len - fs.position) in
      let whole : n ≡ min (min buf_len current.piece_remaining) (sub64 fs.file_len fs.position) =
        omega (arith, o.within, o.in_torrent, laws.total_length_u64) in
      let read : storage.pread_exact s fs.file_id fs.position n
          ≡ some (take n (drop fs.position (view s fs.file_id))) =
        lawful.reads s fs.file_id fs.position n (omega (arith, readable.sized, o.within)) in
      let moved : add64 fs.position
            (min (min buf_len current.piece_remaining) (sub64 fs.file_len fs.position))
          ≡ fs.position + n =
        omega (arith, o.within, o.in_torrent, laws.total_length_u64) in
      let (after, set, (o', now, others)) =
        set_position-IsOpen fs ts (fs.position + n) o (omega (arith, o.within)) in
      rw (read_current, ← whole, readable.stored, readable.file, ◌>>=◌, read, moved, set)
        (_, refl, (o', others, reads current found had now))

  -- On an open stream of a readable file, `poll_read` does not panic or fail. At the end of the
  -- file it says so. If the piece at the position is not had, the stream waits, with the waker
  -- registered. Otherwise the buffer gets the file's next bytes, as many as there are up to the end
  -- of the buffer, the piece and the file, and the stream moves on by them. The stream is open
  -- afterwards, and other streams are not touched.
  pub poll_read-Polled :
      (source : Source S) (have : Bits) (s : S) (fs : FileStream) (ts : TorrentStreams)
      (waker buf_len : ℕ)
      → IsReadable view l source have s fs
      → IsOpen l fs ts
      → Returns (poll_read storage source l fs ts waker buf_len) (λ (r, fs', ts').
        IsOpen l fs' ts'
        × SameOthers fs.stream_id ts ts'
        × Polled l have (view s fs.file_id) waker buf_len fs r fs' ts')
  unfolding poll_read poll_have read_current
  poll_read-Polled source have s fs ts waker buf_len readable o =
      elim (Bool-cases (fs.position == fs.file_len)) [
        | inl over ↦
            rw over (_, refl, (o, λ j other. refl, at_end (==→eq fs.position fs.file_len over)))
        | inr more ↦
            elim (Option-cases (l.compute_current_piece fs.position fs.file_torrent_abs_offset)) [
              | inl missing ↦ absurd (
                  laws.current_some fs.position fs.file_torrent_abs_offset
                    (ground (arith, o.within, o.in_torrent)) missing)
              | inr (current, found) ↦
                  let valid =
                    (laws.current_at fs.position fs.file_torrent_abs_offset current found).0 in
                  let had : index have current.id ≡ some (bit have current.id) =
                    index-eq-bit have current.id (omega (arith, readable.every_piece)) in
                  elim (Bool-cases (bit have current.id)) [
                    | inl yes_had ↦
                        rw (more, found, readable.tracked, had, ◌>>=◌, yes_had)
                          (read_current-Polled source have s fs ts waker buf_len current readable o
                            found yes_had)
                    | inr not_had ↦
                        let (o', waiting, others) = register_waker-Waits fs ts waker o in
                        rw (more, found, readable.tracked, had, ◌>>=◌, not_had)
                          (_, refl, (o', others, waits current o' found not_had waiting))
                  ]
            ]
      ]

wake_all-contains :
    (l : Lengths) (piece_id id w : ℕ) (m : List (ℕ × StreamState)) (st : StreamState)
    → lookup id m ≡ some st
    → is_at l piece_id st ≡ true
    → st.waker ≡ some w
    → contains ((wake_all l piece_id m).0) w ≡ true
unfolding lookup
wake_all-contains l piece_id id w [] st e at waiting = cc
wake_all-contains l piece_id id w ((i, s) ∷ m) st e at waiting = elim (Bool-cases (i == id)) [
  | inl here ↦ let same : s ≡ st = ground arith in rw (same, at, waiting) (ground arith)
  | inr there ↦
      let rest : contains ((wake_all l piece_id m).0) w ≡ true =
        wake_all-contains l piece_id id w m st (ground arith) at waiting in
      elim (Bool-cases (is_at l piece_id s)) [
        | inl also ↦ elim (Option-cases s.waker) [
          | inl silent ↦ rw (also, silent) rest
          | inr (v, speaks) ↦ rw (also, speaks) (ground (arith, rest))
        ]
        | inr elsewhere ↦ rw elsewhere rest
      ]
]

-- The stream waits for the piece, and the piece's completion calls its waker.
abbrev pub WokenBy : Lengths → Bits → ℕ → FileStream → TorrentStreams → TorrentStreams → Type 0
WokenBy l have waker fs ts' later =
    lookup fs.stream_id later.streams ≡ lookup fs.stream_id ts'.streams
    → (current : CurrentPiece) × (l.compute_current_piece fs.position fs.file_torrent_abs_offset
        ≡ some current)
      × (bit have current.id ≡ false)
      × (contains ((wake_streams_on_piece_completed current.id l later).0) waker ≡ true)

Polled-WokenBy :
    {l : Lengths} {have : Bits} {bytes : List ℕ} {waker buf_len : ℕ} {fs : FileStream}
    {r : PollRead} {fs' : FileStream} {ts' : TorrentStreams}
    → Polled l have bytes waker buf_len fs r fs' ts'
    → r ≡ pending
    → (later : TorrentStreams) → WokenBy l have waker fs ts' later
unfolding wake_streams_on_piece_completed
Polled-WokenBy (at_end e) same later untouched = absurd (cc)
Polled-WokenBy (reads current found had now) same later untouched = absurd (cc)
Polled-WokenBy {l = l} {waker = waker} {fs = fs} (waits current o found missing waiting) same later
      untouched =
    let at : is_at l current.id o.state ≡ true =
      rw (is_at, o.same_position, o.same_offset, found) (==_refl current.id) in
    (
      current,
      found,
      missing,
      wake_all-contains l current.id fs.stream_id waker later.streams o.state
          (untouched ∙ o.registered) at waiting,
    )

module _ {S : Type 0} {storage : TorrentStorage S} {view : S → ℕ → List ℕ}
    (lawful : IsStorage storage view) {l : Lengths} (laws : Laws l) where
  -- A poll of an open stream of a readable file that is left pending waits for a piece that is not
  -- had. When that piece is completed the waker is called, if the stream's own entry is still as
  -- the poll left it, whatever happened to other streams since.
  pub poll_read-woken :
      (source : Source S) (have : Bits) (s : S) (fs : FileStream) (ts : TorrentStreams)
      (waker buf_len : ℕ)
      → IsReadable view l source have s fs
      → IsOpen l fs ts
      → Returns (poll_read storage source l fs ts waker buf_len) (λ (r, fs', ts').
        r ≡ pending → (later : TorrentStreams) → WokenBy l have waker fs ts' later)
  poll_read-woken source have s fs ts waker buf_len readable o =
      let (out, run, (o', others, polled)) =
        poll_read-Polled lawful laws source have s fs ts waker buf_len readable o in
      (out, run, λ same later. Polled-WokenBy polled same later)
