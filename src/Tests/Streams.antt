-- ===== src/Tests/Streams.antt =====
-- The theorems on src/torrent_state/streaming.rs, at the torrent of `Samples.Disk`.
use librtbit.Base.{
  ℕ, ◌+◌, ◌*◌, ◌≤◌, ◌<◌, ◌≡◌, ◌↔◌, refl, Bool, true, false, none, some, List, [], ◌∷◌, arith,
  Returns,
}
use librtbit.Base.Assoc.{lookup}
use librtbit.Base.Bits.{Bits, contains}
use librtbit.Streaming.{
  StreamState, TorrentStreams, FileStream, Source, pending, queue, queues, iter_next_pieces,
  poll_read, start_seek, end_backward,
}
use librtbit.Streaming.Interleave.{columns, longest}
use librtbit.Streaming.Queues.{Fits, queue-covers, iter_next_pieces-columns}
use librtbit.Streaming.Polling.{
  IsOpen, IsReadable, SameOthers, Polled, WokenBy, poll_read-Polled, poll_read-woken,
}
use librtbit.Streaming.Seeking.{start_seek-Aims}
use librtbit.Samples.Disk.{
  Memory, lengths, lengths-Laws, files, memory, view, memory-IsStorage, disk,
}

-- At the fourth byte of the first file, and at the start of the last one.
abbrev first : StreamState
first = record { file_id = 0; file_len = 5; file_abs_offset = 0; position = 3; waker = none }

abbrev last : StreamState
last = record { file_id = 2; file_len = 2; file_abs_offset = 8; position = 0; waker = none }

abbrev streams : TorrentStreams
streams = record { next_stream_id = 2; streams = (0, first) ∷ (1, last) ∷ [] }

abbrev stream : FileStream
stream = record {
  stream_id = 0;
  file_id = 0;
  position = 3;
  file_len = 5;
  file_torrent_abs_offset = 0;
}

stream-IsOpen : IsOpen lengths stream streams
unfolding lookup
stream-IsOpen = record {
  state = first;
  registered = refl;
  same_position = refl;
  same_offset = refl;
  within = omega arith;
  in_torrent = omega arith;
}

abbrev having : Bool → Bits
having b = b ∷ false ∷ false ∷ false ∷ false ∷ false ∷ false ∷ false ∷ []

abbrev source : Bool → Source Memory
source b = record { have_pieces = some (having b); files = some disk; file_infos = files }

stream-IsReadable : (b : Bool) → IsReadable view lengths (source b) (having b) disk stream
stream-IsReadable b = record {
  fi = _;
  tracked = refl;
  stored = refl;
  file = refl;
  sized = refl;
  every_piece = omega arith;
}

poll_read-Polled_example :
    Returns (poll_read memory (source true) lengths stream streams 9 10) (λ (r, fs', ts').
      IsOpen lengths fs' ts'
      × SameOthers 0 streams ts'
      × Polled lengths (having true) (1 ∷ 2 ∷ 3 ∷ 4 ∷ 5 ∷ []) 9 10 stream r fs' ts')
poll_read-Polled_example =
    poll_read-Polled memory-IsStorage lengths-Laws (source true) (having true) disk stream streams 9
      10 (stream-IsReadable true) stream-IsOpen

poll_read-woken_example :
    Returns (poll_read memory (source false) lengths stream streams 9 10) (λ (r, fs', ts').
      r ≡ pending → (later : TorrentStreams) → WokenBy lengths (having false) 9 stream ts' later)
poll_read-woken_example =
    poll_read-woken memory-IsStorage lengths-Laws (source false) (having false) disk stream streams
      9 10 (stream-IsReadable false) stream-IsOpen

first-Fits : Fits lengths first
first-Fits = record { in_torrent = omega arith; in_file = omega arith; small = omega arith }

last-Fits : Fits lengths last
last-Fits = record { in_torrent = omega arith; in_file = omega arith; small = omega arith }

queue-covers_example :
    Returns
      (queue lengths first)
      (λ q. (i : ℕ) → (contains q i ≡ true) ↔ ((i * 4 < 5) × (3 < (i + 1) * 4)))
queue-covers_example = queue-covers lengths first lengths-Laws first-Fits

iter_next_pieces-columns_example : Returns (iter_next_pieces (λ qs. qs) lengths streams) (λ ps.
    (qs : List (List ℕ)) × (queues lengths ((0, first) ∷ (1, last) ∷ []) ≡ some qs)
    × (ps ≡ columns 0 (longest qs) qs))
iter_next_pieces-columns_example =
    iter_next_pieces-columns (λ qs. qs) lengths streams lengths-Laws (first-Fits, (last-Fits, tt))

start_seek-Aims_example : Returns (start_seek stream streams (end_backward 2)) (λ (ok, fs', ts').
    IsOpen lengths fs' ts'
    × SameOthers 0 streams ts'
    × (ok ≡ true
        → (fs' ≡ record stream { position = fs'.position })
          × (fs'.position ≤ 5)
          × (fs'.position + 2 ≡ 5))
    × (ok ≡ false → (fs' ≡ stream) × (ts' ≡ streams) × ((p : ℕ) → p ≤ 5 → ¬ (p + 2 ≡ 5))))
start_seek-Aims_example =
    start_seek-Aims lengths stream streams (end_backward 2) (omega arith) stream-IsOpen
