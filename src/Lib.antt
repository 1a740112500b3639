-- ===== src/Lib.antt =====
-- A model of librtbit, a BitTorrent client library in Rust: how a torrent's files are checked, read
-- and written; which piece each peer downloads, and the table of peers; the streams that read the
-- files meanwhile; the states of a torrent; and who may use the HTTP interface.
--
-- The program's parts and where they are:
--   src/file_info.rs                            FileInfo: a file's range of pieces and their order
--   src/chunk_tracker.rs                        ChunkTracker: pieces had, selected and queued, chunks
--     written, and the byte counts; Chunks for received data, Files for the methods over the files
--   src/piece_tracker.rs                        PieceTracker: the pieces in flight, requests, theft
--   src/torrent_state/live/peer/mod.rs          Peers.Peer: the states of one peer
--   src/torrent_state/live/peer/stats/atomic.rs Peers: a peer's own counters
--   src/torrent_state/live/peers/stats/mod.rs   Peers: the counters of the peers in each state
--   src/torrent_state/live/peers/mod.rs         Peers.States: the table
--   src/torrent_state/live/mod.rs               Peers.States.add_incoming_peer, and the
--     requeueing of dead peers in Live
--   src/torrent_state/live/peer_handler.rs      Live: what one peer's handler does to both
--   src/file_ops.rs                             FileOps: chunks and pieces across the files, over
--     the trait of src/storage/mod.rs; FileOps.Initial for the check of the whole torrent
--   src/torrent_state/initializing.rs           TorrentState.Initializing: the pieces at the start
--   src/torrent_state/mod.rs                    TorrentState.Managed: the state machine
--   src/torrent_state/paused.rs                 TorrentState: what a paused torrent keeps
--   src/torrent_state/streaming.rs              Streaming: look-ahead, polls, wakers and seeks
--   src/read_buf.rs                             ReadBuf: the ring buffer of a peer's connection
--   src/http_api/auth.rs                        Auth.Tokens, Auth.Gate: tokens, credentials and the
--     handlers of /auth; from src/http_api/mod.rs the check of the main router, and the routes
--   src/http_api/handlers/qbit_compat.rs        Auth.Qbit: the sessions of /api/v2 and their check
-- Lengths is the arithmetic of pieces and chunks, which another crate supplies: it is a value that
-- the model is given, with `Lengths.Laws` as what is relied on. Base has what all share.
--
-- How state and operations correspond: a struct is a record with the source's fields, a method that
-- takes `&mut self` is a function from the record to the new record, and `Option` stands for a
-- panic or an error (`none`). `PieceTracker` holds a `ChunkTracker` as in the source. Each method
-- of the tracker runs under the torrent's lock, so a history is a sequence of calls
-- (PieceTracker.Invariant.History). Live joins the tracker, which is missing once the torrent is
-- paused, to the table. The counters of peers are atomics that wrap at 2^32; the table's methods
-- are taken as single steps (Peers.History), with the steps of other torrents on the session's
-- counters between them. FileOps takes its bytes from a storage that is an argument, and its
-- theorems speak of the torrent as the files' bytes one after the other (FileOps.Layout).
-- TorrentState joins FileOps, ChunkTracker, PieceTracker and Streaming: the check makes the tracker
-- of a paused torrent, a start gives that to a piece tracker, and a pause takes it back. Auth
-- handles one request at a time (Auth.Sessions) and stands by itself; Auth.Race interleaves two.
-- Sums of bytes wrap at 2^64. A file system, the clock, channels and logging are left out: a method
-- that reads the clock is given the time, one that sends is given the channel and returns what it
-- sends. Loops run over lists and end with them, but for three: the rounds of
-- `ReadBuf.read_message`, which it is given a bound for; the reads of a file or of a piece in
-- FileOps, whose fuel is the number of bytes to read, enough since each round reads one; and the
-- iterator of `Streaming.iter_next_pieces`, whose fuel is the number of pieces in the queues, each
-- of which it yields once. The parser of messages and the socket are parameters of ReadBuf; the
-- hasher, the random choices and the store of bit fields are parameters where they are used.
--
-- Not modelled: sockets and the wire protocol's parsers, the storage engines, the rest of the HTTP
-- interface, the session, RSS, DHT and UPnP, which are input and output around these parts or
-- belong to other crates, as does a peer's back-off timer.
pub mod Base
pub mod Lengths
pub mod FileInfo
pub mod ChunkTracker
pub mod PieceTracker
pub mod FileOps
pub mod Streaming
pub mod Peers
pub mod Live
pub mod TorrentState
pub mod ReadBuf
pub mod Auth
pub mod Samples
pub mod Tests
