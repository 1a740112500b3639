-- ===== src/TorrentState.antt =====
-- src/torrent_state: the states that a torrent goes through. Here are the parts that they share;
-- `Initializing` is the check of the files at the start and `Managed` the state machine.
pub mod Initializing
pub mod Managed
use librtbit.Base.{ℕ, []}
use librtbit.ChunkTracker.{ChunkTracker}
use librtbit.Streaming.{TorrentStreams}

-- `TorrentStatePaused` of paused.rs; `S` is the storage. What the torrent shares is left out.
pub record TorrentStatePaused (S : Type 0) : Type 0 where
  pub files : S
  pub chunk_tracker : ChunkTracker
  pub streams : TorrentStreams

abbrev pub no_streams : TorrentStreams
no_streams = record { next_stream_id = 0; streams = [] }
