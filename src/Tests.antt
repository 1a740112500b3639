-- ===== src/Tests.antt =====
-- Runs of the theorems on the torrent of `Samples`.
mod Chunks
mod Tracker
mod PeerTable
mod Handler
mod Buffer
mod Files
mod Streams
mod States
mod Access
