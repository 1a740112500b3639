-- ===== src/Peers.antt =====
-- src/torrent_state/live/peer/mod.rs, peer/stats/atomic.rs and peers/stats/mod.rs: the state of a
-- peer, and the counters of the peers in each state. An address, an identifier, a channel and an
-- `Instant` are numbers. The atomic counters wrap. A peer's `backoff` belongs to another crate and
-- is left out.
pub mod Peer
pub mod States
pub mod Tally
pub mod Keeps
pub mod Methods
pub mod Turnover
pub mod History
pub mod Pruning
use librtbit.Base.{
  ℕ, ◌+◌, ◌*◌, ◌/◌, ◌%◌, ◌^◌, Bool, true, false, ◌||◌, ◌&&◌, Option, none, some, List, [], ◌∷◌,
  ◌==◌, if◌then◌else◌, add32, sub32, add64,
}
use librtbit.Base.Bits.{Bits, Range, all_range}
use librtbit.Lengths.{ChunkInfo}

pub data ConnectionKind : Type 0 where
  tcp utp socks : ConnectionKind

pub record LivePeerState : Type 0 where
  pub peer_id : ℕ
  pub peer_interested : Bool
  pub bitfield : Bits
  pub inflight_requests : List ChunkInfo
  pub tx : ℕ
  pub connection_kind : ConnectionKind

pub new_live : ℕ → ℕ → Bool → ConnectionKind → LivePeerState
new_live peer_id tx initial_interested kind = record {
  peer_id = peer_id;
  peer_interested = initial_interested;
  bitfield = [];
  inflight_requests = [];
  tx = tx;
  connection_kind = kind;
}

pub has_full_torrent : LivePeerState → ℕ → Bool
has_full_torrent l total_pieces =
    elim (all_range l.bitfield (record { start = 0; end = total_pieces })) [
      | none ↦ false
      | some all ↦ all
    ]

pub data PeerState : Type 0 where
  queued : PeerState
  connecting : ℕ → PeerState
  live : LivePeerState → PeerState
  dead : PeerState
  not_needed : PeerState

unfoldable take_live_no_counters : PeerState → Option LivePeerState
take_live_no_counters (live l) = some l
take_live_no_counters _ = none

-- `AggregatePeerStatsAtomic`
pub record AggregatePeerStats : Type 0 where
  pub queued : ℕ
  pub connecting : ℕ
  pub live : ℕ
  pub live_tcp : ℕ
  pub live_utp : ℕ
  pub live_socks : ℕ
  pub seen : ℕ
  pub dead : ℕ
  pub not_needed : ℕ
  pub steals : ℕ

-- The counter of a state, and of a live peer's connection, changed by `f`.
abbrev at_counter : (ℕ → ℕ) → PeerState → AggregatePeerStats → AggregatePeerStats
at_counter f (connecting _) s = record s { connecting = f s.connecting }
at_counter f (live _) s = record s { live = f s.live }
at_counter f queued s = record s { queued = f s.queued }
at_counter f dead s = record s { dead = f s.dead }
at_counter f not_needed s = record s { not_needed = f s.not_needed }

abbrev at_live_kind : (ℕ → ℕ) → ConnectionKind → AggregatePeerStats → AggregatePeerStats
at_live_kind f tcp s = record s { live_tcp = f s.live_tcp }
at_live_kind f utp s = record s { live_utp = f s.live_utp }
at_live_kind f socks s = record s { live_socks = f s.live_socks }

abbrev at_state : (ℕ → ℕ) → PeerState → AggregatePeerStats → AggregatePeerStats
at_state f (live l) s = at_counter f (live l) (at_live_kind f l.connection_kind s)
at_state f queued s = at_counter f queued s
at_state f (connecting t) s = at_counter f (connecting t) s
at_state f dead s = at_counter f dead s
at_state f not_needed s = at_counter f not_needed s

pub inc : PeerState → AggregatePeerStats → AggregatePeerStats
inc = at_state (λ n. add32 n 1)

pub dec : PeerState → AggregatePeerStats → AggregatePeerStats
dec = at_state (λ n. sub32 n 1)

pub incdec : PeerState → PeerState → AggregatePeerStats → AggregatePeerStats
unfolding inc dec
incdec old new s = inc new (dec old s)

pub inc_steals : AggregatePeerStats → AggregatePeerStats
inc_steals s = record s { steals = add32 s.steals 1 }

-- The shared part of `PeerStates`: the counters of the session and of the torrent, and the live
-- addresses that were connected to.
pub record Counters : Type 0 where
  pub session_stats : AggregatePeerStats
  pub stats : AggregatePeerStats
  pub live_outgoing_peers : List ℕ

-- `PeerCountersAtomic`
pub record PeerCounters : Type 0 where
  pub fetched_bytes : ℕ
  pub uploaded_bytes : ℕ
  pub total_time_connecting_ms : ℕ
  pub incoming_connections : ℕ
  pub outgoing_connection_attempts : ℕ
  pub outgoing_connections : ℕ
  pub errors : ℕ
  pub fetched_chunks : ℕ
  pub downloaded_and_checked_pieces : ℕ
  pub downloaded_and_checked_bytes : ℕ
  pub total_piece_download_ms : ℕ
  pub times_stolen_from_me : ℕ
  pub times_i_stole : ℕ

abbrev pub no_counters : PeerCounters
no_counters = record {
  fetched_bytes = 0;
  uploaded_bytes = 0;
  total_time_connecting_ms = 0;
  incoming_connections = 0;
  outgoing_connection_attempts = 0;
  outgoing_connections = 0;
  errors = 0;
  fetched_chunks = 0;
  downloaded_and_checked_pieces = 0;
  downloaded_and_checked_bytes = 0;
  total_piece_download_ms = 0;
  times_stolen_from_me = 0;
  times_i_stole = 0;
}

-- `elapsed` in milliseconds; `as u64` drops what does not fit.
on_piece_completed : PeerCounters → ℕ → ℕ → PeerCounters
on_piece_completed c piece_len elapsed = record c {
  total_piece_download_ms = add64 c.total_piece_download_ms (elapsed % 2 ^ 64);
  downloaded_and_checked_pieces = add32 c.downloaded_and_checked_pieces 1;
  downloaded_and_checked_bytes = add64 c.downloaded_and_checked_bytes piece_len;
}

-- In milliseconds.
pub average_piece_download_time : PeerCounters → Option ℕ
average_piece_download_time c =
    if c.total_piece_download_ms == 0 || c.downloaded_and_checked_pieces == 0
    then none
    else some (c.total_piece_download_ms / c.downloaded_and_checked_pieces)
