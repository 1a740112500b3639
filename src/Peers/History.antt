-- ===== src/Peers/History.antt =====
-- A torrent's table of peers over time: the calls of src/torrent_state/live/peers/mod.rs that are
-- made while the torrent is live, the incoming connections of src/torrent_state/live/mod.rs, and the
-- changes that other torrents make to the counters of the session.
use librtbit.Base.{ℕ, ◌+◌, ◌%◌, ◌<◌, ◌≡◌, Bool, [], arith}
use librtbit.Base.Bits.{Bits}
use librtbit.Peers.{ConnectionKind, PeerState, AggregatePeerStats, inc, dec}
use librtbit.Peers.Peer.{connecting_to_live, set_state}
use librtbit.Peers.States.{
  PeerStates, add_if_not_seen, with_peer_mut, drop_peer, mark_peer_interested, update_bitfield,
  mark_peer_connecting, mark_peer_not_needed, on_steal, prune_dead_peers, destroy_all,
  add_incoming_peer,
}
use librtbit.Peers.Tally.{Class, count_of, is_in, members}
use librtbit.Peers.Keeps
use librtbit.Peers.Methods
use librtbit.Peers.Turnover

abbrev pub zero_stats : AggregatePeerStats
zero_stats = record {
  queued = 0;
  connecting = 0;
  live = 0;
  live_tcp = 0;
  live_utp = 0;
  live_socks = 0;
  seen = 0;
  dead = 0;
  not_needed = 0;
  steals = 0;
}

-- The table of a torrent that starts, in a session with the counters `session_stats`.
abbrev pub new_states : AggregatePeerStats → PeerStates
new_states session_stats = record {
  counters = record { session_stats = session_stats; stats = zero_stats; live_outgoing_peers = [] };
  states = [];
}

abbrev with_session_stats : AggregatePeerStats → PeerStates → PeerStates
with_session_stats s ps = record ps { counters = record ps.counters { session_stats = s } }

-- `Step base ps base' ps'`: `ps` becomes `ps'`, and the peers of other torrents are counted by `base`
-- before and by `base'` after.
pub data Step : (Class → ℕ) → PeerStates → (Class → ℕ) → PeerStates → Type 0 where
  added :
      (base : Class → ℕ) (ps : PeerStates) (addr now : ℕ)
      → Step base ps base (add_if_not_seen ps addr now).0
  connecting :
      (base : Class → ℕ) (ps : PeerStates) (addr tx now : ℕ)
      → Step base ps base (mark_peer_connecting ps addr tx now).0
  connected :
      (base : Class → ℕ) (ps : PeerStates) (addr peer_id now : ℕ) (kind : ConnectionKind)
      → Step base ps base (with_peer_mut ps addr (λ p c. connecting_to_live p peer_id kind now c)).0
  incoming :
      (base : Class → ℕ) (ps : PeerStates) (addr peer_id tx now : ℕ) (kind : ConnectionKind)
      → Step base ps base (add_incoming_peer ps addr peer_id tx kind now).0
  interested :
      (base : Class → ℕ) (ps : PeerStates) (addr : ℕ) (b : Bool)
      → Step base ps base (mark_peer_interested ps addr b).0
  has_pieces :
      (base : Class → ℕ) (ps : PeerStates) (addr : ℕ) (bitfield : Bits)
      → Step base ps base (update_bitfield ps addr bitfield).0
  unneeded :
      (base : Class → ℕ) (ps : PeerStates) (addr now : ℕ)
      → Step base ps base (mark_peer_not_needed ps addr now).0
  changed :
      (base : Class → ℕ) (ps : PeerStates) (addr : ℕ) (new : PeerState) (now : ℕ)
      → Step base ps base (with_peer_mut ps addr (λ p c. set_state p new now c)).0
  stolen :
      (base : Class → ℕ) (ps : PeerStates) (from_peer to_peer piece : ℕ)
      → Step base ps base (on_steal ps from_peer to_peer piece).0
  dropped :
      (base : Class → ℕ) (ps : PeerStates) (addr : ℕ) → Step base ps base (drop_peer ps addr).0
  pruned :
      (base : Class → ℕ) (ps : PeerStates) (now retention : ℕ)
      → Step base ps base (prune_dead_peers ps now retention).0
  other_gained :
      (base : Class → ℕ) (ps : PeerStates) (st : PeerState)
      → Step base ps
          (λ c. base c + is_in c st)
          (with_session_stats (inc st ps.counters.session_stats) ps)
  other_lost :
      (base : Class → ℕ) (ps : PeerStates) (st : PeerState)
      → Step
          (λ c. base c + is_in c st)
          ps
          base
          (with_session_stats (dec st ps.counters.session_stats) ps)

pub data Reach : (Class → ℕ) → PeerStates → Type 0 where
  start :
      (base : Class → ℕ) (s : AggregatePeerStats)
      → ((c : Class) → count_of c s ≡ base c % 4294967296)
      → Reach base (new_states s)
  step :
      (base base' : Class → ℕ) (ps ps' : PeerStates)
      → Reach base ps
      → Step base ps base' ps'
      → Reach base' ps'

Step-IsCounted :
    (base base' : Class → ℕ) (ps ps' : PeerStates)
    → Step base ps base' ps'
    → Keeps.IsCounted base ps
    → Keeps.IsCounted base' ps'
Step-IsCounted _ _ _ _ (added base ps addr now) t =
    Methods.add_if_not_seen-IsCounted base ps t addr now
Step-IsCounted _ _ _ _ (connecting base ps addr tx now) t =
    Methods.mark_peer_connecting-IsCounted base ps t addr tx now
Step-IsCounted _ _ _ _ (connected base ps addr peer_id now kind) t =
    Methods.connecting_to_live-IsCounted base ps t addr peer_id now kind
Step-IsCounted _ _ _ _ (incoming base ps addr peer_id tx now kind) t =
    Turnover.add_incoming_peer-IsCounted base ps t addr peer_id tx now kind
Step-IsCounted _ _ _ _ (interested base ps addr b) t =
    Methods.mark_peer_interested-IsCounted base ps t addr b
Step-IsCounted _ _ _ _ (has_pieces base ps addr b) t =
    Methods.update_bitfield-IsCounted base ps t addr b
Step-IsCounted _ _ _ _ (unneeded base ps addr now) t =
    Methods.mark_peer_not_needed-IsCounted base ps t addr now
Step-IsCounted _ _ _ _ (changed base ps addr new now) t =
    Turnover.set_state-IsCounted base ps t addr new now
Step-IsCounted _ _ _ _ (stolen base ps from_peer to_peer piece) t =
    Methods.on_steal-IsCounted base ps t from_peer to_peer piece
Step-IsCounted _ _ _ _ (dropped base ps addr) t = Methods.drop_peer-IsCounted base ps t addr
Step-IsCounted _ _ _ _ (pruned base ps now retention) t =
    Turnover.prune_dead_peers-IsCounted base ps t now retention
Step-IsCounted _ _ _ _ (other_gained base ps st) t = Turnover.inc-IsCounted base ps t st
Step-IsCounted _ _ _ _ (other_lost base ps st) t = Turnover.dec-IsCounted base ps st t

-- Of a table of peers that starts empty in a session whose counters agree, modulo 2^32, with the
-- peers of its other torrents: after any sequence of the table's methods, incoming connections,
-- changes of a peer's state, and peers of other torrents that come or go, each counter of the
-- torrent is the number of its peers in that state (or live by that kind of connection) and each
-- counter of the session that number on top of the other torrents', both modulo 2^32.
pub Reach-IsCounted : (base : Class → ℕ) (ps : PeerStates) → Reach base ps → Keeps.IsCounted base ps
Reach-IsCounted _ _ (start base s e) = ((λ c. ground arith), (λ c. ground (arith, e c)))
Reach-IsCounted _ _ (step base base' ps ps' r s) =
    Step-IsCounted base base' ps ps' s (Reach-IsCounted base ps r)

-- In a reachable state with fewer than 2^32 peers of a class, the torrent's counter of that class
-- is their number.
Reach-exact :
    (base : Class → ℕ) (ps : PeerStates)
    → Reach base ps
    → (c : Class) → members c ps.states < 4294967296
    → count_of c ps.counters.stats ≡ members c ps.states
Reach-exact base ps r c small = ground (arith, (Reach-IsCounted base ps r).0 c)

-- When the table of a reachable state is dropped, each counter of the session is again, modulo
-- 2^32, the number of the other torrents' peers.
pub destroy_all-returns :
    (base : Class → ℕ) (ps : PeerStates)
    → Reach base ps
    → (c : Class)
    → count_of c (destroy_all ps.counters ps.states).session_stats ≡ base c % 4294967296
destroy_all-returns base ps r c =
    Turnover.destroy_all-tallied ps.states ps.counters c (base c) ((Reach-IsCounted base ps r).1 c)
