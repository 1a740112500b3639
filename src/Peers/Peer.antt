-- ===== src/Peers/Peer.antt =====
-- src/torrent_state/live/peer/mod.rs: the methods of `Peer`. Each takes the shared counters and
-- returns them, and the clock where it is read.
use librtbit.Base.{
  ℕ, Bool, true, false, ◌&&◌, Option, none, some, List, [], ◌∷◌, ltb, ◌==◌, if◌then◌else◌,
}
use librtbit.Peers.{
  ConnectionKind, LivePeerState, new_live, PeerState, queued, connecting, live, not_needed,
  Counters, inc, dec, incdec, PeerCounters, no_counters,
}

pub record Peer : Type 0 where
  pub addr : ℕ
  pub state : PeerState
  pub counters : PeerCounters
  pub outgoing_address : Option ℕ
  pub last_state_change : ℕ

-- `HashSet::remove` and `HashSet::insert`
unfoldable set_remove : ℕ → List ℕ → List ℕ
set_remove a [] = []
set_remove a (b ∷ bs) = let rest = set_remove a bs in if b == a then rest else b ∷ rest

unfoldable set_insert : ℕ → List ℕ → List ℕ
unfolding set_remove
set_insert a bs = a ∷ set_remove a bs

unfoldable pub new_live_for_incoming_connection :
    ℕ → ℕ → ℕ → ConnectionKind → ℕ → Counters → Peer × Counters
unfolding new_live inc
new_live_for_incoming_connection addr peer_id tx kind now c =
    let state = live (new_live peer_id tx true kind) in
    (
      record {
        addr = addr;
        state = state;
        counters = no_counters;
        outgoing_address = none;
        last_state_change = now;
      },
      record c { session_stats = inc state c.session_stats; stats = inc state c.stats },
    )

unfoldable pub new_with_outgoing_address : ℕ → ℕ → Peer
new_with_outgoing_address addr now = record {
  addr = addr;
  state = queued;
  counters = no_counters;
  outgoing_address = some addr;
  last_state_change = now;
}

abbrev is_live : PeerState → Bool
is_live (live _) = true
is_live _ = false

-- What `set_state` does to `live_outgoing_peers`.
abbrev relist : Option ℕ → PeerState → PeerState → ℕ → List ℕ → List ℕ
relist none old new outgoing_connections peers = peers
relist (some addr) old new outgoing_connections peers =
    let removed = if is_live old then set_remove addr peers else peers in
    if is_live new && ltb 0 outgoing_connections then set_insert addr removed else removed

-- The new peer and counters, and the old state.
unfoldable pub set_state : Peer → PeerState → ℕ → Counters → Peer × Counters × PeerState
unfolding incdec set_remove set_insert
set_state p new now c = (
  record p { state = new; last_state_change = now },
  record {
    session_stats = incdec p.state new c.session_stats;
    stats = incdec p.state new c.stats;
    live_outgoing_peers =
        relist p.outgoing_address p.state new p.counters.outgoing_connections c.live_outgoing_peers;
  },
  p.state,
)

unfoldable pub take_state : Peer → ℕ → Counters → Peer × Counters × PeerState
unfolding set_state
take_state p now c = set_state p queued now c

unfoldable pub destroy : Peer → Counters → Counters
unfolding dec set_remove
destroy p c = record {
  session_stats = dec p.state c.session_stats;
  stats = dec p.state c.stats;
  live_outgoing_peers = elim p.outgoing_address [
    | none ↦ c.live_outgoing_peers
    | some addr ↦
        if is_live p.state then set_remove addr c.live_outgoing_peers else c.live_outgoing_peers
  ];
}

-- The `if let` of `reconnect_not_needed_peer`, over the state.
unfoldable reconnect_not_needed_peer : Peer → ℕ → Counters → Peer × Counters × Option ℕ
unfolding set_state
reconnect_not_needed_peer p now c = elim p.state [
  | not_needed ↦ elim p.outgoing_address [
    | none ↦ (p, c, none)
    | some socket_addr ↦
        if p.addr == socket_addr
        then (let (p', c', _) = set_state p queued now c in (p', c', some socket_addr))
        else (p, c, some socket_addr)
  ]
  | _ ↦ (p, c, none)
]

unfoldable pub get_live : Peer → Option LivePeerState
get_live p = elim p.state [ live l ↦ some l | _ ↦ none ]

-- `tx` is the sending half of the new channel; the answer holds both halves.
unfoldable pub idle_to_connecting : Peer → ℕ → ℕ → Counters → Peer × Counters × Option ℕ
unfolding set_state
idle_to_connecting p tx now c = elim p.state [
  | queued ↦ start
  | not_needed ↦ start
  | _ ↦ (p, c, none)
]
  where
    start : Peer × Counters × Option ℕ
    start = let (p', c', _) = set_state p (connecting tx) now c in (p', c', some tx)

pub data IncomingConnectionResult : Type 0 where
  accepted already_active : IncomingConnectionResult

-- `take_state` puts `Queued` in place before the new state.
unfoldable pub incoming_connection :
    Peer → ℕ → ℕ → ConnectionKind → ℕ → Counters → Peer × Counters × IncomingConnectionResult
unfolding take_state set_state new_live
incoming_connection p peer_id tx kind now c = elim p.state [
  | connecting _ ↦ (p, c, already_active)
  | live _ ↦ (p, c, already_active)
  | _ ↦
      let (p₁, c₁, _) = take_state p now c in
      let (p₂, c₂, _) = set_state p₁ (live (new_live peer_id tx true kind)) now c₁ in
      (p₂, c₂, accepted)
]

unfoldable pub connecting_to_live :
    Peer → ℕ → ConnectionKind → ℕ → Counters → Peer × Counters × Option LivePeerState
unfolding take_state set_state new_live
connecting_to_live p peer_id kind now c = elim p.state [
  | connecting tx ↦
      let (p₁, c₁, _) = take_state p now c in
      let l = new_live peer_id tx false kind in
      let (p₂, c₂, _) = set_state p₁ (live l) now c₁ in (p₂, c₂, some l)
  | _ ↦ (p, c, none)
]

unfoldable pub set_not_needed : Peer → ℕ → Counters → Peer × Counters × PeerState
unfolding set_state
set_not_needed p now c = set_state p not_needed now c
