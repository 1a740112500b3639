-- ===== src/Peers/States.antt =====
-- src/torrent_state/live/peers/mod.rs: the table of peers. `DashMap` is an association list; each
-- method runs on its own, as the map's locks make it do for one peer.
use mathlib.Core.Option
use librtbit.Base.{
  ℕ, ◌+◌, ◌-◌, Bool, true, false, not, ◌&&◌, Option, none, some, List, [], ◌∷◌, ltb, ◌==◌,
  if◌then◌else◌, add32,
}
use librtbit.Base.Assoc.{lookup, insert, remove}
use librtbit.Base.Bits.{Bits}
use librtbit.Lengths.{ChunkInfo}
use librtbit.Peers.{
  ConnectionKind, LivePeerState, has_full_torrent, PeerState, dead, not_needed, live,
  AggregatePeerStats, Counters, dec, inc_steals, PeerCounters,
}
use librtbit.Peers.Peer.{
  Peer, new_with_outgoing_address, get_live, set_not_needed, incoming_connection,
  new_live_for_incoming_connection, IncomingConnectionResult, accepted, already_active,
  idle_to_connecting, destroy,
}

pub record PeerStates : Type 0 where
  pub counters : Counters
  pub states : List (ℕ × Peer)

pub data Error : Type 0 where
  bug_invalid_peer_state bug_peer_not_found : Error

abbrev pub see : AggregatePeerStats → AggregatePeerStats
see s = record s { queued = add32 s.queued 1; seen = add32 s.seen 1 }

unfoldable pub add_if_not_seen : PeerStates → ℕ → ℕ → PeerStates × Option ℕ
add_if_not_seen ps addr now = elim (lookup addr ps.states) [
  | some _ ↦ (ps, none)
  | none ↦ (
    record {
      counters = record {
        session_stats = see ps.counters.session_stats;
        stats = see ps.counters.stats;
        live_outgoing_peers = ps.counters.live_outgoing_peers;
      };
      states = insert addr (new_with_outgoing_address addr now) ps.states;
    },
    some addr,
  )
]

abbrev pub count_incoming : Peer → Peer
count_incoming p = record p {
  counters = record p.counters { incoming_connections = add32 p.counters.incoming_connections 1 };
}

abbrev pub count_accepted : IncomingConnectionResult → Peer → Peer
count_accepted accepted p = count_incoming p
count_accepted already_active p = p

-- `TorrentStateLive::add_incoming_peer`, when there is room for a live peer.
unfoldable pub add_incoming_peer :
    PeerStates → ℕ → ℕ → ℕ → ConnectionKind → ℕ → PeerStates × IncomingConnectionResult
unfolding incoming_connection new_live_for_incoming_connection
add_incoming_peer ps addr peer_id tx kind now = elim (lookup addr ps.states) [
  | some p ↦
      let (p', c', r) = incoming_connection p peer_id tx kind now ps.counters in
      (record { counters = c'; states = insert addr (count_accepted r p') ps.states }, r)
  | none ↦
      let c = record ps.counters {
        stats = record ps.counters.stats { seen = add32 ps.counters.stats.seen 1 };
      } in
      let (p', c') = new_live_for_incoming_connection addr peer_id tx kind now c in
      (record { counters = c'; states = insert addr (count_incoming p') ps.states }, accepted)
]

unfoldable with_peer : {R : Type 0} → PeerStates → ℕ → (Peer → R) → Option R
with_peer ps addr f = Option.map f (lookup addr ps.states)

-- `f` may change the peer and, through `PeerStates`, the counters.
unfoldable pub with_peer_mut :
    {R : Type 0} → PeerStates → ℕ → (Peer → Counters → Peer × Counters × R) → PeerStates × Option R
with_peer_mut ps addr f = elim (lookup addr ps.states) [
  | none ↦ (ps, none)
  | some p ↦
      let (p', c', r) = f p ps.counters in
      (record { counters = c'; states = insert addr p' ps.states }, some r)
]

-- `f` on the state of a live peer.
abbrev pub change_live :
    {R : Type 0} → (LivePeerState → LivePeerState × R) → PeerState → PeerState × Option R
change_live f (live l) = let (l', r) = f l in (live l', some r)
change_live f st = (st, none)

unfoldable pub on_live :
    {R : Type 0}
    → (LivePeerState → LivePeerState × R)
    → Peer
    → Counters
    → Peer × Counters × Option R
on_live f p c = let (st, r) = change_live f p.state in (record p { state = st }, c, r)

abbrev flatten {ℓ} : {A : Type ℓ} → Option (Option A) → Option A
flatten none = none
flatten (some o) = o

unfoldable with_live : {R : Type 0} → PeerStates → ℕ → (LivePeerState → R) → Option R
unfolding with_peer get_live
with_live ps addr f = flatten (with_peer ps addr (λ p. Option.map f (get_live p)))

unfoldable pub with_live_mut :
    {R : Type 0} → PeerStates → ℕ → (LivePeerState → LivePeerState × R) → PeerStates × Option R
unfolding with_peer_mut on_live
with_live_mut ps addr f = let (ps', r) = with_peer_mut ps addr (on_live f) in (ps', flatten r)

unfoldable pub drop_peer : PeerStates → ℕ → PeerStates × Option Peer
unfolding dec
drop_peer ps handle = elim (lookup handle ps.states) [
  | none ↦ (ps, none)
  | some p ↦ (
    record {
      counters = record {
        session_stats = dec p.state ps.counters.session_stats;
        stats = dec p.state ps.counters.stats;
        live_outgoing_peers = ps.counters.live_outgoing_peers;
      };
      states = remove handle ps.states;
    },
    some p,
  )
]

unfoldable is_peer_not_interested_and_has_full_torrent : PeerStates → ℕ → ℕ → Bool
unfolding with_live has_full_torrent
is_peer_not_interested_and_has_full_torrent ps handle total_pieces =
    elim (with_live ps handle (λ l. not l.peer_interested && has_full_torrent l total_pieces)) [
      | none ↦ false
      | some b ↦ b
    ]

unfoldable pub mark_peer_interested : PeerStates → ℕ → Bool → PeerStates × Option Bool
unfolding with_live_mut
mark_peer_interested ps handle is_interested =
    with_live_mut ps handle (λ l. (record l { peer_interested = is_interested }, l.peer_interested))

unfoldable pub update_bitfield : PeerStates → ℕ → Bits → PeerStates × Option (Unit {0})
unfolding with_live_mut
update_bitfield ps handle bitfield =
    with_live_mut ps handle (λ l. (record l { bitfield = bitfield }, tt))

pub data ConnectResult : Type 0 where
  ok : ℕ → ConnectResult
  err : Error → ConnectResult

unfoldable pub mark_peer_connecting : PeerStates → ℕ → ℕ → ℕ → PeerStates × ConnectResult
unfolding with_peer_mut idle_to_connecting
mark_peer_connecting ps h tx now =
    let (ps', r) = with_peer_mut ps h (λ p c. idle_to_connecting p tx now c) in
    (
      ps',
      elim r [
        | none ↦ err bug_peer_not_found
        | some none ↦ err bug_invalid_peer_state
        | some (some t) ↦ ok t
      ],
    )

unfoldable pub mark_peer_not_needed : PeerStates → ℕ → ℕ → PeerStates × Option PeerState
unfolding with_peer_mut set_not_needed
mark_peer_not_needed ps handle now = with_peer_mut ps handle (λ p c. set_not_needed p now c)

-- `Message::Cancel`, with the channel that it is sent to.
pub record Cancel : Type 0 where
  pub tx : ℕ
  pub index : ℕ
  pub begin : ℕ
  pub length : ℕ

-- `inflight_requests.retain`: the requests that stay, and the messages sent for the others.
unfoldable cancel_requests : ℕ → ℕ → List ChunkInfo → List ChunkInfo × List Cancel
cancel_requests tx stolen_idx [] = ([], [])
cancel_requests tx stolen_idx (req ∷ reqs) =
    let (kept, sent) = cancel_requests tx stolen_idx reqs in
    if req.piece_index == stolen_idx
    then (
      kept,
      record { tx = tx; index = stolen_idx; begin = req.offset; length = req.size } ∷ sent,
    )
    else (req ∷ kept, sent)

abbrev pub count_steal :
    (PeerCounters → PeerCounters) → Peer → Counters → Peer × Counters × Unit {0}
count_steal f p c = (record p { counters = f p.counters }, c, tt)

abbrev pub i_stole : PeerCounters → PeerCounters
i_stole n = record n { times_i_stole = add32 n.times_i_stole 1 }

abbrev pub stolen_from_me : PeerCounters → PeerCounters
stolen_from_me n = record n { times_stolen_from_me = add32 n.times_stolen_from_me 1 }

abbrev count_steals : Counters → Counters
count_steals c = record c { session_stats = inc_steals c.session_stats; stats = inc_steals c.stats }

-- The table after a steal, and the messages sent.
unfoldable pub on_steal : PeerStates → ℕ → ℕ → ℕ → PeerStates × List Cancel
unfolding with_peer_mut with_live_mut cancel_requests inc_steals
on_steal ps from_peer to_peer stolen_idx =
    let (ps₁, _) = with_peer_mut ps to_peer (count_steal i_stole) in
    let (ps₂, _) = with_peer_mut ps₁ from_peer (count_steal stolen_from_me) in
    let ps₃ = record ps₂ { counters = count_steals ps₂.counters } in
    let (ps₄, sent) = with_live_mut ps₃ from_peer (λ l.
      let (kept, sent) = cancel_requests l.tx stolen_idx l.inflight_requests in
      (record l { inflight_requests = kept }, sent)) in
    (ps₄, elim sent [ none ↦ [] | some s ↦ s ])

-- Whether `prune_dead_peers` drops a peer: `now.duration_since(changed) > retention`.
abbrev pub is_stale : ℕ → ℕ → Peer → Bool
is_stale now retention p =
    elim p.state [ dead ↦ true | not_needed ↦ true | _ ↦ false ]
    && ltb retention (now - p.last_state_change)

abbrev pub uncount : Peer → Counters → Counters
uncount p c = record c { session_stats = dec p.state c.session_stats; stats = dec p.state c.stats }

-- The `retain`: what stays, the counters, and the number dropped.
unfoldable pub prune_from : ℕ → ℕ → Counters → List (ℕ × Peer) → List (ℕ × Peer) × Counters × ℕ
unfolding dec
prune_from now retention c [] = ([], c, 0)
prune_from now retention c ((addr, p) ∷ m) =
    let stale = is_stale now retention p in
    let c' = if stale then uncount p c else c in
    let (kept, c'', pruned) = prune_from now retention c' m in
    if stale then (kept, c'', pruned + 1) else ((addr, p) ∷ kept, c'', pruned)

unfoldable pub prune_dead_peers : PeerStates → ℕ → ℕ → PeerStates × ℕ
unfolding prune_from
prune_dead_peers ps now retention =
    let (kept, c, pruned) = prune_from now retention ps.counters ps.states in
    (record { counters = c; states = kept }, pruned)

-- `Drop`: every peer is destroyed.
unfoldable pub destroy_all : Counters → List (ℕ × Peer) → Counters
unfolding destroy
destroy_all c [] = c
destroy_all c ((addr, p) ∷ m) = destroy_all (destroy p c) m
