-- ===== src/Peers/Keeps.antt =====
-- src/torrent_state/live/peers/mod.rs: changes of one peer that the counters follow.
use librtbit.Base.{ℕ, ◌+◌, ◌%◌, ◌≡◌, refl, true, false, some, List, arith, inl, inr, Option-cases}
use librtbit.Base.Assoc.{lookup, insert, remove}
use librtbit.Peers.{
  ConnectionKind, LivePeerState, new_live, PeerState, queued, connecting, live, dead, not_needed,
  AggregatePeerStats, Counters, dec, incdec, inc_steals, PeerCounters,
}
use librtbit.Peers.Peer.{
  Peer, set_state, take_state, idle_to_connecting, incoming_connection, connecting_to_live,
}
use librtbit.Peers.States.{
  PeerStates, with_peer_mut, with_live_mut, on_live, change_live, see, count_steal,
}
use librtbit.Peers.Tally.{
  Class, count_of, is_in, members, count_of-inc, count_of-dec, members-insert-old, members-remove,
}

-- Each counter is the number of the peers of its class, on top of `base`.
abbrev IsTallied : (Class → ℕ) → AggregatePeerStats → List (ℕ × Peer) → Type 0
IsTallied base s m = (c : Class) → count_of c s ≡ (base c + members c m) % 4294967296

-- `base` counts the peers of the session's other torrents.
abbrev pub IsCounted : (Class → ℕ) → PeerStates → Type 0
IsCounted base ps =
    IsTallied (λ c. 0) ps.counters.stats ps.states
    × IsTallied base ps.counters.session_stats ps.states

-- The counters follow a peer from a state to another.
abbrev Shifts : PeerState → PeerState → AggregatePeerStats → AggregatePeerStats → Type 0
Shifts old new s s' =
    (c : Class) (n : ℕ)
    → count_of c s ≡ (n + is_in c old) % 4294967296
    → count_of c s' ≡ (n + is_in c new) % 4294967296

abbrev pub Follows : PeerState → PeerState → Counters → Counters → Type 0
Follows old new c c' =
    Shifts old new c.stats c'.stats × Shifts old new c.session_stats c'.session_stats

incdec-Shifts : (old new : PeerState) (s : AggregatePeerStats) → Shifts old new s (incdec old new s)
unfolding incdec
incdec-Shifts old new s c n e = count_of-inc c new (dec old s) n (count_of-dec c old s n e)

pub set_state-Follows :
    (p : Peer) (new : PeerState) (now : ℕ) (c : Counters)
    → Follows p.state (set_state p new now c).0.state c (set_state p new now c).1
unfolding set_state
set_state-Follows p new now c =
    (incdec-Shifts p.state new c.stats, incdec-Shifts p.state new c.session_stats)

Follows-refl : (st : PeerState) (c : Counters) → Follows st st c c
Follows-refl st c = ((λ k n e. e), (λ k n e. e))

Follows-trans :
    (a b d : PeerState) (x y z : Counters) → Follows a b x y → Follows b d y z → Follows a d x z
Follows-trans a b d x y z f g = ((λ k n e. g.0 k n (f.0 k n e)), (λ k n e. g.1 k n (f.1 k n e)))

-- A method on one peer that keeps the counters in step.
abbrev IsFollowed : {R : Type 0} → (Peer → Counters → Peer × Counters × R) → Type 0
IsFollowed f = (p : Peer) (c : Counters) → Follows p.state (f p c).0.state c (f p c).1

pub idle_to_connecting-IsFollowed : (tx now : ℕ) → IsFollowed (λ p c. idle_to_connecting p tx now c)
unfolding idle_to_connecting
idle_to_connecting-IsFollowed tx now p c =
    let f = set_state-Follows p (connecting tx) now c in
    ((λ k n e. ground (arith, f.0 k n e)), (λ k n e. ground (arith, f.1 k n e)))

pub incoming_connection-IsFollowed :
    (peer_id tx now : ℕ) (kind : ConnectionKind)
    → IsFollowed (λ p c. incoming_connection p peer_id tx kind now c)
unfolding incoming_connection take_state
incoming_connection-IsFollowed peer_id tx now kind p c =
    let (q, d, _) = take_state p now c in
    let f = set_state-Follows p queued now c in
    let g = set_state-Follows q (live (new_live peer_id tx true kind)) now d in
    (
      (λ k n e. ground (arith, f.0 k n e, g.0 k n (f.0 k n e))),
      (λ k n e. ground (arith, f.1 k n e, g.1 k n (f.1 k n e))),
    )

change_live-is_in :
    {R : Type 0} (f : LivePeerState → LivePeerState × R)
    → ((l : LivePeerState) → (f l).0.connection_kind ≡ l.connection_kind)
    → (k : Class) (st : PeerState) → is_in k (change_live f st).0 ≡ is_in k st
change_live-is_in f same k (live l) = ground (arith, same l)
change_live-is_in f same k queued = refl
change_live-is_in f same k (connecting t) = refl
change_live-is_in f same k dead = refl
change_live-is_in f same k not_needed = refl

on_live-IsFollowed :
    {R : Type 0} (f : LivePeerState → LivePeerState × R)
    → ((l : LivePeerState) → (f l).0.connection_kind ≡ l.connection_kind)
    → IsFollowed (on_live f)
unfolding on_live
on_live-IsFollowed f same p c =
    let e : (k : Class) → is_in k (on_live f p c).0.state ≡ is_in k p.state =
      λ k. change_live-is_in f same k p.state in
    ((λ k n r. ground (arith, e k)), (λ k n r. ground (arith, e k)))

abbrev tx_of : PeerState → ℕ
tx_of (connecting tx) = tx
tx_of _ = 0

pub connecting_to_live-IsFollowed :
    (peer_id now : ℕ) (kind : ConnectionKind)
    → IsFollowed (λ p c. connecting_to_live p peer_id kind now c)
unfolding connecting_to_live take_state
connecting_to_live-IsFollowed peer_id now kind p c =
    let (q, d, _) = take_state p now c in
    let l : PeerState = live (new_live peer_id (tx_of p.state) false kind) in
    let f = set_state-Follows p queued now c in
    let g = set_state-Follows q l now d in
    (
      (λ k n e. ground (arith, f.0 k n e, g.0 k n (f.0 k n e))),
      (λ k n e. ground (arith, f.1 k n e, g.1 k n (f.1 k n e))),
    )

pub insert-IsTallied :
    (base : Class → ℕ) (addr : ℕ) (p p' : Peer) (s s' : AggregatePeerStats) (m : List (ℕ × Peer))
    → lookup addr m ≡ some p
    → Shifts p.state p'.state s s'
    → IsTallied base s m
    → IsTallied base s' (insert addr p' m)
insert-IsTallied base addr p p' s s' m found f t c =
    let rest = members-remove c addr p m found in
    let new = members-insert-old c addr p' p m found in
    let before : count_of c s
        ≡ (base c + members c (remove addr m) + is_in c p.state) % 4294967296 =
      ground (arith, t c) in
    ground (arith, f c (base c + members c (remove addr m)) before)

pub with_peer_mut-IsCounted :
    {R : Type 0} (f : Peer → Counters → Peer × Counters × R)
    → IsFollowed f
    → (base : Class → ℕ) (ps : PeerStates) (addr : ℕ) → IsCounted base ps
    → IsCounted base (with_peer_mut ps addr f).0
unfolding with_peer_mut
with_peer_mut-IsCounted f follows base ps addr t = elim (Option-cases (lookup addr ps.states)) [
  | inl missing ↦ rw (missing, with_peer_mut) t
  | inr (p, found) ↦
      rw (found, with_peer_mut)
        (
          insert-IsTallied (λ c. 0) addr p _ _ _ ps.states found (follows p ps.counters).0 t.0,
          insert-IsTallied base addr p _ _ _ ps.states found (follows p ps.counters).1 t.1,
        )
]

pub with_live_mut-IsCounted :
    {R : Type 0} (f : LivePeerState → LivePeerState × R)
    → ((l : LivePeerState) → (f l).0.connection_kind ≡ l.connection_kind)
    → (base : Class → ℕ) (ps : PeerStates) (addr : ℕ) → IsCounted base ps
    → IsCounted base (with_live_mut ps addr f).0
unfolding with_live_mut
with_live_mut-IsCounted f same base ps addr t =
    with_peer_mut-IsCounted (on_live f) (on_live-IsFollowed f same) base ps addr t

pub count_steal-IsFollowed : (f : PeerCounters → PeerCounters) → IsFollowed (count_steal f)
count_steal-IsFollowed f p c = Follows-refl p.state c

pub see-counts :
    (c : Class) (s : AggregatePeerStats) (n : ℕ)
    → count_of c s ≡ n % 4294967296
    → count_of c (see s) ≡ (n + is_in c queued) % 4294967296
see-counts c s n e = ground arith

pub inc_steals-counts :
    (c : Class) (s : AggregatePeerStats) → count_of c (inc_steals s) ≡ count_of c s
unfolding inc_steals
inc_steals-counts c s = ground arith
