-- ===== src/Peers/Tally.antt =====
-- The counters of src/torrent_state/live/peers/stats/mod.rs against the peers they count. A counter
-- has a class, which says the peers that it counts.
use librtbit.Base.{ℕ, ◌+◌, ◌%◌, ◌≡◌, none, some, List, [], ◌∷◌, arith}
use librtbit.Base.Assoc.{lookup, insert, remove}
use librtbit.Peers.{tcp, utp, socks, PeerState, AggregatePeerStats, inc, dec}
use librtbit.Peers.Peer.{Peer}

pub data Class : Type 0 where
  in_queue in_connecting in_live in_tcp in_utp in_socks in_dead in_not_needed : Class

abbrev pub count_of : Class → AggregatePeerStats → ℕ
count_of in_queue s = s.queued
count_of in_connecting s = s.connecting
count_of in_live s = s.live
count_of in_tcp s = s.live_tcp
count_of in_utp s = s.live_utp
count_of in_socks s = s.live_socks
count_of in_dead s = s.dead
count_of in_not_needed s = s.not_needed

abbrev pub is_in : Class → PeerState → ℕ
is_in in_queue PeerState.queued = 1
is_in in_connecting (PeerState.connecting _) = 1
is_in in_live (PeerState.live _) = 1
is_in in_tcp (PeerState.live l) = elim l.connection_kind [ tcp ↦ 1 | _ ↦ 0 ]
is_in in_utp (PeerState.live l) = elim l.connection_kind [ utp ↦ 1 | _ ↦ 0 ]
is_in in_socks (PeerState.live l) = elim l.connection_kind [ socks ↦ 1 | _ ↦ 0 ]
is_in in_dead PeerState.dead = 1
is_in in_not_needed PeerState.not_needed = 1
is_in _ _ = 0

-- The number of peers of a class.
abbrev pub members : Class → List (ℕ × Peer) → ℕ
members c [] = 0
members c ((addr, p) ∷ m) = is_in c p.state + members c m

pub count_of-inc :
    (c : Class) (st : PeerState) (s : AggregatePeerStats) (n : ℕ)
    → count_of c s ≡ n % 4294967296
    → count_of c (inc st s) ≡ (n + is_in c st) % 4294967296
unfolding inc
count_of-inc c st s n e = ground arith

pub count_of-dec :
    (c : Class) (st : PeerState) (s : AggregatePeerStats) (n : ℕ)
    → count_of c s ≡ (n + is_in c st) % 4294967296
    → count_of c (dec st s) ≡ n % 4294967296
unfolding dec
count_of-dec c st s n e = ground arith

pub members-insert-new :
    (c : Class) (k : ℕ) (p : Peer) (m : List (ℕ × Peer))
    → lookup k m ≡ none
    → members c (insert k p m) ≡ members c m + is_in c p.state
unfolding lookup insert
members-insert-new c k p [] e = omega arith
members-insert-new c k p ((j, q) ∷ m) e = ground (arith, members-insert-new c k p m)

pub members-insert-old :
    (c : Class) (k : ℕ) (p q : Peer) (m : List (ℕ × Peer))
    → lookup k m ≡ some q
    → members c (insert k p m) + is_in c q.state ≡ members c m + is_in c p.state
unfolding lookup insert
members-insert-old c k p q [] e = absurd (cc)
members-insert-old c k p q ((j, r) ∷ m) e = ground (arith, members-insert-old c k p q m)

pub members-remove :
    (c : Class) (k : ℕ) (q : Peer) (m : List (ℕ × Peer))
    → lookup k m ≡ some q
    → members c (remove k m) + is_in c q.state ≡ members c m
unfolding lookup remove
members-remove c k q [] e = absurd (cc)
members-remove c k q ((j, r) ∷ m) e = ground (arith, members-remove c k q m)
