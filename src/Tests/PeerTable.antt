-- ===== src/Tests/PeerTable.antt =====
-- The theorems on src/torrent_state/live/peers/mod.rs at one table.
use librtbit.Base.{ℕ, ◌+◌, ◌≡◌, ◌↔◌, refl, some, [], ◌∷◌, arith, length}
use librtbit.Base.Assoc.{lookup}
use librtbit.Peers.{AggregatePeerStats, tcp, dead}
use librtbit.Peers.Peer.{Peer, new_with_outgoing_address}
use librtbit.Peers.States.{
  PeerStates, add_if_not_seen, destroy_all, prune_dead_peers, add_incoming_peer,
}
use librtbit.Peers.Tally.{Class, in_queue, count_of}
use librtbit.Peers.Keeps.{IsCounted}
use librtbit.Peers.History.{
  Reach, start, step, added, incoming, zero_stats, new_states, Reach-IsCounted, destroy_all-returns,
}
use librtbit.Peers.Pruning.{IsStale, prune_dead_peers-exact}

-- Another torrent of the session has a peer in its queue.
abbrev pub base : Class → ℕ
base in_queue = 1
base _ = 0

abbrev session : AggregatePeerStats
session = record zero_stats { queued = 1; seen = 1 }

-- Peer 9 is found, and peer 7 comes in.
abbrev found : PeerStates
found = (add_if_not_seen (new_states session) 9 100).0

abbrev pub both : PeerStates
both = (add_incoming_peer found 7 77 3 tcp 200).0

found-Reach : Reach base found
found-Reach =
    step base base (new_states session) found (start base session (λ c. ground arith))
      (added base (new_states session) 9 100)

pub both-Reach : Reach base both
both-Reach = step base base found both found-Reach (incoming base found 7 77 3 200 tcp)

Reach-IsCounted_example : IsCounted base both
Reach-IsCounted_example = Reach-IsCounted base both both-Reach

destroy_all-returns_example :
    count_of in_queue (destroy_all both.counters both.states).session_stats ≡ 1
destroy_all-returns_example = destroy_all-returns base both both-Reach in_queue

-- Peer 9 died at 100, and peer 5 is still in the queue.
abbrev settled : PeerStates
settled = record (new_states session) {
  states =
      (9, record (new_with_outgoing_address 9 100) { state = dead })
      ∷ (5, new_with_outgoing_address 5 100)
      ∷ [];
}

prune_dead_peers-exact_example :
    let (ps', pruned) = prune_dead_peers settled 500 300 in
    ((a : ℕ) (p : Peer)
      → (lookup a ps'.states ≡ some p) ↔ ((lookup a settled.states ≡ some p) × ¬ IsStale 500 300 p))
    × (pruned + length ps'.states ≡ 2)
prune_dead_peers-exact_example = prune_dead_peers-exact settled 500 300 (refl, (refl, tt))
