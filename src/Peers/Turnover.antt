-- ===== src/Peers/Turnover.antt =====
-- src/torrent_state/live/peers/mod.rs: peers that come in or go by the table, and the peers of
-- other torrents, leave the counters right.
use librtbit.Base.{
  ℕ, ◌+◌, ◌%◌, ◌≡◌, refl, add32, List, [], ◌∷◌, arith, inl, inr, Option-cases, Bool-cases,
}
use librtbit.Base.Assoc.{lookup, insert}
use librtbit.Peers.{ConnectionKind, PeerState, Counters, inc, dec}
use librtbit.Peers.Peer.{
  Peer, IncomingConnectionResult, accepted, already_active, set_state, incoming_connection, destroy,
  new_live_for_incoming_connection,
}
use librtbit.Peers.States.{
  PeerStates, add_incoming_peer, count_accepted, count_incoming, with_peer_mut, is_stale,
  prune_from, uncount, prune_dead_peers, destroy_all,
}
use librtbit.Peers.Tally.{
  Class, count_of, is_in, members, count_of-inc, count_of-dec, members-insert-new,
}
use librtbit.Peers.Keeps.{
  IsCounted, Follows, set_state-Follows, incoming_connection-IsFollowed, insert-IsTallied,
  with_peer_mut-IsCounted,
}

prune_from-IsTallied :
    (now retention : ℕ) (m : List (ℕ × Peer)) (k : Counters) (c : Class) (n : ℕ)
    → let r = prune_from now retention k m in
      (count_of c k.stats ≡ (n + members c m) % 4294967296
        → count_of c r.1.stats ≡ (n + members c r.0) % 4294967296)
      × (count_of c k.session_stats ≡ (n + members c m) % 4294967296
          → count_of c r.1.session_stats ≡ (n + members c r.0) % 4294967296)
unfolding prune_from
prune_from-IsTallied now retention [] k c n = ((λ e. e), (λ e. e))
prune_from-IsTallied now retention ((addr, p) ∷ m) k c n =
    elim (Bool-cases (is_stale now retention p)) [
      | inl stale ↦
          let f = prune_from-IsTallied now retention m (uncount p k) c n in
          (
            (λ e.
                rw (stale, prune_from)
                  (f.0 (count_of-dec c p.state k.stats (n + members c m) (ground arith)))),
            (λ e.
                rw (stale, prune_from)
                  (f.1 (count_of-dec c p.state k.session_stats (n + members c m) (ground arith)))),
          )
      | inr fresh ↦
          let f = prune_from-IsTallied now retention m k c (n + is_in c p.state) in
          (
            (λ e. rw (fresh, prune_from) (ground (arith, f.0))),
            (λ e. rw (fresh, prune_from) (ground (arith, f.1))),
          )
    ]

pub destroy_all-tallied :
    (m : List (ℕ × Peer)) (k : Counters) (c : Class) (n : ℕ)
    → count_of c k.session_stats ≡ (n + members c m) % 4294967296
    → count_of c (destroy_all k m).session_stats ≡ n % 4294967296
unfolding destroy_all destroy
destroy_all-tallied [] k c n e = ground arith
destroy_all-tallied ((addr, p) ∷ m) k c n e =
    destroy_all-tallied m (destroy p k) c n
      (count_of-dec c p.state k.session_stats (n + members c m) (ground arith))

new_live-counts :
    (addr peer_id tx now : ℕ) (kind : ConnectionKind) (c : Counters) (n : ℕ) (k : Class)
    → let r = new_live_for_incoming_connection addr peer_id tx kind now c in
      (count_of k c.stats ≡ n % 4294967296
        → count_of k r.1.stats ≡ (n + is_in k r.0.state) % 4294967296)
      × (count_of k c.session_stats ≡ n % 4294967296
          → count_of k r.1.session_stats ≡ (n + is_in k r.0.state) % 4294967296)
unfolding new_live_for_incoming_connection
new_live-counts addr peer_id tx now kind c n k =
    (count_of-inc k _ c.stats n, count_of-inc k _ c.session_stats n)

counted : (r : IncomingConnectionResult) (p : Peer) → (count_accepted r p).state ≡ p.state
counted accepted p = refl
counted already_active p = refl

module _ (base : Class → ℕ) (ps : PeerStates) where
  pub inc-IsCounted :
      IsCounted base ps
      → (st : PeerState)
      → IsCounted
          (λ c. base c + is_in c st)
          (record ps {
            counters = record ps.counters { session_stats = inc st ps.counters.session_stats };
          })
  inc-IsCounted t st =
      (t.0, (λ c. ground (arith, count_of-inc c st ps.counters.session_stats _ (t.1 c))))

  pub dec-IsCounted :
      (st : PeerState)
      → IsCounted (λ c. base c + is_in c st) ps
      → IsCounted base (record ps {
        counters = record ps.counters { session_stats = dec st ps.counters.session_stats };
      })
  dec-IsCounted st t = (
    t.0,
    (λ c.
        count_of-dec c st ps.counters.session_stats (base c + members c ps.states)
          (ground (arith, t.1 c))),
  )

  pub set_state-IsCounted :
      IsCounted base ps
      → (addr : ℕ) (new : PeerState) (now : ℕ)
      → IsCounted base (with_peer_mut ps addr (λ p c. set_state p new now c)).0
  set_state-IsCounted t addr new now =
      with_peer_mut-IsCounted (λ p c. set_state p new now c) (λ p c. set_state-Follows p new now c)
        base ps addr t

  pub prune_dead_peers-IsCounted :
      IsCounted base ps → (now retention : ℕ) → IsCounted base (prune_dead_peers ps now retention).0
  unfolding prune_dead_peers
  prune_dead_peers-IsCounted t now retention = (
    (λ c. (prune_from-IsTallied now retention ps.states ps.counters c 0).0 (t.0 c)),
    (λ c. (prune_from-IsTallied now retention ps.states ps.counters c (base c)).1 (t.1 c)),
  )

  pub add_incoming_peer-IsCounted :
      IsCounted base ps
      → (addr peer_id tx now : ℕ) (kind : ConnectionKind)
      → IsCounted base (add_incoming_peer ps addr peer_id tx kind now).0
  unfolding add_incoming_peer
  add_incoming_peer-IsCounted t addr peer_id tx now kind =
      elim (Option-cases (lookup addr ps.states)) [
        | inl missing ↦
            let c : Counters = record ps.counters {
              stats = record ps.counters.stats { seen = add32 ps.counters.stats.seen 1 };
            } in
            let (p, d) = new_live_for_incoming_connection addr peer_id tx kind now c in
            let f = new_live-counts addr peer_id tx now kind c in
            let i : (k : Class)
                → members k (insert addr (count_incoming p) ps.states)
                  ≡ members k ps.states + is_in k p.state =
              λ k. members-insert-new k addr (count_incoming p) ps.states missing in
            rw (missing, add_incoming_peer)
              (
                (λ k. ground (arith, (f (members k ps.states) k).0, t.0 k, i k)),
                (λ k. ground (arith, (f (base k + members k ps.states) k).1, t.1 k, i k)),
              )
        | inr (p, found) ↦
            let (p', c', r) = incoming_connection p peer_id tx kind now ps.counters in
            let f = incoming_connection-IsFollowed peer_id tx now kind p ps.counters in
            let f' : Follows p.state (count_accepted r p').state ps.counters c' =
              rw (counted r p') f in
            rw (found, add_incoming_peer)
              (
                insert-IsTallied (λ c. 0) addr p (count_accepted r p') _ _ ps.states found f'.0 t.0,
                insert-IsTallied base addr p (count_accepted r p') _ _ ps.states found f'.1 t.1,
              )
      ]
