-- ===== src/Peers/Methods.antt =====
-- src/torrent_state/live/peers/mod.rs: methods of the table that leave the counters right.
use librtbit.Base.{ℕ, refl, Bool, arith, inl, inr, Option-cases}
use librtbit.Base.Assoc.{lookup}
use librtbit.Base.Bits.{Bits}
use librtbit.Peers.{ConnectionKind, not_needed}
use librtbit.Peers.Peer.{
  new_with_outgoing_address, set_state, idle_to_connecting, incoming_connection, connecting_to_live,
  set_not_needed,
}
use librtbit.Peers.States.{
  PeerStates, add_if_not_seen, with_peer_mut, drop_peer, mark_peer_interested, update_bitfield,
  mark_peer_connecting, mark_peer_not_needed, on_steal, count_steal, i_stole, stolen_from_me,
}
use librtbit.Peers.Tally.{Class, count_of-dec, members-insert-new, members-remove}
use librtbit.Peers.Keeps.{
  IsCounted, set_state-Follows, idle_to_connecting-IsFollowed, incoming_connection-IsFollowed,
  connecting_to_live-IsFollowed, with_peer_mut-IsCounted, with_live_mut-IsCounted,
  count_steal-IsFollowed, see-counts, inc_steals-counts,
}

module _ (base : Class → ℕ) (ps : PeerStates) (t : IsCounted base ps) where
  pub add_if_not_seen-IsCounted : (addr now : ℕ) → IsCounted base (add_if_not_seen ps addr now).0
  unfolding add_if_not_seen new_with_outgoing_address
  add_if_not_seen-IsCounted addr now = elim (Option-cases (lookup addr ps.states)) [
    | inl missing ↦
        rw (missing, add_if_not_seen)
          (
            (λ c. ground (
              arith,
              see-counts c ps.counters.stats _ (t.0 c),
              members-insert-new c addr (new_with_outgoing_address addr now) ps.states missing,
            )),
            (λ c. ground (
              arith,
              see-counts c ps.counters.session_stats _ (t.1 c),
              members-insert-new c addr (new_with_outgoing_address addr now) ps.states missing,
            )),
          )
    | inr (p, found) ↦ rw (found, add_if_not_seen) t
  ]

  pub drop_peer-IsCounted : (handle : ℕ) → IsCounted base (drop_peer ps handle).0
  unfolding drop_peer
  drop_peer-IsCounted handle = elim (Option-cases (lookup handle ps.states)) [
    | inl missing ↦ rw (missing, drop_peer) t
    | inr (p, found) ↦
        rw (found, drop_peer)
          (
            (λ c.
                count_of-dec c p.state ps.counters.stats _
                  (ground (arith, t.0 c, members-remove c handle p ps.states found))),
            (λ c.
                count_of-dec c p.state ps.counters.session_stats _
                  (ground (arith, t.1 c, members-remove c handle p ps.states found))),
          )
  ]

  pub mark_peer_interested-IsCounted :
      (handle : ℕ) (b : Bool) → IsCounted base (mark_peer_interested ps handle b).0
  unfolding mark_peer_interested
  mark_peer_interested-IsCounted handle b = with_live_mut-IsCounted _ (λ l. refl) base ps handle t

  pub update_bitfield-IsCounted :
      (handle : ℕ) (b : Bits) → IsCounted base (update_bitfield ps handle b).0
  unfolding update_bitfield
  update_bitfield-IsCounted handle b = with_live_mut-IsCounted _ (λ l. refl) base ps handle t

  pub mark_peer_connecting-IsCounted :
      (h tx now : ℕ) → IsCounted base (mark_peer_connecting ps h tx now).0
  unfolding mark_peer_connecting
  mark_peer_connecting-IsCounted h tx now =
      with_peer_mut-IsCounted (λ p c. idle_to_connecting p tx now c)
        (idle_to_connecting-IsFollowed tx now) base ps h t

  pub mark_peer_not_needed-IsCounted :
      (h now : ℕ) → IsCounted base (mark_peer_not_needed ps h now).0
  unfolding mark_peer_not_needed set_not_needed
  mark_peer_not_needed-IsCounted h now =
      with_peer_mut-IsCounted (λ p c. set_state p not_needed now c)
        (λ p c. set_state-Follows p not_needed now c) base ps h t

  incoming_connection-IsCounted :
      (addr peer_id tx now : ℕ) (kind : ConnectionKind)
      → IsCounted base
          (with_peer_mut ps addr (λ p c. incoming_connection p peer_id tx kind now c)).0
  incoming_connection-IsCounted addr peer_id tx now kind =
      with_peer_mut-IsCounted (λ p c. incoming_connection p peer_id tx kind now c)
        (incoming_connection-IsFollowed peer_id tx now kind) base ps addr t

  pub connecting_to_live-IsCounted :
      (addr peer_id now : ℕ) (kind : ConnectionKind)
      → IsCounted base (with_peer_mut ps addr (λ p c. connecting_to_live p peer_id kind now c)).0
  connecting_to_live-IsCounted addr peer_id now kind =
      with_peer_mut-IsCounted (λ p c. connecting_to_live p peer_id kind now c)
        (connecting_to_live-IsFollowed peer_id now kind) base ps addr t

  pub on_steal-IsCounted :
      (from_peer to_peer stolen_idx : ℕ)
      → IsCounted base (on_steal ps from_peer to_peer stolen_idx).0
  unfolding on_steal
  on_steal-IsCounted from_peer to_peer stolen_idx =
      let t₁ =
        with_peer_mut-IsCounted (count_steal i_stole) (count_steal-IsFollowed i_stole) base ps
          to_peer t in
      let t₂ =
        with_peer_mut-IsCounted (count_steal stolen_from_me) (count_steal-IsFollowed stolen_from_me)
          base _ from_peer t₁ in
      with_live_mut-IsCounted _ (λ l. refl) base _ from_peer
        ((λ c. rw (inc_steals-counts c _) (t₂.0 c)), (λ c. rw (inc_steals-counts c _) (t₂.1 c)))
