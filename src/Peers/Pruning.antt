-- ===== src/Peers/Pruning.antt =====
-- `prune_dead_peers` of src/torrent_state/live/peers/mod.rs against the peers one by one.
use librtbit.Base.{
  ℕ, ◌+◌, ◌<◌, ◌≡◌, ◌↔◌, refl, sym, ap, subst, true, false, Option, none, some, List, [], ◌∷◌,
  arith, if◌then◌else◌, length, inl, inr, Bool-cases,
}
use librtbit.Base.Assoc.{lookup, contains_key, IsMap}
use librtbit.Peers.{Counters, PeerState, queued, connecting, live, dead, not_needed}
use librtbit.Peers.Peer.{Peer}
use librtbit.Peers.States.{PeerStates, is_stale, uncount, prune_from, prune_dead_peers}

-- What a peer's entry is replaced by.
abbrev unless_stale : ℕ → ℕ → Option Peer → Option Peer
unless_stale now retention none = none
unless_stale now retention (some p) = if is_stale now retention p then none else some p

prune_from-absent :
    (now retention : ℕ) (c : Counters) (m : List (ℕ × Peer)) (a : ℕ)
    → contains_key a m ≡ false
    → lookup a (prune_from now retention c m).0 ≡ none
unfolding prune_from lookup
prune_from-absent now retention c [] a e = refl
prune_from-absent now retention c ((b, p) ∷ m) a e = elim (Bool-cases (is_stale now retention p)) [
  | inl stale ↦
      rw (stale, prune_from) (prune_from-absent now retention (uncount p c) m a (ground arith))
  | inr fresh ↦ rw (fresh, prune_from) (ground (arith, prune_from-absent now retention c m a))
]

prune_from-lookup :
    (now retention : ℕ) (c : Counters) (m : List (ℕ × Peer))
    → IsMap m
    → (a : ℕ) → lookup a (prune_from now retention c m).0 ≡ unless_stale now retention (lookup a m)
unfolding prune_from lookup
prune_from-lookup now retention c [] u a = refl
prune_from-lookup now retention c ((b, p) ∷ m) u a = elim (Bool-cases (is_stale now retention p)) [
  | inl stale ↦
      rw (stale, prune_from)
        (ground (
          arith,
          prune_from-lookup now retention (uncount p c) m u.1 a,
          prune_from-absent now retention (uncount p c) m b u.0,
          ap (λ k. lookup k (prune_from now retention (uncount p c) m).0) {x = b} {y = a},
        ))
  | inr fresh ↦ rw (fresh, prune_from) (ground (arith, prune_from-lookup now retention c m u.1 a))
]

prune_from-counts :
    (now retention : ℕ) (c : Counters) (m : List (ℕ × Peer))
    → let r = prune_from now retention c m in r.2 + length r.0 ≡ length m
unfolding prune_from
prune_from-counts now retention c [] = refl
prune_from-counts now retention c ((b, p) ∷ m) = elim (Bool-cases (is_stale now retention p)) [
  | inl stale ↦
      rw (stale, prune_from) (ground (arith, prune_from-counts now retention (uncount p c) m))
  | inr fresh ↦ rw (fresh, prune_from) (ground (arith, prune_from-counts now retention c m))
]

-- A peer that is dead or not needed.
abbrev IsOver : PeerState → Type 0
IsOver dead = Unit
IsOver not_needed = Unit
IsOver _ = ⊥

-- It is so since before the retention.
abbrev pub IsStale : ℕ → ℕ → Peer → Type 0
IsStale now retention p = IsOver p.state × (p.last_state_change + retention < now)

prunable-exact :
    (now retention : ℕ) (p : Peer) (st : PeerState)
    → (is_stale now retention (record p { state = st }) ≡ true)
      ↔ IsStale now retention (record p { state = st })
prunable-exact now retention p queued = ((λ e. absurd (cc)), λ x. absurd x.0)
prunable-exact now retention p (connecting n) = ((λ e. absurd (cc)), λ x. absurd x.0)
prunable-exact now retention p (live l) = ((λ e. absurd (cc)), λ x. absurd x.0)
prunable-exact now retention p dead = ((λ e. (tt, ground arith)), λ x. ground (arith, x.1))
prunable-exact now retention p not_needed = ((λ e. (tt, ground arith)), λ x. ground (arith, x.1))

-- What stays, of what is there.
stays-exact :
    (now retention : ℕ) (entry : Option Peer) (p : Peer)
    → (unless_stale now retention entry ≡ some p) ↔ ((entry ≡ some p) × ¬ IsStale now retention p)
stays-exact now retention none p = ((λ e. absurd (cc)), λ x. absurd (cc))
stays-exact now retention (some q) p =
    let over = prunable-exact now retention q q.state in
    elim (Bool-cases (is_stale now retention q)) [
      | inl stale ↦ rw stale (
        (λ e. absurd (cc)),
        λ (e, fresh).
            let same : q ≡ p = cc in
            absurd (fresh (subst (IsStale now retention) same (over.0 stale))),
      )
      | inr fresh ↦ rw fresh (
        (λ e.
            let same : q ≡ p = cc in
            (
              e,
              λ stale.
                  absurd
                    (let known = over.1 (subst (IsStale now retention) (sym same) stale) in cc),
            )),
        λ (e, _). e,
      )
    ]

-- In a table in which no address occurs twice, `prune_dead_peers` removes exactly the peers that
-- are dead or not needed and changed their state longer ago than the retention, leaves every other
-- peer as it is, and answers the number removed.
pub prune_dead_peers-exact :
    (ps : PeerStates) (now retention : ℕ)
    → IsMap ps.states
    → let (ps', pruned) = prune_dead_peers ps now retention in
      ((a : ℕ) (p : Peer)
        → (lookup a ps'.states ≡ some p)
          ↔ ((lookup a ps.states ≡ some p) × ¬ IsStale now retention p))
      × (pruned + length ps'.states ≡ length ps.states)
unfolding prune_dead_peers
prune_dead_peers-exact ps now retention u = (
  (λ a p.
      rw (prune_from-lookup now retention ps.counters ps.states u a)
        (stays-exact now retention (lookup a ps.states) p)),
  prune_from-counts now retention ps.counters ps.states,
)
