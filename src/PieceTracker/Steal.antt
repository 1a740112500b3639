-- ===== src/PieceTracker/Steal.antt =====
-- src/piece_tracker.rs: which piece `try_steal` takes.
use native.Mathlib.Nat.{le_trans}
use librtbit.Base.{
  ℕ, ◌≤◌, ◌≡◌, ◌≢◌, refl, ap, true, false, ◌&&◌, Option, none, some, List, [], ◌∷◌, arith, leb,
  if◌then◌else◌, inl, inr, ◌⊎◌, All, Bool-cases, >>=-eq-some,
}
use librtbit.Base.Assoc.{lookup, insert, IsMap, contains_key, contains_key-lookup}
use librtbit.PieceTracker.{
  InflightPiece, AcquireRequest, AcquireResult, stolen, PieceTracker, elapsed, is_candidate, better,
  slowest, try_steal,
}

abbrev Entry : Type 0
Entry = ℕ × InflightPiece

module _ (req : AcquireRequest) (now m : ℕ) where
  better_cases :
      (best : Option Entry) (e f : Entry)
      → better req now m best e ≡ some f
      → (best ≡ some f) ⊎ ((e ≡ f) × (is_candidate req now m e ≡ true))
  better_cases none e f h = ground arith
  better_cases (some b) e f h = ground arith

  -- What is found is a candidate of the map.
  slowest_found :
      (best : Option Entry) (es : List Entry) (f : Entry)
      → IsMap es
      → slowest req now m best es ≡ some f
      → (best ≡ some f) ⊎ ((is_candidate req now m f ≡ true) × (lookup f.0 es ≡ some f.1))
  unfolding slowest lookup
  slowest_found best [] f u h = inl h
  slowest_found best ((k, w) ∷ es) f u h =
      elim (slowest_found (better req now m best (k, w)) es f u.1 h) [
        | inr (c, there) ↦ inr (
          c,
          ground (
            arith,
            there,
            contains_key-lookup f.0 es there,
            ap (λ n. contains_key n es) {x = k} {y = f.0},
          ),
        )
        | inl e ↦ elim (better_cases best (k, w) f e) [
          | inl old ↦ inl old
          | inr (same, c) ↦ inr (ground arith, ground arith)
        ]
      ]

  better_keeps :
      (best : Option Entry) (e b : Entry)
      → best ≡ some b
      → (c : Entry) × (better req now m best e ≡ some c) × (elapsed now b.1 ≤ elapsed now c.1)
  better_keeps none e b p = absurd (cc)
  better_keeps (some a) e b p =
      elim (Bool-cases (is_candidate req now m e && leb (elapsed now a.1) (elapsed now e.1))) [
        | inl t ↦ (e, ground arith, ground arith)
        | inr f ↦ (a, ground arith, ground arith)
      ]

  better_takes :
      (best : Option Entry) (e : Entry)
      → is_candidate req now m e ≡ true
      → (c : Entry) × (better req now m best e ≡ some c) × (elapsed now e.1 ≤ elapsed now c.1)
  better_takes none e t = (e, ground arith, ground arith)
  better_takes (some a) e t = elim (Bool-cases (leb (elapsed now a.1) (elapsed now e.1))) [
    | inl l ↦ (e, ground arith, ground arith)
    | inr l ↦ (a, ground arith, ground arith)
  ]

  -- It has been in flight no less long than any other candidate.
  slowest_greatest :
      (best : Option Entry) (es : List Entry) (f : Entry)
      → slowest req now m best es ≡ some f
      → ((b : Entry) → best ≡ some b → elapsed now b.1 ≤ elapsed now f.1)
        × All (λ e. is_candidate req now m e ≡ true → elapsed now e.1 ≤ elapsed now f.1) es
  unfolding slowest
  slowest_greatest best [] f h = (λ b e. ground arith, tt)
  slowest_greatest best (e ∷ es) f h =
      let (first, rest) = slowest_greatest (better req now m best e) es f h in
      (
        λ b p. let (c, q, l) = better_keeps best e b p in le_trans l (first c q),
        (λ t. let (c, q, l) = better_takes best e t in le_trans l (first c q), rest),
      )

  -- If nothing is found, there is no candidate.
  slowest-none :
      (best : Option Entry) (es : List Entry)
      → slowest req now m best es ≡ none
      → (best ≡ none) × All (λ e. is_candidate req now m e ≡ false) es
  unfolding slowest
  slowest-none best [] h = (h, tt)
  slowest-none none (e ∷ es) h =
      let (first, rest) = slowest-none (better req now m none e) es h in
      (refl, (ground arith, rest))
  slowest-none (some b) (e ∷ es) h =
      let (first, rest) = slowest-none (better req now m (some b) e) es h in absurd (ground arith)

-- What `try_steal` does when it answers.
pub record Steals (pt : PieceTracker) (req : AcquireRequest) (now m p : ℕ) (info : InflightPiece)
    (r : PieceTracker × AcquireResult) : Type 0 where
  pub in_flight : lookup p pt.inflight ≡ some info
  pub other_peer : info.peer ≢ req.peer
  pub has : req.peer_has_piece p ≡ true
  pub slow : m ≤ elapsed now info
  pub greatest :
      All (λ e. is_candidate req now m e ≡ true → elapsed now e.1 ≤ elapsed now info) pt.inflight
  pub allowed : req.can_steal p ≡ true
  pub answer : r.1 ≡ stolen p info.peer
  pub chunks : r.0.chunks ≡ pt.chunks
  pub moved : r.0.inflight ≡ insert p (record { peer = req.peer; started = now }) pt.inflight

steal :
    (pt : PieceTracker) (req : AcquireRequest) (now m p : ℕ) (info : InflightPiece)
    (r : PieceTracker × AcquireResult)
    → is_candidate req now m (p, info) ≡ true
    → lookup p pt.inflight ≡ some info
    → All (λ e. is_candidate req now m e ≡ true → elapsed now e.1 ≤ elapsed now info) pt.inflight
    → (if req.can_steal p
        then some (
          record pt { inflight = insert p (record { peer = req.peer; started = now }) pt.inflight },
          stolen p info.peer,
        )
        else none)
      ≡ some r
    → Steals pt req now m p info r
steal pt req now m p info r c l g h = record {
  in_flight = l;
  other_peer = ground arith;
  has = ground arith;
  slow = ground arith;
  greatest = g;
  allowed = ground arith;
  answer = ground arith;
  chunks = ground arith;
  moved = ground arith;
}

-- If no piece is twice in flight and `try_steal` returns, the request has an average time, and the
-- piece was in flight for another peer, the requesting peer has it, it was in flight for at least
-- the threshold and longest of all that the peer may take so, and it may be stolen; it is now in
-- flight for the requesting peer since now, the answer names it and its former peer, and the chunk
-- tracker is as it was.
pub try_steal-Steals :
    (pt : PieceTracker) (req : AcquireRequest) (now : ℕ) (scaled : ℕ → ℕ)
    (r : PieceTracker × AcquireResult)
    → IsMap pt.inflight
    → try_steal pt req now scaled ≡ some r
    → (avg p : ℕ) × (info : InflightPiece) × (req.peer_avg_time ≡ some avg)
      × Steals pt req now (scaled avg) p info r
unfolding try_steal
try_steal-Steals pt req now scaled r u h =
    let (avg, e, h₁) = >>=-eq-some req.peer_avg_time _ h in
    let ((p, info), found, h₂) = >>=-eq-some (slowest req now (scaled avg) none pt.inflight) _ h₁ in
    let greatest = slowest_greatest req now (scaled avg) none pt.inflight (p, info) found in
    elim (slowest_found req now (scaled avg) none pt.inflight (p, info) u found) [
      | inl never ↦ absurd (cc)
      | inr (c, l) ↦ (avg, p, info, e, steal pt req now (scaled avg) p info r c l greatest.1 h₂)
    ]
