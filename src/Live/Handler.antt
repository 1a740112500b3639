-- ===== src/Live/Handler.antt =====
-- src/torrent_state/live/peer_handler.rs: the handler keeps the tracker and the counters right.
use librtbit.Base.{
  ℕ, ltb, ◌||◌, length, ◌∙◌, ==_refl, ◌≡◌, refl, ap, Bool, true, false, Option, none, some, ◌>>=◌,
  arith, if◌then◌else◌, Returns, Option-cases, Bool-cases, inl, inr,
}
use librtbit.Base.Assoc.{lookup, insert, contains_key, lookup-insert, contains_key-remove}
use librtbit.ChunkTracker.Chunks.{
  Piece, ChunkMarkingResult, previously_completed, not_completed, completed,
}
use librtbit.PieceTracker.{
  PieceTracker, AcquireRequest, AcquireResult, none_available, take_inflight,
}
use librtbit.PieceTracker.Invariant.{Inv, take_inflight-Inv}
use librtbit.PieceTracker.Invariant.Release.{is_owned, release_pieces_owned_by-Released}
use librtbit.PieceTracker.Invariant.History.{mark_chunk_downloaded-Inv}
use librtbit.Peers.{LivePeerState, PeerState, queued, connecting, live, dead, not_needed}
use librtbit.Peers.Peer.{Peer}
use librtbit.Peers.States.{PeerStates, count_steal}
use librtbit.Peers.Tally.{Class}
use librtbit.Peers.Keeps.{IsCounted, with_peer_mut-IsCounted, count_steal-IsFollowed}
use librtbit.Peers.Methods.{drop_peer-IsCounted, on_steal-IsCounted}
use librtbit.Peers.Turnover.{set_state-IsCounted}
use librtbit.PieceTracker.Invariant.Acquire.{
  IsRequest, Acquired, by_reserve, by_steal, by_none, Acquired-Inv, acquire_piece-Acquired,
}
use librtbit.Live.{
  Live, Ended, ok, put, one_error, settle, died_from, on_peer_died, note_chunk, after, after_mark,
  if_timed, acquire_for, acquire_next_piece, chunk_tracker_empty, Wants, request_of, to_check,
}

abbrev HasInv : Option PieceTracker → Type 0
HasInv none = Unit
HasInv (some pt) = Inv pt

-- The tracker, if there is one, meets its invariant, and the counters are right.
pub record IsRight (base : Class → ℕ) (st : Live) : Type 0 where
  pub tracker : HasInv st.pieces
  pub counted : IsCounted base st.peers

put-IsCounted :
    (base : Class → ℕ) (ps : PeerStates) (addr : ℕ) (new : PeerState) (now : ℕ)
    → IsCounted base ps
    → IsCounted base (put ps addr new now)
unfolding put
put-IsCounted base ps addr new now t = set_state-IsCounted base ps t addr new now

settle-IsCounted :
    (base : Class → ℕ) (ps : PeerStates) (addr : ℕ) (error finished : Bool) (now : ℕ)
    → IsCounted base ps
    → IsCounted base (settle ps addr error finished now)
unfolding settle
settle-IsCounted base ps addr false finished now t = put-IsCounted base ps addr not_needed now t
settle-IsCounted base ps addr true finished now t =
    let t' =
      with_peer_mut-IsCounted (count_steal one_error) (count_steal-IsFollowed one_error) base ps
        addr t in
    elim (Bool-cases finished) [
      | inl e ↦ rw e (put-IsCounted base _ addr not_needed now t')
      | inr e ↦ rw e (put-IsCounted base _ addr dead now t')
    ]

-- No piece is in flight for the peer.
abbrev OwnsNone : ℕ → Option PieceTracker → Type 0
OwnsNone addr none = Unit
OwnsNone addr (some pt) = (j : ℕ) → is_owned addr (lookup j pt.inflight) ≡ false

abbrev WasLive : ℕ → PeerState → Live → Type 0
WasLive addr (live l) st = OwnsNone addr st.pieces
WasLive addr _ st = Unit

abbrev pub WasLiveAt : ℕ → Option Peer → Live → Type 0
WasLiveAt addr none st = Unit
WasLiveAt addr (some p) st = WasLive addr p.state st

module _ (base : Class → ℕ) (addr : ℕ) (error : Bool) (finished : Option PieceTracker → Bool)
    (now : ℕ) where
  died_from-IsRight :
      (old : PeerState) (st : Live)
      → IsRight base st
      → Returns
          (died_from old st addr error finished now)
          (λ r. IsRight base r.0 × WasLive addr old r.0)
  unfolding died_from
  died_from-IsRight queued st v = (
    _,
    refl,
    (
      record { tracker = v.tracker; counted = drop_peer-IsCounted base st.peers v.counted addr },
      tt,
    ),
  )
  died_from-IsRight dead st v = (
    _,
    refl,
    (
      record { tracker = v.tracker; counted = drop_peer-IsCounted base st.peers v.counted addr },
      tt,
    ),
  )
  died_from-IsRight not_needed st v = (
    _,
    refl,
    (
      record {
        tracker = v.tracker;
        counted = put-IsCounted base st.peers addr not_needed now v.counted;
      },
      tt,
    ),
  )
  died_from-IsRight (connecting _) st v = (
    _,
    refl,
    (
      record {
        tracker = v.tracker;
        counted = settle-IsCounted base st.peers addr error _ now v.counted;
      },
      tt,
    ),
  )
  died_from-IsRight (live l) st v = of_live st.pieces v.tracker
    where
      of_live :
          (pieces : Option PieceTracker)
          → HasInv pieces
          → Returns
              (died_from
                (live l)
                (record { pieces = pieces; peers = st.peers })
                addr
                error
                finished
                now)
              (λ r. IsRight base r.0 × OwnsNone addr r.0.pieces)
      of_live none w = (_, refl, (record { tracker = w; counted = v.counted }, tt))
      of_live (some pt) w =
          let (r, e, (inv, _, flying, _)) = release_pieces_owned_by-Released pt addr w in
          (
            (
              record {
                pieces = some r.0;
                peers = settle st.peers addr error (finished (some r.0)) now;
              },
              ok,
              ltb 0 r.1 || ltb 0 (length l.inflight_requests),
            ),
            rw (e, ◌>>=◌) refl,
            (
              record {
                tracker = inv;
                counted =
                    settle-IsCounted base st.peers addr error (finished (some r.0)) now v.counted;
              },
              λ j. ground (arith, flying j),
            ),
          )

  -- If the tracker, when there is one, meets its invariant and the counters are right,
  -- `on_peer_died` does not panic and leaves both so, whether or not there was an error and
  -- whatever is then finished; and if the peer was live in the table, no piece is in flight for it
  -- any more.
  pub on_peer_died-IsRight :
      (st : Live)
      → IsRight base st
      → Returns
          (on_peer_died st addr error finished now)
          (λ r. IsRight base r.0 × WasLiveAt addr (lookup addr st.peers.states) r.0)
  unfolding on_peer_died
  on_peer_died-IsRight st v = elim (Option-cases (lookup addr st.peers.states)) [
    | inl missing ↦ ((st, ok, false), rw (missing, on_peer_died) refl, (v, rw missing tt))
    | inr (p, there) ↦
        let st' : Live = record st { peers = put st.peers addr queued now } in
        let (r, e, w) = died_from-IsRight p.state st' (record {
          tracker = v.tracker;
          counted = put-IsCounted base st.peers addr queued now v.counted;
        }) in
        (r, rw (there, on_peer_died) e, (w.0, rw there w.1))
  ]

abbrev GivenTo : ℕ → ℕ → Option PieceTracker → Option ℕ → Type 0
GivenTo addr now pieces none = Unit
GivenTo addr now none (some piece) = Unit
GivenTo addr now (some pt) (some piece) =
    lookup piece pt.inflight ≡ some (record { peer = addr; started = now })

-- The request that the handler makes is one that the tracker expects.
abbrev pub MayAsk : Wants → ℕ → Option PieceTracker → Type 0
MayAsk w addr none = Unit
MayAsk w addr (some pt) = (p : Peer) (l : LivePeerState) → IsRequest pt (request_of w addr p l)

abbrev pub IsFair : (Class → ℕ) → ℕ → ℕ → Live × Ended × Option ℕ → Type 0
IsFair base addr now r = IsRight base r.0 × GivenTo addr now r.0.pieces r.2

module _ (base : Class → ℕ) (addr now : ℕ) where
  newly_given :
      (pt pt' : PieceTracker) (p peer : ℕ)
      → peer ≡ addr
      → pt'.inflight ≡ insert p (record { peer = peer; started = now }) pt.inflight
      → lookup p pt'.inflight ≡ some (record { peer = addr; started = now })
  newly_given pt pt' p peer same moved =
      rw (moved, same)
        (lookup-insert p p (record { peer = addr; started = now }) pt.inflight
          ∙ rw (==_refl p) refl)

  Acquired-IsFair :
      (pt : PieceTracker) (ps : PeerStates) (req : AcquireRequest) (pt' : PieceTracker)
      (answer : AcquireResult)
      → req.peer ≡ addr
      → Inv pt'
      → IsCounted base ps
      → Acquired pt now req (pt', answer)
      → IsFair base addr now (after (record { pieces = some pt; peers = ps }) addr (pt', answer))
  Acquired-IsFair pt ps req pt' answer same v t (by_reserve p _ e _ moved) =
      rw e (record { tracker = v; counted = t }, newly_given pt pt' p req.peer same moved)
  Acquired-IsFair pt ps req pt' answer same v t (by_steal m p info s) = rw s.answer (
    record { tracker = v; counted = on_steal-IsCounted base ps t info.peer addr p },
    newly_given pt pt' p req.peer same s.moved,
  )
  Acquired-IsFair pt ps req pt' answer same v t (by_none e _) =
      let nothing : answer ≡ none_available = ap (λ x. x.1) e in
      rw nothing (record { tracker = v; counted = t }, tt)

  module _ (ten three : ℕ → ℕ) (w : Wants) (ps : PeerStates) (t : IsCounted base ps) where
    acquire_for-IsFair :
        (pieces : Option PieceTracker) (p : Peer) (l : LivePeerState)
        → HasInv pieces
        → MayAsk w addr pieces
        → Returns
            (acquire_for ten three (record { pieces = pieces; peers = ps }) w addr p l now)
            (IsFair base addr now)
    unfolding acquire_for
    acquire_for-IsFair none p l v q = (
      (record { pieces = none; peers = ps }, chunk_tracker_empty, none),
      refl,
      (record { tracker = tt; counted = t }, tt),
    )
    acquire_for-IsFair (some pt) p l v q =
        let req : AcquireRequest = request_of w addr p l in
        let (r, e, a) = acquire_piece-Acquired ten three pt now req v (q p l) in
        (
          after (record { pieces = some pt; peers = ps }) addr r,
          rw (e, ◌>>=◌) refl,
          Acquired-IsFair pt ps req r.0 r.1 refl (Acquired-Inv v a) t a,
        )

    -- If the tracker, when there is one, meets its invariant and expects the handler's requests,
    -- and the counters are right, `acquire_next_piece` does not panic and leaves both so; and a
    -- piece that it answers is in flight for the peer since now.
    pub acquire_next_piece-IsFair :
        (pieces : Option PieceTracker)
        → HasInv pieces
        → MayAsk w addr pieces
        → Returns
            (acquire_next_piece ten three (record { pieces = pieces; peers = ps }) w addr now)
            (IsFair base addr now)
    unfolding acquire_next_piece
    acquire_next_piece-IsFair pieces v q = elim (Option-cases (lookup addr ps.states)) [
      | inl missing ↦ (nothing, rw (missing, acquire_next_piece) refl, fair)
      | inr (p, there) ↦ rw (there, acquire_next_piece) (of_state p p.state)
    ]
      where
        nothing : Live × Ended × Option ℕ
        nothing = (record { pieces = pieces; peers = ps }, ok, none)

        fair : IsFair base addr now nothing
        fair = (record { tracker = v; counted = t }, tt)

        of_state :
            (p : Peer) (s : PeerState)
            → Returns
                (elim s [
                  | live l ↦
                      if w.i_am_choked
                      then some nothing
                      else acquire_for ten three
                          (record { pieces = pieces; peers = ps })
                          w
                          addr
                          p
                          l
                          now
                  | _ ↦ some nothing
                ])
                (IsFair base addr now)
        of_state p queued = (nothing, refl, fair)
        of_state p dead = (nothing, refl, fair)
        of_state p not_needed = (nothing, refl, fair)
        of_state p (connecting tx) = (nothing, refl, fair)
        of_state p (live l) = elim (Bool-cases w.i_am_choked) [
          | inl choked ↦ (nothing, rw choked refl, fair)
          | inr free ↦ rw free (acquire_for-IsFair pieces p l v q)
        ]

taken-gone :
    (pt : PieceTracker) (now i time : ℕ)
    → Inv pt
    → if_timed (take_inflight pt now i).1 ≡ to_check time
    → contains_key i (take_inflight pt now i).0.inflight ≡ false
unfolding take_inflight
taken-gone pt now i time v e = ground (arith, contains_key-remove i i pt.inflight v.is_map)

-- On a tracker that meets the invariant, noting a received chunk does not panic and keeps the
-- invariant, and a piece that is then to be checked is not in flight.
pub note_chunk-Inv :
    (pt : PieceTracker) (piece : Piece) (now : ℕ)
    → Inv pt
    → Returns (note_chunk pt piece now) (λ r.
      Inv r.0 × ((time : ℕ) → r.1 ≡ to_check time → contains_key piece.index r.0.inflight ≡ false))
unfolding note_chunk
note_chunk-Inv pt piece now v =
    let (r, e, w) = mark_chunk_downloaded-Inv pt piece v in
    (after_mark r.0 piece.index now r.1, rw (e, ◌>>=◌) refl, answer r.0 r.1 w.0)
  where
    answer :
        (pt' : PieceTracker) (marked : Option ChunkMarkingResult)
        → Inv pt'
        → Inv (after_mark pt' piece.index now marked).0
          × ((time : ℕ)
              → (after_mark pt' piece.index now marked).1 ≡ to_check time
              → contains_key piece.index (after_mark pt' piece.index now marked).0.inflight ≡ false)
    answer pt' none w = (w, λ t e. absurd (cc))
    answer pt' (some previously_completed) w = (w, λ t e. absurd (cc))
    answer pt' (some not_completed) w = (w, λ t e. absurd (cc))
    answer pt' (some completed) w =
        (take_inflight-Inv pt' now piece.index w, λ t e. taken-gone pt' now piece.index t w e)
