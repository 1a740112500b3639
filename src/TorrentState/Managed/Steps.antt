-- ===== src/TorrentState/Managed/Steps.antt =====
-- src/torrent_state/mod.rs: whatever happens to a torrent, its trackers stay right.
use librtbit.Base.{
  subst, Returns-of, ℕ, ◌≡◌, refl, ap, sym, inl, inr, Bool, true, false, Option, none, some, List,
  ◌∷◌, ◌++◌, arith, ◌>>=◌, if◌then◌else◌, Returns, Bool-cases, Option-cases, length,
}
use librtbit.Base.Assoc.{contains_key}
use librtbit.Base.Bits.{bit, contains}
use librtbit.FileInfo.{FileInfo}
use librtbit.Lengths.{Lengths}
use librtbit.ChunkTracker.Files.Selection.{update_only_files-Selected}
use librtbit.PieceTracker.{PieceTracker, into_chunks}
use librtbit.PieceTracker
use librtbit.PieceTracker.Invariant.{Inv, IsFresh, new-Inv}
use librtbit.PieceTracker.Invariant.History
use librtbit.PieceTracker.Invariant.Release.{into_chunks-IsFresh}
use librtbit.PieceTracker.Invariant.Select.{choice, update_only_files-Inv}
use librtbit.TorrentState.{TorrentStatePaused}
use librtbit.TorrentState.Managed.{
  TorrentStateLive, ManagedTorrentState, state_initializing, state_paused, state_live, state_error,
  state_none, ManagedTorrentLocked, World, Started, pause_live, stop_with_error, finish_pause,
  pause, start_paused_state, start_in, start, init_done, all_below, choose_files, update_only_files,
}

-- The trackers that a state holds meet their invariants.
abbrev pub IsSound : {S : Type 0} → ManagedTorrentState S → Type 0
IsSound (state_initializing t) = Unit
IsSound (state_paused p) = IsFresh p.chunk_tracker
IsSound (state_live l) = (pt : PieceTracker) → l.pieces ≡ some pt → Inv pt
IsSound state_error = Unit
IsSound state_none = Unit

-- No piece in flight that was not selected is selected now.
abbrev SparesFlight : {S : Type 0} → List FileInfo → List ℕ → ManagedTorrentState S → Type 0
SparesFlight fis only_files (state_live l) =
    (pt : PieceTracker)
    → l.pieces ≡ some pt
    → (i : ℕ) → contains_key i pt.inflight ≡ true
    → choice pt fis (contains only_files) i ≡ true
    → bit pt.chunks.selected i ≡ true
SparesFlight fis only_files _ = Unit

-- What a pause of a live torrent gives, and what it leaves of that.
abbrev PausedWell : {S : Type 0} → Option (TorrentStatePaused S) → Type 0
PausedWell none = Unit
PausedWell (some p) = IsFresh p.chunk_tracker

module _ {S : Type 0} (take : S → Option S) where
  pause_live-Returns :
      (l : TorrentStateLive S)
      → ((pt : PieceTracker) → l.pieces ≡ some pt → Inv pt)
      → Returns
          (pause_live take l)
          (λ (result, l'). PausedWell result × ((pt : PieceTracker) → l'.pieces ≡ some pt → Inv pt))
  unfolding pause_live
  pause_live-Returns l h = elim (Option-cases l.pieces) [
    | inl missing ↦ rw (pause_live, missing) (_, refl, (tt, h))
    | inr (pt, there) ↦
        let (ct, e, fresh) = into_chunks-IsFresh pt (h pt there) in
        elim (Option-cases (take l.files)) [
          | inl stays ↦
              rw (pause_live, there, e, ◌>>=◌, stays) (_, refl, (tt, λ pt' same. absurd (cc)))
          | inr (files, taken) ↦
              rw (pause_live, there, e, ◌>>=◌, taken) (_, refl, (fresh, λ pt' same. absurd (cc)))
        ]
  ]

  pause-IsSound :
      (flag : Bool) (only : Option (List ℕ)) (st : ManagedTorrentState S)
      → IsSound st
      → Returns
          (pause take (record { paused = flag; state = st; only_files = only }))
          (λ r. IsSound ((r.1).state))
  unfolding pause
  pause-IsSound flag only (state_live l) h =
      let (r, e, both) = pause_live-Returns l h in
      rw (e, ◌>>=◌) (_, refl, finished (r.0) (r.1) both.0 both.1)
    where
      finished :
          (result : Option (TorrentStatePaused S)) (l' : TorrentStateLive S)
          → PausedWell result
          → ((pt : PieceTracker) → l'.pieces ≡ some pt → Inv pt)
          → IsSound (
              (finish_pause
                (record { paused = flag; state = state_live l; only_files = only })
                (result, l')).1.state)
      finished none l' well left = left
      finished (some p) l' well left = well
  pause-IsSound flag only (state_initializing t) h = (_, refl, tt)
  pause-IsSound flag only (state_paused p) h = (_, refl, h)
  pause-IsSound flag only state_error h = (_, refl, tt)
  pause-IsSound flag only state_none h = (_, refl, tt)

  stop_with_error-IsSound :
      (flag : Bool) (only : Option (List ℕ)) (st : ManagedTorrentState S)
      → IsSound st
      → Returns
          (stop_with_error take (record { paused = flag; state = st; only_files = only }))
          (λ g'. g'.state ≡ state_error)
  unfolding stop_with_error
  stop_with_error-IsSound flag only (state_live l) h =
      let (r, e, well) = pause_live-Returns l h in rw (e, ◌>>=◌) (_, refl, refl)
  stop_with_error-IsSound flag only (state_initializing t) h = (_, refl, refl)
  stop_with_error-IsSound flag only (state_paused p) h = (_, refl, refl)
  stop_with_error-IsSound flag only state_error h = (_, refl, refl)
  stop_with_error-IsSound flag only state_none h = (_, refl, refl)

module _ {S : Type 0} where
  start_paused_state-IsSound :
      (w : World S) (b : Bool) (g : ManagedTorrentLocked S) (p : TorrentStatePaused S)
      → IsFresh p.chunk_tracker
      → IsSound g.state
      → IsSound ((start_paused_state w b g p).locked.state)
  start_paused_state-IsSound w true g p fresh h = h
  start_paused_state-IsSound w false g p fresh h = elim (Bool-cases w.session_stays) [
    | inl stays ↦ rw stays (λ pt same.
        let e : PieceTracker.new p.chunk_tracker ≡ pt = cc in
        subst Inv e (new-Inv p.chunk_tracker fresh.valid fresh.had_not_queued))
    | inr gone ↦ rw gone tt
  ]

  start_in-IsSound :
      (w : World S) (b flag : Bool) (only : Option (List ℕ)) (st : ManagedTorrentState S)
      → IsSound st
      → IsSound
          ((start_in w b (record { paused = flag; state = st; only_files = only })).locked.state)
  unfolding start_in
  start_in-IsSound w b flag only (state_live l) h = h
  start_in-IsSound w b flag only (state_initializing t) h = tt
  start_in-IsSound w b flag only (state_paused p) h = start_paused_state-IsSound w b _ p h h
  start_in-IsSound w b flag only state_error h = elim (Option-cases w.created) [
    | inl failed ↦ rw failed tt
    | inr (files, made) ↦ rw made tt
  ]
  start_in-IsSound w b flag only state_none h = tt

  start-IsSound :
      (w : World S) (b : Bool) (g : ManagedTorrentLocked S)
      → IsSound g.state
      → IsSound ((start w b g).locked.state)
  unfolding start start_in
  start-IsSound w b g h = elim (Bool-cases w.session_alive) [
    | inr dead ↦ rw dead h
    | inl alive ↦ rw alive (start_in-IsSound w b b g.only_files g.state h)
  ]

-- The task that initializes brings a tracker that nothing has touched.
abbrev BringsFresh : {S : Type 0} → Option (TorrentStatePaused S) → Type 0
BringsFresh none = Unit
BringsFresh (some p) = IsFresh p.chunk_tracker

module _ {S : Type 0} where
  init_done-IsSound :
      (w : World S) (b flag : Bool) (only : Option (List ℕ)) (st : ManagedTorrentState S)
      (result : Option (TorrentStatePaused S))
      → BringsFresh result
      → IsSound st
      → IsSound (
          (init_done w b result
            (record { paused = flag; state = st; only_files = only })).locked.state)
  unfolding init_done
  init_done-IsSound w b flag only st none fresh h = tt
  init_done-IsSound w b flag only (state_initializing t) (some p) fresh h =
      start_paused_state-IsSound w b _ p fresh fresh
  init_done-IsSound w b flag only (state_paused q) (some p) fresh h = h
  init_done-IsSound w b flag only (state_live l) (some p) fresh h = h
  init_done-IsSound w b flag only state_error (some p) fresh h = tt
  init_done-IsSound w b flag only state_none (some p) fresh h = tt

  choose_files-IsSound :
      (fis : List FileInfo) (only_files : List ℕ) (flag : Bool) (only : Option (List ℕ))
      (st : ManagedTorrentState S)
      → IsSound st
      → SparesFlight fis only_files st
      → Returns
          (choose_files fis only_files (record { paused = flag; state = st; only_files = only }))
          (λ r. IsSound ((r.1).state))
  unfolding choose_files
  choose_files-IsSound fis only_files flag only (state_initializing t) h spares = (_, refl, tt)
  choose_files-IsSound fis only_files flag only (state_paused p) h spares =
      let ((ct, hns), e, (s, same)) =
        update_only_files-Selected p.chunk_tracker fis (contains only_files) h.valid in
      let total = ap (λ (l : Lengths). l.total_pieces) s.lengths in
      rw (e, ◌>>=◌)
        (
          _,
          refl,
          record {
            valid = s.valid;
            had_not_queued = λ i b c. ground (
              arith,
              s.queue i (omega (arith, total)),
              ap (λ x. bit x i) s.have,
              h.had_not_queued i (omega (arith, total)),
            );
          },
        )
  choose_files-IsSound fis only_files flag only (state_live l) h spares =
      elim (Option-cases l.pieces) [
        | inl missing ↦ rw (choose_files, missing) (_, refl, h)
        | inr (pt, there) ↦
            let ((pt', hns), e, inv) =
              update_only_files-Inv pt fis (contains only_files) (h pt there) (spares pt there) in
            rw (choose_files, there, e, ◌>>=◌)
              (_, refl, λ pt'' same. let e' : pt' ≡ pt'' = cc in subst Inv e' inv)
      ]
  choose_files-IsSound fis only_files flag only state_error h spares = (_, refl, tt)
  choose_files-IsSound fis only_files flag only state_none h spares = (_, refl, tt)

-- A torrent, and for each task that initializes it the `start_paused` of the start that spawned it.
pub record Managed (S : Type 0) : Type 0 where
  pub locked : ManagedTorrentLocked S
  pub tasks : List Bool

abbrev with_task : {S : Type 0} → Bool → Started S → List Bool → Managed S
with_task b r tasks = record { locked = r.locked; tasks = if r.spawned then b ∷ tasks else tasks }

-- One thing that happens to a torrent.
pub data Step {S : Type 0} : Managed S → Managed S → Type 0 where
  starts :
      (m : Managed S) (w : World S) (b : Bool) → Step m (with_task b (start w b m.locked) m.tasks)
  pauses :
      (m : Managed S) (take : S → Option S) (ok : Bool) (g : ManagedTorrentLocked S)
      → pause take m.locked ≡ some (ok, g)
      → Step m (record m { locked = g })
  fails :
      (m : Managed S) (take : S → Option S) (g : ManagedTorrentLocked S)
      → stop_with_error take m.locked ≡ some g
      → Step m (record m { locked = g })
  -- A cancelled task ends without a word.
  aborts :
      (g : ManagedTorrentLocked S) (before after : List Bool) (b : Bool)
      → Step
          (record { locked = g; tasks = before ++ (b ∷ after) })
          (record { locked = g; tasks = before ++ after })
  initializes :
      (g : ManagedTorrentLocked S) (before after : List Bool) (b : Bool) (w : World S)
      (result : Option (TorrentStatePaused S))
      → BringsFresh result
      → Step
          (record { locked = g; tasks = before ++ (b ∷ after) })
          (record { locked = (init_done w b result g).locked; tasks = before ++ after })
  chooses :
      (m : Managed S) (fis : List FileInfo) (only_files : List ℕ) (ok : Bool)
      (g : ManagedTorrentLocked S)
      → SparesFlight fis only_files m.locked.state
      → update_only_files (some fis) only_files m.locked ≡ some (ok, g)
      → Step m (record m { locked = g })
  -- The live torrent makes one of the calls of its piece tracker.
  works :
      (m : Managed S) (l : TorrentStateLive S) (pt pt' : PieceTracker)
      → m.locked.state ≡ state_live l
      → l.pieces ≡ some pt
      → History.Step pt pt'
      → Step m (record m {
        locked = record m.locked { state = state_live (record l { pieces = some pt' }) };
      })

pub data Reach {S : Type 0} (first : Managed S) : Managed S → Type 0 where
  begins : Reach first first
  steps : {m m' : Managed S} → Reach first m → Step m m' → Reach first m'

update_only_files-IsSound :
    {S : Type 0} (fis : List FileInfo) (only_files : List ℕ) (g : ManagedTorrentLocked S)
    → IsSound g.state
    → SparesFlight fis only_files g.state
    → Returns (update_only_files (some fis) only_files g) (λ r. IsSound ((r.1).state))
unfolding update_only_files
update_only_files-IsSound fis only_files g h spares =
    elim (Bool-cases (all_below (length fis) only_files)) [
      | inl known ↦
          rw known (choose_files-IsSound fis only_files g.paused g.only_files g.state h spares)
      | inr unknown ↦ rw unknown (_, refl, h)
    ]

Step-IsSound :
    {S : Type 0} (m m' : Managed S) → Step m m' → IsSound m.locked.state → IsSound m'.locked.state
Step-IsSound _ _ (starts m w b) h = start-IsSound w b m.locked h
Step-IsSound _ _ (pauses m take ok g e) h =
    Returns-of (pause-IsSound take m.locked.paused m.locked.only_files m.locked.state h) e
Step-IsSound _ _ (fails m take g e) h =
    let same : g.state ≡ state_error =
      Returns-of (stop_with_error-IsSound take m.locked.paused m.locked.only_files m.locked.state h)
        e in
    subst IsSound (sym same) tt
Step-IsSound _ _ (aborts g before after b) h = h
Step-IsSound _ _ (initializes g before after b w result fresh) h =
    init_done-IsSound w b g.paused g.only_files g.state result fresh h
Step-IsSound _ _ (chooses m fis only_files ok g spares e) h =
    Returns-of (update_only_files-IsSound fis only_files m.locked h spares) e
Step-IsSound _ _ (works m l pt pt' at there call) h =
    let inv = History.Step-Inv pt pt' call (subst IsSound at h pt there) in
    λ pt'' same. let e : pt' ≡ pt'' = cc in subst Inv e inv

-- From a torrent whose trackers meet their invariants, in every state that is reached by starts,
-- pauses, fatal errors, ends and cancellations of the tasks that initialize it, changes of the
-- chosen files that select no piece in flight anew, and the live torrent's calls of its piece
-- tracker: the trackers meet their invariants, and a pause and a fatal error do not panic, keep
-- that, and the latter leaves the error state. The tasks bring new trackers in which nothing is
-- both had and queued. The calls are requests with valid priorities, received data, completed
-- pieces, outcomes of checks for pieces that are neither in flight nor (if verified) queued, deaths
-- of peers, and such changes of the chosen files.
pub Reach-IsSound :
    {S : Type 0} (first m : Managed S) (take : S → Option S)
    → IsSound first.locked.state
    → Reach first m
    → IsSound m.locked.state
      × Returns (pause take m.locked) (λ r. IsSound ((r.1).state))
      × Returns (stop_with_error take m.locked) (λ g. g.state ≡ state_error)
Reach-IsSound first m take h reached =
    let sound = reached_sound m reached in
    (
      sound,
      pause-IsSound take m.locked.paused m.locked.only_files m.locked.state sound,
      stop_with_error-IsSound take m.locked.paused m.locked.only_files m.locked.state sound,
    )
  where
    reached_sound : (m : Managed _) → Reach first m → IsSound m.locked.state
    reached_sound _ begins = h
    reached_sound _ (steps {m = m} r step) = Step-IsSound m _ step (reached_sound m r)
