-- ===== src/TorrentState/Managed.antt =====
-- `ManagedTorrent` of src/torrent_state/mod.rs: the state machine of a torrent, under its lock. Of a
-- live torrent (`TorrentStateLive::new`, `pause` and `update_only_files` of live/mod.rs) there is
-- what these states exchange: the piece tracker, which a pause takes out, the storage and the
-- streams. Whether the session lives, the metadata is there, and the storage can be made or taken
-- are arguments. `none` is a panic; a method's `Result` is a Boolean, true for `Ok`. The tasks that
-- are spawned are in the results, or are steps of `Steps`. Notifications are left out.
pub mod Steps
pub mod Unpause
use librtbit.Base.{
  ℕ, Bool, true, false, not, ◌&&◌, Option, none, some, List, [], ◌∷◌, ◌>>=◌, ltb, if◌then◌else◌,
  length,
}
use librtbit.Base.Bits.{contains}
use librtbit.FileInfo.{FileInfo}
use librtbit.ChunkTracker.{ChunkTracker}
use librtbit.ChunkTracker.Files
use librtbit.PieceTracker.{PieceTracker, into_chunks}
use librtbit.PieceTracker
use librtbit.Streaming.{TorrentStreams}
use librtbit.TorrentState.{TorrentStatePaused}
use librtbit.TorrentState.Initializing.{TorrentStateInitializing}

pub record TorrentStateLive (S : Type 0) : Type 0 where
  pub pieces : Option PieceTracker
  pub files : S
  pub streams : TorrentStreams

pub data ManagedTorrentState (S : Type 0) : Type 0 where
  state_initializing : TorrentStateInitializing S → ManagedTorrentState S
  state_paused : TorrentStatePaused S → ManagedTorrentState S
  state_live : TorrentStateLive S → ManagedTorrentState S
  state_error state_none : ManagedTorrentState S

pub record ManagedTorrentLocked (S : Type 0) : Type 0 where
  pub paused : Bool
  pub state : ManagedTorrentState S
  pub only_files : Option (List ℕ)

module _ {S : Type 0} where
  -- `with_chunk_tracker`
  abbrev chunk_tracker_of : ManagedTorrentState S → Option ChunkTracker
  chunk_tracker_of (state_paused p) = some p.chunk_tracker
  chunk_tracker_of (state_live l) = l.pieces >>= (λ pt. some pt.chunks)
  chunk_tracker_of _ = none

  -- `wait_until_initialized`'s test: an error, or whether it is done
  abbrev is_initialized : ManagedTorrentState S → Option Bool
  is_initialized (state_initializing t) = some false
  is_initialized state_error = none
  is_initialized state_none = none
  is_initialized _ = some true

  -- `TorrentStateLive::new`, which fails if the session is gone.
  abbrev pub new_live : Bool → TorrentStatePaused S → Option (TorrentStateLive S)
  new_live session_alive p =
      if session_alive
      then some (record {
        pieces = some (PieceTracker.new p.chunk_tracker);
        files = p.files;
        streams = p.streams;
      })
      else none

  -- `TorrentStateLive::pause`: what it gives, if it succeeds, and the live torrent afterwards.
  pub pause_live :
      (S → Option S)
      → TorrentStateLive S
      → Option (Option (TorrentStatePaused S) × TorrentStateLive S)
  pause_live take l = elim l.pieces [
    | none ↦ some (none, l)
    | some pt ↦ do
      chunk_tracker ← into_chunks pt
      let l' = record l { pieces = none }
      let result = take l.files >>= (λ files.
          some (record { files = files; chunk_tracker = chunk_tracker; streams = l.streams }))
      some (result, l')
  ]

  pub stop_with_error : (S → Option S) → ManagedTorrentLocked S → Option (ManagedTorrentLocked S)
  stop_with_error take g = elim g.state [
    | state_live l ↦ do (result, l') ← pause_live take l; some (record g { state = state_error })
    | _ ↦ some (record g { state = state_error })
  ]

  abbrev pub finish_pause :
      ManagedTorrentLocked S
      → Option (TorrentStatePaused S) × TorrentStateLive S
      → Bool × ManagedTorrentLocked S
  finish_pause g (none, l) = (false, record g { state = state_live l })
  finish_pause g (some p, l) = (true, record g { state = state_paused p; paused = true })

  -- Pausing a torrent that is initializing also cancels its tasks.
  pub pause : (S → Option S) → ManagedTorrentLocked S → Option (Bool × ManagedTorrentLocked S)
  pause take g = elim g.state [
    | state_live l ↦ do r ← pause_live take l; some (finish_pause g r)
    | state_initializing t ↦ some (true, record g { state = state_error; paused = true })
    | _ ↦ some (false, g)
  ]

-- The loop that checks the files' numbers.
abbrev all_below : ℕ → List ℕ → Bool
all_below n [] = true
all_below n (f ∷ fs) = ltb f n && all_below n fs

-- What a start leaves, and whether it spawned a task that initializes.
pub record Started (S : Type 0) : Type 0 where
  pub ok : Bool
  pub locked : ManagedTorrentLocked S
  pub spawned : Bool

-- What a start finds: whether the session lives, at first and when the live torrent is made; and the
-- storage that `create_and_init` gives, if there is metadata and it succeeds.
pub record World (S : Type 0) : Type 0 where
  pub session_alive : Bool
  pub session_stays : Bool
  pub created : Option S

module _ {S : Type 0} where
  -- `_start` on a paused torrent. If the live torrent cannot be made the state stays taken.
  abbrev pub start_paused_state :
      World S → Bool → ManagedTorrentLocked S → TorrentStatePaused S → Started S
  start_paused_state w start_paused g p =
      let live : Started S = elim (new_live w.session_stays p) [
        | none ↦ record { ok = false; locked = record g { state = state_none }; spawned = false }
        | some l ↦ record { ok = true; locked = record g { state = state_live l }; spawned = false }
      ] in
      if start_paused then record { ok = true; locked = g; spawned = false } else live

  -- `_start`; from an error it goes to initializing and recurses.
  pub start_in : World S → Bool → ManagedTorrentLocked S → Started S
  start_in w start_paused g = elim g.state [
    | state_live l ↦ record { ok = false; locked = g; spawned = false }
    | state_initializing t ↦ record { ok = true; locked = g; spawned = true }
    | state_paused p ↦ start_paused_state w start_paused g p
    | state_error ↦ elim w.created [
      | none ↦ record { ok = false; locked = g; spawned = false }
      | some files ↦ record {
        ok = true;
        locked = record g {
          state =
              state_initializing
                (record { files = files; only_files = g.only_files; previously_errored = false });
        };
        spawned = true;
      }
    ]
    | state_none ↦ record { ok = false; locked = g; spawned = false }
  ]

  pub start : World S → Bool → ManagedTorrentLocked S → Started S
  start w start_paused g =
      if w.session_alive
      then start_in w start_paused (record g { paused = start_paused })
      else record { ok = false; locked = g; spawned = false }

  -- The end of the task that initializes: `start_paused` is that of the start that spawned it, and
  -- `result` is what the check gave.
  unfoldable pub init_done :
      World S → Bool → Option (TorrentStatePaused S) → ManagedTorrentLocked S → Started S
  init_done w start_paused none g = record {
    ok = false;
    locked = record g { state = state_error };
    spawned = false;
  }
  init_done w start_paused (some p) g = elim g.state [
    | state_initializing t ↦
        start_paused_state w start_paused (record g { state = state_paused p }) p
    | _ ↦ record { ok = true; locked = g; spawned = false }
  ]

  -- The part under the lock. A live torrent also reconnects peers if it is not finished.
  pub choose_files :
      List FileInfo → List ℕ → ManagedTorrentLocked S → Option (Bool × ManagedTorrentLocked S)
  choose_files file_infos only_files g = elim g.state [
    | state_initializing t ↦ some (false, g)
    | state_paused p ↦ do
      (ct, hns) ← Files.update_only_files p.chunk_tracker file_infos (contains only_files)
      some (
        true,
        record g {
          state = state_paused (record p { chunk_tracker = ct });
          only_files = some only_files;
        },
      )
    | state_live l ↦ elim l.pieces [
      | none ↦ some (false, g)
      | some pt ↦ do
        (pt', hns) ← PieceTracker.update_only_files pt file_infos (contains only_files)
        some (
          true,
          record g {
            state = state_live (record l { pieces = some pt' });
            only_files = some only_files;
          },
        )
    ]
    | _ ↦ some (true, record g { only_files = some only_files })
  ]

  -- `none` stands for metadata that is not there.
  pub update_only_files :
      Option (List FileInfo)
      → List ℕ
      → ManagedTorrentLocked S
      → Option (Bool × ManagedTorrentLocked S)
  update_only_files none only_files g = some (false, g)
  update_only_files (some file_infos) only_files g =
      let chosen = choose_files file_infos only_files g in
      if all_below (length file_infos) only_files then chosen else some (false, g)
