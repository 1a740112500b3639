-- ===== src/TorrentState/Managed/Unpause.antt =====
-- src/torrent_state/mod.rs: a torrent that is unpaused while it initializes.
use librtbit.Base.{◌≡◌, refl, true, false, Option, some, List, ℕ}
use librtbit.TorrentState.{TorrentStatePaused}
use librtbit.TorrentState.Initializing.{TorrentStateInitializing}
use librtbit.TorrentState.Managed.{
  ManagedTorrentLocked, state_initializing, state_paused, World, start, start_in, init_done,
}

module _ {S : Type 0} (t : TorrentStateInitializing S) (only : Option (List ℕ)) where
  -- A torrent that was added paused, while it initializes.
  abbrev added : ManagedTorrentLocked S
  added = record { paused = true; state = state_initializing t; only_files = only }

  -- If a torrent that was added paused is unpaused while it initializes, then the start succeeds
  -- and spawns a second task; when the first task ends, and then the second, without an error, the
  -- torrent is in the paused state, though it is not to be paused, and no task is spawned. The
  -- session lives all the time.
  pub start-init_done_stays :
      (w : World S) (p p' : TorrentStatePaused S)
      → w.session_alive ≡ true
      → let unpaused = start w false added in
        let first = init_done w true (some p) unpaused.locked in
        let second = init_done w false (some p') first.locked in
        (unpaused.ok ≡ true)
        × (unpaused.spawned ≡ true)
        × (second.ok ≡ true)
        × (second.locked.state ≡ state_paused p)
        × (second.locked.paused ≡ false)
        × (second.spawned ≡ false)
  unfolding start start_in init_done
  start-init_done_stays w p p' alive = rw alive (refl, refl, refl, refl, refl, refl)
