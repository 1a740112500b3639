-- ===== src/Tests/States.antt =====
-- The theorems on src/torrent_state/mod.rs and initializing.rs, at the torrents of `Samples`.
use librtbit.Base.{
  ℕ, ◌*◌, ◌<◌, ◌≡◌, refl, true, false, none, some, Option, List, [], ◌∷◌, arith, length, Returns,
  All,
}
use librtbit.Base.Bits.{Bits, bit}
use librtbit.ChunkTracker.Create.{InRange}
use librtbit.PieceTracker.{acquire_piece, new}
use librtbit.PieceTracker.Invariant.{IsFresh, new-Inv}
use librtbit.PieceTracker.Invariant.Acquire.{Acquired, IsRequest, acquire_piece-Acquired}
use librtbit.PieceTracker.Invariant.History.{acquired}
use librtbit.FileOps.{check_piece}
use librtbit.TorrentState.{TorrentStatePaused, no_streams}
use librtbit.TorrentState.Initializing.{
  Setup, BitVFactory, TorrentStateInitializing, load_have_pieces, check,
}
use librtbit.TorrentState.Initializing.Fastresume.{IsReady}
use librtbit.TorrentState.Initializing.Checked.{
  Stores, StartsWith, check-Checked, check-keeps_stored,
}
use librtbit.TorrentState.Managed.{
  TorrentStateLive, state_initializing, state_paused, state_live, state_error, World, start,
  init_done, pause, stop_with_error,
}
use librtbit.TorrentState.Managed.Steps.{
  Managed, initializes, works, begins, steps, IsSound, Reach-IsSound,
}
use librtbit.TorrentState.Managed.Unpause.{start-init_done_stays}
use librtbit.Samples.{request, chunks, chunks-IsValid}
use librtbit.Samples.Disk.{
  Memory, lengths-Laws, files, torrent, memory, view, memory-IsStorage, sha1, sha1-IsHash, disk,
  disk-IsAllocated,
}

-- What is stored is a bit field or nothing.
abbrev factory : BitVFactory (Option Bits)
factory = record {
  load = λ stored. some stored;
  clear = λ stored. none;
  store_initial_check = λ stored bits. some (bits, some bits);
}

abbrev setup : Setup Memory (Option Bits) (List ℕ)
setup = record {
  storage = memory;
  ensure_file_length = λ s i n. s;
  take = λ s. some s;
  sha1 = sha1;
  bitv_factory = factory;
  torrent = torrent;
  file_infos = files;
  session_alive = true;
  fastresume_validation_denom = none;
  shuffle = λ ids. ids;
  ratio = λ i n. true;
  is_cancelled = λ i. false;
}

setup-IsReady : IsReady setup view disk
setup-IsReady = record {
  lawful = memory-IsStorage;
  hashes = sha1-IsHash;
  laws = lengths-Laws;
  allocated = disk-IsAllocated;
  fits = omega arith;
  known = λ i d h e. cc;
  shuffles = λ n xs h. h;
  goes_on = λ i. refl;
}

factory-Stores : Stores factory
factory-Stores stored bits = (_, refl, refl)

files-InRange : (have : Bits) → length have ≡ 8 * 1 → All (InRange have) files
files-InRange have e =
    ((omega arith, omega arith), ((omega arith, omega arith), ((omega arith, omega arith), tt)))

abbrev initializing : TorrentStateInitializing Memory
initializing = record { files = disk; only_files = none; previously_errored = false }

check-Checked_example : Returns (check setup initializing none) (λ (p, after).
    (have : Bits) × StartsWith setup initializing have p
    × ((i : ℕ) → i < 3 → check_piece memory sha1 torrent files disk i ≡ some (bit have i)))
unfolding load_have_pieces
check-Checked_example =
    check-Checked initializing setup-IsReady (omega arith) files-InRange refl (λ s. (s, refl)) none
      none factory-Stores refl

-- The third piece is stored as had, but its second byte is wrong.
abbrev stored : Bits
stored = true ∷ true ∷ true ∷ false ∷ false ∷ false ∷ false ∷ false ∷ []

check-keeps_stored_example :
    Returns
      (check setup initializing (some stored))
      (λ (p, after). StartsWith setup initializing stored p × (after ≡ some stored))
unfolding load_have_pieces
check-keeps_stored_example =
    check-keeps_stored initializing setup-IsReady (omega arith) files-InRange refl (λ s. (s, refl))
      (some stored) (some stored) stored refl refl

abbrev paused_torrent : TorrentStatePaused Memory
paused_torrent = record { files = disk; chunk_tracker = chunks; streams = no_streams }

chunks-IsFresh : IsFresh chunks
chunks-IsFresh = record { valid = chunks-IsValid; had_not_queued = λ i h e. ground arith }

abbrev world : World Memory
world = record { session_alive = true; session_stays = true; created = some disk }

abbrev added : Managed Memory
added = record {
  locked = record { paused = true; state = state_initializing initializing; only_files = none };
  tasks = false ∷ [];
}

abbrev initialized : Managed Memory
initialized = record {
  locked = (init_done world false (some paused_torrent) added.locked).locked;
  tasks = [];
}

-- It is live, and a peer asks for a piece.
abbrev live_torrent : TorrentStateLive Memory
live_torrent = record { pieces = some (new chunks); files = disk; streams = no_streams }

request-IsRequest : IsRequest (new chunks) request
unfolding new
request-IsRequest = record {
  priorities_valid = (omega arith, tt);
  files_fit =
      ((omega arith, omega arith, omega arith), ((omega arith, omega arith, omega arith), tt));
  files_counted = refl;
}

asked :
    Returns
      (acquire_piece (λ n. 10 * n) (λ n. 3 * n) (new chunks) 400 request)
      (Acquired (new chunks) 400 request)
asked =
    acquire_piece-Acquired (λ n. 10 * n) (λ n. 3 * n) (new chunks) 400 request
      (new-Inv chunks chunks-IsValid (λ i h e. ground arith)) request-IsRequest

abbrev working : Managed Memory
working = record initialized {
  locked = record initialized.locked {
    state = state_live (record live_torrent { pieces = some asked.0.0 });
  };
}

Reach-IsSound_example :
    IsSound working.locked.state
    × Returns (pause (λ s. some s) working.locked) (λ r. IsSound ((r.1).state))
    × Returns (stop_with_error (λ s. some s) working.locked) (λ g. g.state ≡ state_error)
unfolding init_done new
Reach-IsSound_example =
    Reach-IsSound added working (λ s. some s) tt
      (steps
        (steps begins
          (initializes added.locked [] [] false world (some paused_torrent) chunks-IsFresh))
        (works initialized live_torrent (new chunks) asked.0.0 refl refl (
          acquired (λ n. 10 * n) (λ n. 3 * n) (new chunks) 400 request asked.0 request-IsRequest
            asked.1)))

start-init_done_stays_example :
    let unpaused = start world false added.locked in
    let first = init_done world true (some paused_torrent) unpaused.locked in
    let second = init_done world false (some paused_torrent) first.locked in
    (unpaused.ok ≡ true)
    × (unpaused.spawned ≡ true)
    × (second.ok ≡ true)
    × (second.locked.state ≡ state_paused paused_torrent)
    × (second.locked.paused ≡ false)
    × (second.spawned ≡ false)
start-init_done_stays_example =
    start-init_done_stays initializing none world paused_torrent paused_torrent refl
