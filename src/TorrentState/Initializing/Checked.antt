-- ===== src/TorrentState/Initializing/Checked.antt =====
-- `TorrentStateInitializing::check` of src/torrent_state/initializing.rs: what a torrent starts with.
use librtbit.Base.{
  ℕ, ◌*◌, ◌<◌, ◌≡◌, refl, ap, true, none, some, List, arith, length, ◌>>=◌, Returns, All,
}
use librtbit.Base.Bits.{Bits, bit}
use librtbit.Lengths.{Lengths}
use librtbit.ChunkTracker.{compute_selected_pieces}
use librtbit.ChunkTracker.Create.{Created, InRange, new-Created}
use librtbit.ChunkTracker.Files.Chosen.{compute_selected_pieces-exact}
use librtbit.PieceTracker.Invariant.{IsFresh}
use librtbit.FileOps.{check_piece}
use librtbit.FileOps.Initial.Equal.{initial_check-eq-check_piece}
use librtbit.TorrentState.{TorrentStatePaused, no_streams}
use librtbit.TorrentState.Initializing.{
  Setup, BitVFactory, TorrentStateInitializing, is_wanted, load_have_pieces, have_or_check,
  validate_fastresume, ensure_file_lengths, check,
}
use librtbit.TorrentState.Initializing.Fastresume.{IsReady, validate_fastresume-keeps}

-- The initial check's bit field is as it was when it is read back.
abbrev pub Stores : {F : Type 0} → BitVFactory F → Type 0
Stores {F} factory =
    (stored : F) (bits : Bits) → Returns (factory.store_initial_check stored bits) (λ r. r.0 ≡ bits)

-- The chunk tracker of a torrent that has the pieces `have` and wants the chosen files.
abbrev pub StartsWith :
    {S F H : Type 0}
    → Setup S F H
    → TorrentStateInitializing S
    → Bits
    → TorrentStatePaused S
    → Type 0
StartsWith setup t have p =
    Created have
      (compute_selected_pieces setup.torrent.lengths (is_wanted t.only_files) setup.file_infos)
      setup.torrent.lengths setup.file_infos p.chunk_tracker
    × (p.streams ≡ no_streams)

module _ {S F H : Type 0} {setup : Setup S F H} {view : S → ℕ → List ℕ}
    (t : TorrentStateInitializing S) (ready : IsReady setup view t.files)
    (some_file : 0 < length setup.file_infos)
    (ranges : (have : Bits)
      → length have ≡ 8 * setup.torrent.lengths.piece_bitfield_bytes
      → All (InRange have) setup.file_infos)
    (alive : setup.session_alive ≡ true) (takes : (s : S) → (s' : S) × (setup.take s ≡ some s'))
    (stored stored' : F) where
  -- A torrent with no stored bit field starts with exactly the pieces whose bytes have the right
  -- hash, and with a valid tracker that queues those that it wants and does not have. This is for
  -- files that can be read, ranges that fit the bit field, a session that lives, no cancellation, a
  -- storage that can be taken, and a store that reads back what it is given.
  pub check-Checked :
      Stores setup.bitv_factory
      → load_have_pieces setup t stored ≡ some (none, stored')
      → Returns (check setup t stored) (λ (p, after).
        (have : Bits) × StartsWith setup t have p
        × ((i : ℕ)
            → i < setup.torrent.lengths.total_pieces
            → check_piece setup.storage setup.sha1 setup.torrent setup.file_infos t.files i
              ≡ some (bit have i)))
  unfolding check validate_fastresume have_or_check load_have_pieces ensure_file_lengths
  check-Checked stores loaded =
      let ((bits, bytes), checked, (exact, size, count)) =
        initial_check-eq-check_piece ready.lawful ready.hashes setup.torrent setup.file_infos
          t.files setup.is_cancelled 0 ready.laws some_file ready.allocated ready.fits ready.known
          ready.goes_on in
      let ((have, after), kept, same) = stores stored' bits in
      let selected =
        compute_selected_pieces-exact setup.torrent.lengths (is_wanted t.only_files)
          setup.file_infos in
      let size' : length have ≡ 8 * setup.torrent.lengths.piece_bitfield_bytes = rw same size in
      let (ct, made, created) =
        new-Created have _ setup.file_infos ready.laws size' (selected.0) (ranges have size') in
      let (s', taken) = takes (ensure_file_lengths setup t.only_files 0 setup.file_infos t.files) in
      rw (alive, loaded, ◌>>=◌, checked, kept, made, taken)
        (_, refl, (have, (created, refl), λ i valid. rw same (exact i valid)))

  -- A torrent with a stored bit field of the right size starts with just that, and it stays stored,
  -- whatever bytes its files hold. This is for files that can be read, ranges that fit the bit
  -- field, a session that lives, no cancellation, and a storage that can be taken.
  pub check-keeps_stored :
      (hp : Bits)
      → length hp ≡ 8 * setup.torrent.lengths.piece_bitfield_bytes
      → load_have_pieces setup t stored ≡ some (some hp, stored')
      → Returns (check setup t stored) (λ (p, after). StartsWith setup t hp p × (after ≡ stored'))
  unfolding check have_or_check load_have_pieces validate_fastresume ensure_file_lengths
  check-keeps_stored hp size loaded =
      let selected =
        compute_selected_pieces-exact setup.torrent.lengths (is_wanted t.only_files)
          setup.file_infos in
      let (ct, made, created) =
        new-Created hp _ setup.file_infos ready.laws size (selected.0) (ranges hp size) in
      let (s', taken) = takes (ensure_file_lengths setup t.only_files 0 setup.file_infos t.files) in
      rw (alive, loaded, ◌>>=◌, validate_fastresume-keeps ready stored' hp size, made, taken)
        (_, refl, ((created, refl), refl))

-- A torrent starts with a tracker in which nothing is both had and queued.
StartsWith-IsFresh :
    {S F H : Type 0} (setup : Setup S F H) (t : TorrentStateInitializing S) (have : Bits)
    (p : TorrentStatePaused S)
    → StartsWith setup t have p
    → IsFresh p.chunk_tracker
StartsWith-IsFresh setup t have p (created, streams) =
    let total = ap (λ (l : Lengths). l.total_pieces) created.lengths in
    record {
      valid = created.valid;
      had_not_queued = λ i b h.
          ground
            (arith, created.queue i (omega (arith, total)), ap (λ x. bit x i) created.have_kept);
    }
