-- ===== src/TorrentState/Initializing/Fastresume.antt =====
-- `validate_fastresume` of src/torrent_state/initializing.rs looks at errors of reading only.
use librtbit.Base.{
  ℕ, zero, suc, ◌+◌, ◌*◌, ◌/◌, ◌^◌, ◌≤◌, ◌<◌, ◌≡◌, ◌≢◌, refl, ap, ◌∙◌, sym, inl, inr, Bool, true,
  false, none, some, List, [], ◌∷◌, arith, ltb, ◌==◌, length, min, ◌>>=◌, Returns, All, length-set,
  length-replicate, Bool-cases, Option-cases,
}
use librtbit.Base.Bits.{Bits, bit, zeroed, set_bit, set_bit_lem, ones, ones_bounded}
use librtbit.FileInfo.{FileInfo, elements}
use librtbit.Lengths.{Lengths, Laws}
use librtbit.FileOps.{check_piece}
use librtbit.FileOps.Layout.{IsStorage, IsHash, flat, IsAllocated}
use librtbit.FileOps.Hash.{check_piece-flat}
use librtbit.TorrentState.Initializing.{
  Setup, first_had, had_in_file, choose_from_files, choose_at_random, denom_or_default, valid_only,
  validate_pieces, to_validate, validate_fastresume,
}

bit_inside : (bits : Bits) (i : ℕ) → bit bits i ≡ true → i < length bits
bit_inside [] i e = absurd (cc)
bit_inside (b ∷ bits) zero e = omega arith
bit_inside (b ∷ bits) (suc i) e = omega (arith, bit_inside bits i e)

first_had-bit : (hp : Bits) (is : List ℕ) (p : ℕ) → first_had hp is ≡ some p → bit hp p ≡ true
first_had-bit hp [] p e = absurd (cc)
first_had-bit hp (i ∷ is) p e = ground (arith, first_had-bit hp is p, ap (bit hp) {x = i} {y = p})

had_in_file-bit : (hp : Bits) (fi : FileInfo) (p : ℕ) → had_in_file hp fi ≡ some p → bit hp p ≡ true
had_in_file-bit hp fi p e = ground (arith, first_had-bit hp (elements fi.piece_range) p)

set_bit-Returns :
    (bits : Bits) (i : ℕ) (v : Bool)
    → i < length bits
    → Returns (set_bit bits i v) (λ bits'. length bits' ≡ length bits)
set_bit-Returns bits i v h = (_, set_bit_lem bits i v h, length-set bits i v)

choose_from_files-Returns :
    (hp : Bits) (fis : List FileInfo) (tv queue : Bits)
    → length tv ≡ length hp
    → length queue ≡ length hp
    → Returns
        (choose_from_files hp fis tv queue)
        (λ r. (length (r.0) ≡ length hp) × (length (r.1) ≡ length hp))
unfolding choose_from_files
choose_from_files-Returns hp [] tv queue t q = (_, refl, (t, q))
choose_from_files-Returns hp (fi ∷ fis) tv queue t q = elim (Option-cases (had_in_file hp fi)) [
  | inl nothing ↦ rw (choose_from_files, nothing) (choose_from_files-Returns hp fis tv queue t q)
  | inr (p, found) ↦
      let inside = bit_inside hp p (had_in_file-bit hp fi p found) in
      let (tv', e₁, t') = set_bit-Returns tv p true (omega arith) in
      let (queue', e₂, q') = set_bit-Returns queue p false (omega arith) in
      rw (choose_from_files, found, e₁, ◌>>=◌, e₂)
        (choose_from_files-Returns hp fis tv' queue' (t' ∙ t) (q' ∙ q))
]

choose_at_random-Returns :
    (ratio : ℕ → ℕ → Bool) (cap tmp_id : ℕ) (ids : List ℕ) (tv : Bits)
    → All (λ i. i < length tv) ids
    → Returns (choose_at_random ratio cap tmp_id ids tv) (λ tv'. length tv' ≡ length tv)
unfolding choose_at_random
choose_at_random-Returns ratio cap tmp_id [] tv h = (tv, refl, refl)
choose_at_random-Returns ratio cap tmp_id (i ∷ ids) tv (h, hs) =
    elim (Bool-cases (ratio tmp_id (min (tmp_id + 1) cap))) [
      | inl chosen ↦
          let (tv', e, same) = set_bit-Returns tv i true h in
          let (tv'', e', same') =
            choose_at_random-Returns ratio cap (tmp_id + 1) ids tv' (rw same hs) in
          rw (chosen, e, ◌>>=◌) (tv'', e', same' ∙ same)
      | inr passed ↦ rw (passed, ◌>>=◌) (choose_at_random-Returns ratio cap (tmp_id + 1) ids tv hs)
    ]

valid_only-valid :
    (l : Lengths) (is : List ℕ) → Laws l → All (λ i. i < l.total_pieces) (valid_only l is)
valid_only-valid l [] laws = tt
valid_only-valid l (i ∷ is) laws = elim (Bool-cases (ltb i (2 ^ 32))) [
  | inr big ↦ rw big (valid_only-valid l is laws)
  | inl fits ↦ elim (Bool-cases (ltb i l.total_pieces)) [
    | inl valid ↦
        let e : l.validate_piece_index i ≡ some i = laws.validates i ∙ rw valid refl in
        rw (fits, e) (ground arith, valid_only-valid l is laws)
    | inr beyond ↦
        let e : l.validate_piece_index i ≡ none = laws.validates i ∙ rw beyond refl in
        rw (fits, e) (valid_only-valid l is laws)
  ]
]

-- What a check relies on: every file is readable, every valid piece has a hash, the random order has
-- no piece that was not there, and nobody cancels.
pub record IsReady {S F H : Type 0} (setup : Setup S F H) (view : S → ℕ → List ℕ) (files : S)
    : Type 0 where
  pub lawful : IsStorage setup.storage view
  pub hashes : IsHash setup.sha1
  pub laws : Laws setup.torrent.lengths
  pub allocated : IsAllocated (view files) 0 setup.file_infos
  pub fits : setup.torrent.lengths.total_length ≤ length (flat (view files) 0 setup.file_infos)
  pub known :
      (i d : ℕ) → i < setup.torrent.lengths.total_pieces → setup.torrent.compare_hash i d ≢ none
  pub shuffles : (n : ℕ) (xs : List ℕ) → All (λ i. i < n) xs → All (λ i. i < n) (setup.shuffle xs)
  pub goes_on : (i : ℕ) → setup.is_cancelled i ≡ false

module _ {S F H : Type 0} {setup : Setup S F H} {view : S → ℕ → List ℕ} {files : S}
    (ready : IsReady setup view files) where
  check_piece-Returns :
      (p : ℕ)
      → p < setup.torrent.lengths.total_pieces
      → (ok : Bool) × (check_piece setup.storage setup.sha1 setup.torrent setup.file_infos files p
          ≡ some ok)
  check_piece-Returns p valid =
      let e =
        check_piece-flat ready.lawful ready.hashes setup.torrent setup.file_infos files p ready.laws
          valid ready.allocated ready.fits in
      elim (Option-cases
        (check_piece setup.storage setup.sha1 setup.torrent setup.file_infos files p)) [
          | inl failed ↦ absurd (ready.known p _ valid (sym e ∙ failed))
          | inr there ↦ there
        ]

  validate_pieces-false :
      (ps : List ℕ)
      → All (λ p. p < setup.torrent.lengths.total_pieces) ps
      → validate_pieces setup files ps ≡ some false
  unfolding validate_pieces
  validate_pieces-false [] h = refl
  validate_pieces-false (p ∷ ps) (valid, hs) =
      let (ok, e) = check_piece-Returns p valid in
      rw (ready.goes_on p, e) (validate_pieces-false ps hs)

  to_validate-Returns :
      (hp : Bits)
      → length hp ≡ 8 * setup.torrent.lengths.piece_bitfield_bytes
      → (chosen : Bits) × (to_validate setup hp ≡ some chosen)
  unfolding to_validate
  to_validate-Returns hp size =
      let zeros : length (zeroed setup.torrent.lengths.piece_bitfield_bytes) ≡ length hp =
        length-replicate (8 * setup.torrent.lengths.piece_bitfield_bytes) false ∙ sym size in
      let ((tv, queue), e, (t, q)) =
        choose_from_files-Returns hp setup.file_infos
          (zeroed setup.torrent.lengths.piece_bitfield_bytes) hp zeros refl in
      let order = ready.shuffles (length queue) (ones queue) (ones_bounded queue) in
      let cap = denom_or_default setup.fastresume_validation_denom in
      let (tv', e', same) =
        choose_at_random-Returns setup.ratio cap 0 (setup.shuffle (ones queue)) tv
          (rw (t ∙ sym q) order) in
      elim (Bool-cases (ltb 0 cap)) [
        | inl some_cap ↦ rw (e, ◌>>=◌, some_cap) (tv', e')
        | inr no_cap ↦ rw (e, ◌>>=◌, no_cap) (tv, refl)
      ]

  -- A stored bit field of the torrent's size is kept as it is, whatever the files hold: a piece with
  -- the wrong hash is no error for `validate_fastresume`. This is where all files can be read, and
  -- there is no cancellation.
  pub validate_fastresume-keeps :
      (stored : F) (hp : Bits)
      → length hp ≡ 8 * setup.torrent.lengths.piece_bitfield_bytes
      → validate_fastresume setup files stored (some hp) ≡ some (some hp, stored)
  unfolding validate_fastresume
  validate_fastresume-keeps stored hp size =
      let right : (length hp / 8 == setup.torrent.lengths.piece_bitfield_bytes) ≡ true =
        ground (arith, size) in
      let (chosen, e) = to_validate-Returns hp size in
      let ok =
        validate_pieces-false (valid_only setup.torrent.lengths (ones chosen))
          (valid_only-valid setup.torrent.lengths (ones chosen) ready.laws) in
      rw (right, e, ◌>>=◌, ok) refl
