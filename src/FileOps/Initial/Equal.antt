-- ===== src/FileOps/Initial/Equal.antt =====
-- `initial_check` finds what `check_piece` finds for each piece.
use librtbit.Base.{
  ℕ, zero, suc, ◌+◌, ◌*◌, ◌%◌, ◌^◌, ◌≤◌, ◌<◌, ◌≡◌, ◌≢◌, refl, ap, ◌∙◌, sym, inl, inr, Bool, true,
  false, none, some, List, [], ◌∷◌, arith, length, drop, ◌>>=◌, Returns, dec_lt, length-replicate,
  length-set, length-drop, get_or-replicate, drop-drop, Option-cases, add64,
}
use librtbit.Base.Bits.{Bits, bit, set_bit_lem, bit-set, zeroed}
use librtbit.FileInfo.{FileInfo}
use librtbit.Lengths.{Laws, piece_offset-suc, piece_infos_from, sum_lengths}
use librtbit.FileOps.{TorrentStorage, Sha1, Torrent, check_piece}
use librtbit.FileOps.Layout.{IsStorage, IsHash, flat, IsAllocated}
use librtbit.FileOps.Hash.{check_piece-flat}
use librtbit.FileOps.Initial.{
  Reading, PieceCheck, current_file, compare_piece, check_pieces, initial_check,
}
use librtbit.FileOps.Initial.Pass.{todo, IsSound, IsRead, piece_loop-Returns}

module _ {H : Type 0} (sha1 : Sha1 H) (t : Torrent) where
  -- The comparison sets the piece's bit, which was not set, to what `compare_hash` says.
  compare_piece-Returns :
      (i len : ℕ) (pc : PieceCheck H) (have : Bits) (ok : Bool)
      → pc.some_files_broken ≡ false
      → t.compare_hash i (sha1.finish pc.computed_hash) ≡ some ok
      → i < length have
      → bit have i ≡ false
      → Returns (compare_piece sha1 t (record { piece_index = i; len = len }) pc have) (λ have'.
        (length have' ≡ length have)
        × (bit have' i ≡ ok)
        × ((j : ℕ) → j ≢ i → bit have' j ≡ bit have j))
  unfolding compare_piece
  compare_piece-Returns i len pc have true whole same inside clear =
      rw (whole, same, ◌>>=◌, set_bit_lem have i true inside)
        (
          _,
          refl,
          (
            length-set have i true,
            ground (arith, bit-set have i i true inside),
            λ j other. ground (arith, bit-set have i j true inside),
          ),
        )
  compare_piece-Returns i len pc have false whole same inside clear =
      rw (whole, same, ◌>>=◌) (have, refl, (refl, clear, λ j other. refl))

module _ {S H : Type 0} {storage : TorrentStorage S} {sha1 : Sha1 H} {view : S → ℕ → List ℕ}
    (lawful : IsStorage storage view) (hashes : IsHash sha1) (t : Torrent) (laws : Laws t.lengths)
    (fis : List FileInfo) (s : S) (allocated : IsAllocated (view s) 0 fis)
    (fits : t.lengths.total_length ≤ length (flat (view s) 0 fis))
    (known : (i d : ℕ) → i < t.lengths.total_pieces → t.compare_hash i d ≢ none)
    (is_cancelled : ℕ → Bool) (goes_on : (i : ℕ) → is_cancelled i ≡ false) where
  -- The bits from `i` on are what `check_piece` says, those before are as they were.
  record IsChecked (i : ℕ) (old bits : Bits) : Type 0 where
    same_length : length bits ≡ length old
    pub before : (j : ℕ) → j < i → bit bits j ≡ bit old j
    pub checked :
        (j : ℕ)
        → i ≤ j
        → j < t.lengths.total_pieces
        → check_piece storage sha1 t fis s j ≡ some (bit bits j)

  -- At piece `i`, of which and the later ones nothing is set yet.
  record IsAt (i : ℕ) (r : Reading) (have : Bits) : Type 0 where
    pub sound : IsSound (view s) r.current r.file_iterator
    pub place :
        i < t.lengths.total_pieces
        → todo (view s) r.current r.file_iterator
          ≡ drop (t.lengths.piece_offset i) (flat (view s) 0 fis)
    pub room : t.lengths.total_pieces ≤ length have
    pub unset : (j : ℕ) → i ≤ j → bit have j ≡ false

  -- Piece `i` is compared, and then the pieces after it.
  IsChecked-cons :
      (i : ℕ) (have have' bits : Bits) (ok : Bool)
      → check_piece storage sha1 t fis s i ≡ some ok
      → length have' ≡ length have
      → bit have' i ≡ ok
      → ((j : ℕ) → j ≢ i → bit have' j ≡ bit have j)
      → IsChecked (suc i) have' bits
      → IsChecked i have bits
  IsChecked-cons i have have' bits ok found same_length now others c = record {
    same_length = c.same_length ∙ same_length;
    before = λ j b. c.before j (omega arith) ∙ others j (λ e. omega arith);
    checked = λ j b u. elim (dec_lt i j) [
      | yes later ↦ c.checked j later u
      | no first ↦
          let e : i ≡ j = omega arith in
          rw (← e) (found ∙ ap (λ x. some x) (sym (c.before i (omega arith) ∙ now)))
    ];
  }

  -- After a piece was read the pass is at the next one.
  IsAt-next :
      (i : ℕ) (r : Reading) (pc : PieceCheck H) (have have' : Bits)
      → IsAt i r have
      → i < t.lengths.total_pieces
      → IsRead (view s) sha1 r sha1.new (t.lengths.piece_length i) pc
      → length have' ≡ length have
      → ((j : ℕ) → j ≢ i → bit have' j ≡ bit have j)
      → IsAt (suc i) pc.reading have'
  IsAt-next i r pc have have' at valid read same_length others = record {
    sound = read.sound;
    place = λ more.
        read.moved
        ∙ rw (at.place valid) (
            drop-drop (t.lengths.piece_length i) (t.lengths.piece_offset i)
              (t.lengths.piece_offset (suc i)) (flat (view s) 0 fis)
              (piece_offset-suc t.lengths i laws more));
    room = omega (arith, at.room);
    unset = λ j h. others j (λ e. omega arith) ∙ at.unset j (omega arith);
  }

  check_pieces-IsChecked :
      (n i : ℕ) (r : Reading) (have : Bits) (progress : ℕ)
      → i + n ≡ t.lengths.total_pieces
      → IsAt i r have
      → Returns
          (check_pieces storage sha1 t s is_cancelled r have progress
            (piece_infos_from t.lengths.piece_length i n))
          (λ result.
            IsChecked i have (result.0)
            × (result.1 % 2 ^ 64
                ≡ (progress + sum_lengths (piece_infos_from t.lengths.piece_length i n)) % 2 ^ 64))
  unfolding check_pieces
  check_pieces-IsChecked zero i r have progress last at = (
    (have, progress),
    refl,
    (
      record { same_length = refl; before = λ j h. refl; checked = λ j h u. absurd (omega arith) },
      omega arith,
    ),
  )
  check_pieces-IsChecked (suc n) i r have progress last at =
      let l = t.lengths in
      let valid : i < l.total_pieces = omega arith in
      let place = at.place valid in
      let pc0 : PieceCheck H = record {
        reading = r;
        computed_hash = sha1.new;
        some_files_broken = false;
      } in
      let (pc, looped, read) =
        piece_loop-Returns lawful hashes s (l.piece_length i) pc0 (l.piece_length i) at.sound refl
          (omega arith) (rw (place, length-drop) (omega (arith, laws.piece_inside i valid))) in
      let h : check_piece storage sha1 t fis s i ≡ t.compare_hash i (sha1.finish pc.computed_hash) =
        check_piece-flat lawful hashes t fis s i laws valid allocated fits
        ∙ rw (read.hashed, place) refl in
      elim (Option-cases (t.compare_hash i (sha1.finish pc.computed_hash))) [
        | inl missing ↦ absurd (known i _ valid missing)
        | inr (ok, found) ↦
            let (have', compared, (same_length, now, others)) =
              compare_piece-Returns sha1 t i (l.piece_length i) pc have ok read.unbroken found
                (omega (arith, at.room)) (at.unset i (omega arith)) in
            let (result, rest, (c, count)) =
              check_pieces-IsChecked n (suc i) pc.reading have' (add64 progress (l.piece_length i))
                (omega arith) (IsAt-next i r pc have have' at valid read same_length others) in
            rw (goes_on i, looped, ◌>>=◌, compared)
              (
                result,
                rest,
                (
                  IsChecked-cons i have have' (result.0) ok (h ∙ found) same_length now others c,
                  omega arith,
                ),
              )
      ]

module _ {S H : Type 0} {storage : TorrentStorage S} {sha1 : Sha1 H} {view : S → ℕ → List ℕ}
    (lawful : IsStorage storage view) (hashes : IsHash sha1) where
  -- For a torrent with files, which are allocated, `initial_check` returns if it is not cancelled:
  -- a valid piece's bit is what `check_piece` says of the piece, the bit field has the size of the
  -- torrent's, and the progress has gone up by the torrent's length, as a 64-bit number. This is
  -- for a torrent that has a hash for each valid piece.
  pub initial_check-eq-check_piece :
      (t : Torrent) (fis : List FileInfo) (s : S) (is_cancelled : ℕ → Bool) (progress : ℕ)
      → Laws t.lengths
      → 0 < length fis
      → IsAllocated (view s) 0 fis
      → t.lengths.total_length ≤ length (flat (view s) 0 fis)
      → ((i d : ℕ) → i < t.lengths.total_pieces → t.compare_hash i d ≢ none)
      → ((i : ℕ) → is_cancelled i ≡ false)
      → Returns (initial_check storage sha1 t fis s is_cancelled progress) (λ result.
        ((i : ℕ)
          → i < t.lengths.total_pieces
          → check_piece storage sha1 t fis s i ≡ some (bit (result.0) i))
        × (length (result.0) ≡ 8 * t.lengths.piece_bitfield_bytes)
        × (result.1 % 2 ^ 64 ≡ (progress + t.lengths.total_length) % 2 ^ 64))
  unfolding initial_check
  initial_check-eq-check_piece t [] s is_cancelled progress laws some_file a fits known goes_on =
      absurd (omega arith)
  initial_check-eq-check_piece t (fi ∷ fis) s is_cancelled progress laws some_file (e, a) fits known
        goes_on =
      let r : Reading = record { current = current_file 0 fi; file_iterator = fis } in
      let zeros = zeroed t.lengths.piece_bitfield_bytes in
      let (result, done, (c, count)) =
        check_pieces-IsChecked lawful hashes t laws (fi ∷ fis) s (e, a) fits known is_cancelled
          goes_on t.lengths.total_pieces 0 r zeros progress (omega arith)
          (record {
            sound = record { intact = refl; within = omega arith; sized = e; rest_sized = a };
            place = λ h.
                let z : t.lengths.piece_offset 0 ≡ 0 = laws.piece_at 0 ∙ omega arith in rw z refl;
            room = omega (
              arith,
              length-replicate (8 * t.lengths.piece_bitfield_bytes) false,
              laws.pieces_fit,
            );
            unset = λ j h. get_or-replicate (8 * t.lengths.piece_bitfield_bytes) j false;
          }) in
      let sum : sum_lengths (piece_infos_from t.lengths.piece_length 0 t.lengths.total_pieces)
          ≡ t.lengths.total_length =
        ap sum_lengths (sym laws.enumerates) ∙ laws.adds_up in
      (
        result,
        ap (λ ps. check_pieces storage sha1 t s is_cancelled r zeros progress ps) laws.enumerates
            ∙ done,
        (
          λ i valid. c.checked i (omega arith) valid,
          c.same_length ∙ length-replicate (8 * t.lengths.piece_bitfield_bytes) false,
          count ∙ ap (λ n. (progress + n) % 2 ^ 64) sum,
        ),
      )
