-- ===== src/FileOps/Initial/Pass.antt =====
-- The single pass of `initial_check` is at each piece's place when it comes to the piece.
use librtbit.Base.{
  ℕ, zero, suc, ◌+◌, ◌-◌, ◌≤◌, ◌<◌, ◌≡◌, refl, ap, ◌∙◌, sym, inl, inr, false, some, List, [], ◌∷◌,
  ◌++◌, arith, ◌==◌, length, take, drop, min, ◌>>=◌, Returns, length-drop, take-append, take_add,
  drop-append, drop-drop, drop_all, Bool-cases,
}
use mathlib.Core.List.{append-nil}
use librtbit.FileInfo.{FileInfo}
use librtbit.FileOps.{TorrentStorage, Sha1, update_hash_from_file}
use librtbit.FileOps.Layout.{IsStorage, IsHash, content, flat, IsAllocated}
use librtbit.FileOps.Hash.{update_hash_from_file-content}
use librtbit.FileOps.Initial.{
  CurrentFile, Reading, PieceCheck, current_file, remaining, next_file, note_read,
  read_from_current, piece_loop,
}

-- The bytes that are still to read.
abbrev pub todo : (ℕ → List ℕ) → CurrentFile → List FileInfo → List ℕ
todo v cur fis = drop cur.processed_bytes (content v cur.index cur.fi) ++ flat v (suc cur.index) fis

-- The pass has met no error, and the files left are allocated.
pub record IsSound (v : ℕ → List ℕ) (cur : CurrentFile) (fis : List FileInfo) : Type 0 where
  pub intact : cur.is_broken ≡ false
  pub within : cur.processed_bytes ≤ cur.fi.len
  pub sized : length (content v cur.index cur.fi) ≡ cur.fi.len
  pub rest_sized : IsAllocated v (suc cur.index) fis

-- A file that was read whole has nothing left.
todo_over :
    (v : ℕ → List ℕ) (cur : CurrentFile) (fis : List FileInfo)
    → IsSound v cur fis
    → remaining cur ≡ 0
    → todo v cur fis ≡ flat v (suc cur.index) fis
todo_over v cur fis h e =
    rw
      (drop_all cur.processed_bytes (content v cur.index cur.fi) (omega (arith, h.within, h.sized)))
      refl

-- `next_file` finds a file with something to read, and passes over no byte.
next_file-Returns :
    (v : ℕ → List ℕ) (cur : CurrentFile) (fis : List FileInfo) (n : ℕ)
    → IsSound v cur fis
    → 0 < n
    → n ≤ length (todo v cur fis)
    → Returns (next_file cur fis n) (λ r.
      IsSound v r.current r.file_iterator
      × (todo v r.current r.file_iterator ≡ todo v cur fis)
      × (0 < remaining r.current))
unfolding next_file
next_file-Returns v cur [] n h pos fit = elim (Bool-cases (min (remaining cur) n == 0)) [
  | inl over ↦
      let e : remaining cur ≡ 0 = ground arith in
      absurd
        (let t : length (todo v cur []) ≡ 0 = ap length (todo_over v cur [] h e) in omega arith)
  | inr some_left ↦ rw some_left (_, refl, (h, refl, ground arith))
]
next_file-Returns v cur (fi ∷ fis) n h pos fit = elim (Bool-cases (min (remaining cur) n == 0)) [
  | inl over ↦
      let e : remaining cur ≡ 0 = ground arith in
      let t = todo_over v cur (fi ∷ fis) h e in
      let h' : IsSound v (current_file (suc cur.index) fi) fis = record {
        intact = refl;
        within = omega arith;
        sized = h.rest_sized.0;
        rest_sized = h.rest_sized.1;
      } in
      let later =
        next_file-Returns v (current_file (suc cur.index) fi) fis n h' pos (rw (← t) fit) in
      rw over (later.0, later.1, (later.2.0, later.2.1 ∙ sym t, later.2.2))
  | inr some_left ↦ rw some_left (_, refl, (h, refl, ground arith))
]

-- From `r` with the hash `h` on, `m` bytes were read and hashed without an error.
pub record IsRead {H : Type 0} (v : ℕ → List ℕ) (sha1 : Sha1 H) (r : Reading) (h : H) (m : ℕ)
    (q : PieceCheck H) : Type 0 where
  pub sound : IsSound v q.reading.current q.reading.file_iterator
  pub moved :
      todo v q.reading.current q.reading.file_iterator ≡ drop m (todo v r.current r.file_iterator)
  pub hashed : q.computed_hash ≡ sha1.update h (take m (todo v r.current r.file_iterator))
  pub unbroken : q.some_files_broken ≡ false

module _ {S H : Type 0} {storage : TorrentStorage S} {sha1 : Sha1 H} {view : S → ℕ → List ℕ}
    (lawful : IsStorage storage view) (hashes : IsHash sha1) where
  read_from_current-IsRead :
      (s : S) (r : Reading) (n : ℕ) (pc : PieceCheck H)
      → IsSound (view s) r.current r.file_iterator
      → n ≤ remaining r.current
      → pc.some_files_broken ≡ false
      → IsRead (view s) sha1 r pc.computed_hash n (read_from_current storage sha1 s r n pc)
  unfolding read_from_current note_read
  read_from_current-IsRead s r n pc h fit whole =
      let cur = r.current in
      let c = content (view s) cur.index cur.fi in
      let rest = flat (view s) (suc cur.index) r.file_iterator in
      let room : length (drop cur.processed_bytes c) ≡ remaining cur =
        rw (length-drop, h.sized) refl in
      let none_over : n - length (drop cur.processed_bytes c) ≡ 0 = omega arith in
      let read : update_hash_from_file storage sha1 cur.index cur.fi cur.processed_bytes s
            pc.computed_hash 65536 n
          ≡ some (sha1.update pc.computed_hash (take n (drop cur.processed_bytes c))) =
        update_hash_from_file-content lawful hashes s cur.index cur.fi cur.processed_bytes
          pc.computed_hash 65536 n (omega arith) h.sized (omega (arith, h.within)) in
      let taken : take n (drop cur.processed_bytes c ++ rest)
          ≡ take n (drop cur.processed_bytes c) =
        rw (take-append, none_over) (append-nil _) in
      let left : drop n (drop cur.processed_bytes c ++ rest)
          ≡ drop (cur.processed_bytes + n) c ++ rest =
        rw
          (
            drop-append n (drop cur.processed_bytes c) rest,
            none_over,
            drop-drop n cur.processed_bytes (cur.processed_bytes + n) c refl,
          )
          refl in
      rw (h.intact, read)
        (record {
          sound = record {
            intact = refl;
            within = omega (arith, h.within);
            sized = h.sized;
            rest_sized = h.rest_sized;
          };
          moved = sym left;
          hashed = rw taken refl;
          unbroken = whole;
        })

  pub piece_loop-Returns :
      (s : S) (fuel : ℕ) (pc : PieceCheck H) (m : ℕ)
      → IsSound (view s) pc.reading.current pc.reading.file_iterator
      → pc.some_files_broken ≡ false
      → m ≤ fuel
      → m ≤ length (todo (view s) pc.reading.current pc.reading.file_iterator)
      → Returns
          (piece_loop storage sha1 fuel s pc m)
          (IsRead (view s) sha1 pc.reading pc.computed_hash m)
  unfolding piece_loop
  piece_loop-Returns s fuel pc zero h whole enough fit = (
    pc,
    refl,
    record { sound = h; moved = refl; hashed = rw (hashes.update_nil _) refl; unbroken = whole },
  )
  piece_loop-Returns s zero pc (suc m) h whole enough fit = absurd (omega arith)
  piece_loop-Returns s (suc fuel) pc (suc m) h whole enough fit =
      let all = todo (view s) pc.reading.current pc.reading.file_iterator in
      let (r, found, (sound, same, some_left)) =
        next_file-Returns (view s) pc.reading.current pc.reading.file_iterator (suc m) h
          (omega arith) fit in
      let n : ℕ = min (remaining r.current) (suc m) in
      let one = read_from_current-IsRead s r n pc sound (omega arith) whole in
      let pc' = read_from_current storage sha1 s r n pc in
      let (q, done, rest) =
        piece_loop-Returns s fuel pc' (suc m - n) one.sound one.unbroken (omega arith)
          (rw (one.moved, same, length-drop) (omega arith)) in
      rw (found, ◌>>=◌)
        (
          q,
          done,
          record {
            sound = rest.sound;
            moved =
                rest.moved
                ∙ rw (one.moved, same) (drop-drop (suc m - n) n (suc m) all (omega arith));
            hashed =
                rest.hashed
                ∙ rw
                    (
                      one.hashed,
                      one.moved,
                      same,
                      hashes.update-update,
                      ← take_add n (suc m - n) (suc m) all (omega arith),
                    )
                    refl;
            unbroken = rest.unbroken;
          },
        )
