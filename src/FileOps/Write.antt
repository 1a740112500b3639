-- ===== src/FileOps/Write.antt =====
-- `write_chunk` of src/file_ops.rs puts the chunk's bytes in the torrent, and `read_chunk` gives
-- them back.
use librtbit.Base.{
  ℕ, suc, ◌+◌, ◌-◌, ◌≤◌, ◌<◌, ◌≡◌, ◌≢◌, refl, ap, ◌∙◌, sym, inl, inr, Bool, true, false, not, some,
  List, [], ◌∷◌, arith, if◌then◌else◌, ltb, ◌==◌, length, take, drop, replicate, min, ◌>>=◌,
  length-append, Returns, length-replicate, length-take, length-drop, take_min, Bool-cases,
}
use librtbit.FileInfo.{FileInfo}
use librtbit.Lengths.{ChunkInfo}
use librtbit.FileOps.{
  TorrentStorage, DoubleBufHelper, Torrent, write_part, write_loop, write_chunk, read_chunk,
}
use librtbit.FileOps.Layout.{IsStorage, IsBuffer, overwrite, content, flat, IsAllocated}
use librtbit.FileOps.Mask.{
  stored, blanked, overwrite_nothing, length-overwrite, overwrite_after, overwrite_file,
  overwrite-blanked, cut-overwrite, length-blanked, stored_after, drop-min,
}
use librtbit.FileOps.Read.{read_chunk-flat}

-- What the files from number `i` on hold depends on those files only.
flat-ext :
    (v w : ℕ → List ℕ) (i : ℕ) (fis : List FileInfo)
    → ((g : ℕ) → i ≤ g → v g ≡ w g)
    → flat v i fis ≡ flat w i fis
flat-ext v w i [] same = refl
flat-ext v w i (fi ∷ fis) same =
    rw (same i (omega arith), flat-ext v w (suc i) fis (λ g h. same g (omega arith))) refl

IsAllocated-ext :
    (v w : ℕ → List ℕ) (i : ℕ) (fis : List FileInfo)
    → ((g : ℕ) → i ≤ g → v g ≡ w g)
    → IsAllocated v i fis
    → IsAllocated w i fis
IsAllocated-ext v w i [] same a = tt
IsAllocated-ext v w i (fi ∷ fis) same (e, a) = (
  ap (λ c. length (if fi.attrs.padding then replicate fi.len 0 else c)) (sym (same i (omega arith)))
      ∙ e,
  IsAllocated-ext v w (suc i) fis (λ g h. same g (omega arith)) a,
)

-- The storage after `ds` was written from `off` on over the files from number `i` on.
record Written (v w : ℕ → List ℕ) (i off : ℕ) (ds : List ℕ) (fis : List FileInfo) : Type 0 where
  pub earlier : (g : ℕ) → g < i → w g ≡ v g
  pub now_flat : flat w i fis ≡ overwrite off (blanked (drop off (stored fis)) ds) (flat v i fis)
  pub now_allocated : IsAllocated w i fis

module _ {S D : Type 0} {storage : TorrentStorage S} {helper : DoubleBufHelper D}
    {view : S → ℕ → List ℕ} {contents : D → List ℕ} (lawful : IsStorage storage view)
    (buffered : IsBuffer helper contents) where
  write_part-Returns :
      (s : S) (i : ℕ) (fi : FileInfo) (off : ℕ) (d : D)
      → length (content (view s) i fi) ≡ fi.len
      → off ≤ fi.len
      → Returns (write_part storage helper s i fi off d (min (helper.len d) (fi.len - off))) (λ s'.
        (content (view s') i fi
          ≡ overwrite off
              (blanked (replicate (fi.len - off) (not fi.attrs.padding)) (contents d))
              (content (view s) i fi))
        × ((g : ℕ) → g ≢ i → view s' g ≡ view s g))
  unfolding write_part
  write_part-Returns s i fi off d e h =
      let n : ℕ = min (helper.len d) (fi.len - off) in
      let size = buffered.len-contents d in
      let sl = buffered.slices d n (omega arith) in
      let len_n : length (take n (contents d)) ≡ n = omega (arith, length-take n (contents d)) in
      elim (Bool-cases fi.attrs.padding) [
        | inl padded ↦ rw padded (
          s,
          refl,
          (sym (overwrite-blanked true off (fi.len - off) fi.len (contents d) []), λ g other. refl),
        )
        | inr real ↦
            let e' : length (view s i) ≡ fi.len = rw real at e in
            let w =
              lawful.writes s i off (helper.as_ioslices d n).0 (helper.as_ioslices d n).1
                (rw sl (omega arith)) in
            let cut : take (fi.len - off) (contents d) ≡ take n (contents d) =
              take_min (fi.len - off) (contents d) ∙ rw (sym size) refl in
            rw real (
              w.0,
              w.1,
              (
                w.2.0
                    ∙ rw
                        (
                          sl,
                          overwrite-blanked false off (fi.len - off) fi.len (contents d) (view s i),
                          cut,
                        )
                        refl,
                w.2.1,
              ),
            )
      ]

content-ext :
    (v w : ℕ → List ℕ) (i : ℕ) (fi : FileInfo) → v i ≡ w i → content v i fi ≡ content w i fi
content-ext v w i fi same = ap (λ c. if fi.attrs.padding then replicate fi.len 0 else c) same

blanked_nil : (bs : List Bool) → blanked bs [] ≡ []
blanked_nil [] = refl
blanked_nil (b ∷ bs) = refl

Written_nothing :
    (v : ℕ → List ℕ) (i : ℕ) (ds : List ℕ) (fis : List FileInfo)
    → length ds ≡ 0
    → IsAllocated v i fis
    → Written v v i 0 ds fis
Written_nothing v i [] fis e a = record {
  earlier = λ g h. refl;
  now_flat = rw (blanked_nil, overwrite_nothing) refl;
  now_allocated = a;
}
Written_nothing v i (d ∷ ds) fis e a = absurd (omega arith)

-- A write that starts after the first file.
Written_after :
    (v w : ℕ → List ℕ) (i off : ℕ) (ds : List ℕ) (fi : FileInfo) (fis : List FileInfo)
    → fi.len ≤ off
    → length (content v i fi) ≡ fi.len
    → Written v w (suc i) (off - fi.len) ds fis
    → Written v w i off ds (fi ∷ fis)
Written_after v w i off ds fi fis h e rest =
    let same : content w i fi ≡ content v i fi =
      content-ext w v i fi (rest.earlier i (omega arith)) in
    record {
      earlier = λ g before. rest.earlier g (omega arith);
      now_flat =
          rw
            (
              same,
              rest.now_flat,
              stored_after off fi.len (not fi.attrs.padding) (stored fis) h,
              overwrite_after off _ (content v i fi) (flat v (suc i) fis) (omega arith),
              e,
            )
            refl;
      now_allocated = (rw same e, rest.now_allocated);
    }

-- A write that starts in the first file, which `m` is after, and goes on in the others.
Written_in :
    (v m w : ℕ → List ℕ) (i off : ℕ) (ds : List ℕ) (fi : FileInfo) (fis : List FileInfo)
    → off ≤ fi.len
    → length (content v i fi) ≡ fi.len
    → content m i fi
      ≡ overwrite off
          (blanked (replicate (fi.len - off) (not fi.attrs.padding)) ds)
          (content v i fi)
    → ((g : ℕ) → g ≢ i → m g ≡ v g)
    → Written m w (suc i) 0 (drop (fi.len - off) ds) fis
    → Written v w i off ds (fi ∷ fis)
Written_in v m w i off ds fi fis h e now others rest =
    let same : content w i fi ≡ content m i fi =
      content-ext w m i fi (rest.earlier i (omega arith)) in
    let later : flat m (suc i) fis ≡ flat v (suc i) fis =
      flat-ext m v (suc i) fis (λ g after. others g (λ same_file. omega arith)) in
    record {
      earlier = λ g before. rest.earlier g (omega arith) ∙ others g (λ same_file. omega arith);
      now_flat =
          rw
            (
              same,
              now,
              rest.now_flat,
              later,
              overwrite_file off fi.len (not fi.attrs.padding) (stored fis) ds (content v i fi)
                  (flat v (suc i) fis) h e,
            )
            refl;
      now_allocated = (rw (same, now, length-overwrite) e, rest.now_allocated);
    }

module _ {S D : Type 0} {storage : TorrentStorage S} {helper : DoubleBufHelper D}
    {view : S → ℕ → List ℕ} {contents : D → List ℕ} (lawful : IsStorage storage view)
    (buffered : IsBuffer helper contents) where
  write_loop-Written :
      (s : S) (i off : ℕ) (d : D) (fis : List FileInfo)
      → IsAllocated (view s) i fis
      → Returns
          (write_loop storage helper s i off d fis)
          (λ s'. Written (view s) (view s') i off (contents d) fis)
  unfolding write_loop
  write_loop-Written s i off d [] a =
      (s, refl, record { earlier = λ g h. refl; now_flat = refl; now_allocated = tt })
  write_loop-Written s i off d (fi ∷ fis) (e, a) = elim (Bool-cases (ltb fi.len off)) [
    | inl after ↦
        let rest = write_loop-Written s (suc i) (off - fi.len) d fis a in
        rw after (
          rest.0,
          rest.1,
          Written_after (view s) (view rest.0) i off (contents d) fi fis (ground arith) e rest.2,
        )
    | inr inside ↦
        let n : ℕ = min (helper.len d) (fi.len - off) in
        let part = write_part-Returns lawful buffered s i fi off d e (ground arith) in
        let left = helper.advance d n in
        let now_left : contents left ≡ drop (fi.len - off) (contents d) =
          buffered.advances d n (omega (arith, buffered.len-contents d))
          ∙ rw (buffered.len-contents d) (drop-min (fi.len - off) (contents d)) in
        let a1 =
          IsAllocated-ext (view s) (view part.0) (suc i) fis
            (λ g h. sym (part.2.1 g (λ same. omega arith))) a in
        let rest = write_loop-Written part.0 (suc i) 0 left fis a1 in
        let join : (w : ℕ → List ℕ)
            → Written (view part.0) w (suc i) 0 (contents left) fis
            → Written (view s) w i off (contents d) (fi ∷ fis) =
          λ w h.
            Written_in (view s) (view part.0) w i off (contents d) fi fis (ground arith) e part.2.0
              part.2.1 (rw (← now_left) h) in
        elim (Bool-cases (helper.len left == 0)) [
          | inl over ↦
              rw (inside, part.1, ◌>>=◌, over)
                (
                  part.0,
                  refl,
                  join (view part.0) (
                      Written_nothing (view part.0) (suc i) (contents left) fis
                        (ground (arith, buffered.len-contents left)) a1),
                )
          | inr more ↦ rw (inside, part.1, ◌>>=◌, more) (rest.0, rest.1, join (view rest.0) rest.2)
        ]
  ]

  -- `write_chunk` returns, and afterwards the torrent holds the chunk's bytes at the chunk's place,
  -- up to the end of the torrent and with zeros where padding is, and its old bytes elsewhere;
  -- every file has its length still. This is for files that are allocated.
  pub write_chunk-flat :
      (t : Torrent) (fis : List FileInfo) (s : S) (d : D) (c : ChunkInfo)
      → IsAllocated (view s) 0 fis
      → Returns (write_chunk storage helper t fis s d c) (λ s'.
        (flat (view s') 0 fis
          ≡ overwrite
              (t.lengths.chunk_absolute_offset c)
              (blanked (drop (t.lengths.chunk_absolute_offset c) (stored fis)) (contents d))
              (flat (view s) 0 fis))
        × IsAllocated (view s') 0 fis)
  unfolding write_chunk
  write_chunk-flat t fis s d c a =
      let w = write_loop-Written s 0 (t.lengths.chunk_absolute_offset c) d fis a in
      (w.0, w.1, (w.2.now_flat, w.2.now_allocated))

length-stored :
    (v : ℕ → List ℕ) (i : ℕ) (fis : List FileInfo)
    → IsAllocated v i fis
    → length (stored fis) ≡ length (flat v i fis)
length-stored v i [] a = refl
length-stored v i (fi ∷ fis) (e, a) =
    rw
      (
        length-append (replicate fi.len (not fi.attrs.padding)) (stored fis),
        length-append (content v i fi) (flat v (suc i) fis),
        length-replicate,
        e,
      )
      (omega (arith, length-stored v (suc i) fis a))

module _ {S D : Type 0} {storage : TorrentStorage S} {helper : DoubleBufHelper D}
    {view : S → ℕ → List ℕ} {contents : D → List ℕ} (lawful : IsStorage storage view)
    (buffered : IsBuffer helper contents) where
  -- What `write_chunk` writes, `read_chunk` reads, with zeros where padding is; and the write
  -- returns. This is for allocated files, a chunk that lies in the torrent, and a buffer as long as
  -- the data and no shorter than the chunk.
  pub read_chunk-write_chunk :
      (t : Torrent) (fis : List FileInfo) (s : S) (d : D) (c : ChunkInfo) (buf : List ℕ)
      → IsAllocated (view s) 0 fis
      → length buf ≡ length (contents d)
      → c.size ≤ length buf
      → t.lengths.chunk_absolute_offset c + length buf ≤ length (flat (view s) 0 fis)
      → Returns (write_chunk storage helper t fis s d c) (λ s'.
        read_chunk storage t fis s' c buf
        ≡ some (blanked (drop (t.lengths.chunk_absolute_offset c) (stored fis)) (contents d)))
  read_chunk-write_chunk t fis s d c buf a same room fit =
      let off = t.lengths.chunk_absolute_offset c in
      let ds = blanked (drop off (stored fis)) (contents d) in
      let w = write_chunk-flat lawful buffered t fis s d c a in
      let size : length ds ≡ length buf =
        rw (length-blanked, length-drop) (omega (arith, length-stored (view s) 0 fis a)) in
      let now : length (flat (view w.0) 0 fis) ≡ length (flat (view s) 0 fis) =
        rw (w.2.0) (length-overwrite off ds _) in
      let cut : take (length buf) (drop off (flat (view w.0) 0 fis)) ≡ ds =
        rw (w.2.0, ← size) (cut-overwrite off ds (flat (view s) 0 fis) (omega arith)) in
      let enough : ltb (length buf) c.size ≡ false = ground arith in
      (w.0, w.1, read_chunk-flat lawful t fis w.0 c buf w.2.1 (omega arith) ∙ rw (enough, cut) refl)
