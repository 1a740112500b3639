-- ===== src/Streaming/Seeking.antt =====
-- `start_seek` of src/torrent_state/streaming.rs computes in `i64` and goes where integers go.
use librtbit.Base.{
  ℕ, ◌+◌, ◌^◌, ◌≤◌, ◌<◌, ◌≡◌, refl, ap, inl, inr, true, false, none, some, arith, ◌>>=◌, Returns,
  Option-cases,
}
use librtbit.Lengths.{Lengths}
use librtbit.Streaming.{
  TorrentStreams, FileStream, SeekFrom, from_start, end_forward, end_backward, current_forward,
  current_backward, seek_target, start_seek,
}
use librtbit.Streaming.Polling.{IsOpen, SameOthers, set_position-IsOpen}

-- The position `p` is what the seek asks for.
abbrev Aims : FileStream → SeekFrom → ℕ → Type 0
Aims fs (from_start n) p = p ≡ n
Aims fs (end_forward n) p = p ≡ fs.file_len + n
Aims fs (end_backward n) p = p + n ≡ fs.file_len
Aims fs (current_forward n) p = p ≡ fs.position + n
Aims fs (current_backward n) p = p + n ≡ fs.position

seek_target-Aims :
    (fs : FileStream) (from : SeekFrom) (p : ℕ)
    → fs.file_len < 2 ^ 63
    → fs.position ≤ fs.file_len
    → seek_target fs from ≡ some p
    → (p ≤ fs.file_len) × Aims fs from p
unfolding seek_target
seek_target-Aims fs (from_start n) p small within e = ground arith
seek_target-Aims fs (end_forward n) p small within e = ground arith
seek_target-Aims fs (end_backward n) p small within e = ground arith
seek_target-Aims fs (current_forward n) p small within e = ground arith
seek_target-Aims fs (current_backward n) p small within e = ground arith

seek_target-none :
    (fs : FileStream) (from : SeekFrom) (p : ℕ)
    → fs.file_len < 2 ^ 63
    → fs.position ≤ fs.file_len
    → seek_target fs from ≡ none
    → p ≤ fs.file_len
    → ¬ Aims fs from p
unfolding seek_target
seek_target-none fs (from_start n) p small within e inside aims = ground arith
seek_target-none fs (end_forward n) p small within e inside aims = ground arith
seek_target-none fs (end_backward n) p small within e inside aims = ground arith
seek_target-none fs (current_forward n) p small within e inside aims = ground arith
seek_target-none fs (current_backward n) p small within e inside aims = ground arith

-- On an open stream of a file shorter than 2^63 bytes `start_seek` does not panic. It succeeds
-- exactly if the place asked for lies in the file, its end included, and then the stream is there;
-- otherwise nothing changes. The stream is open afterwards, and other streams are not touched.
pub start_seek-Aims :
    (l : Lengths) (fs : FileStream) (ts : TorrentStreams) (from : SeekFrom)
    → fs.file_len < 2 ^ 63
    → IsOpen l fs ts
    → Returns (start_seek fs ts from) (λ (ok, fs', ts').
      IsOpen l fs' ts'
      × SameOthers fs.stream_id ts ts'
      × (ok ≡ true
          → (fs' ≡ record fs { position = fs'.position })
            × (fs'.position ≤ fs.file_len)
            × Aims fs from fs'.position)
      × (ok ≡ false → (fs' ≡ fs) × (ts' ≡ ts) × ((p : ℕ) → p ≤ fs.file_len → ¬ Aims fs from p)))
unfolding start_seek
start_seek-Aims l fs ts from small o = elim (Option-cases (seek_target fs from)) [
  | inl refused ↦
      rw (start_seek, refused)
        (
          _,
          refl,
          (
            o,
            (λ j other. refl),
            (λ same. absurd (cc)),
            λ same.
                (refl, refl, λ p inside. seek_target-none fs from p small o.within refused inside),
          ),
        )
  | inr (p, target) ↦
      let (inside, aims) = seek_target-Aims fs from p small o.within target in
      let (after, set, (o', now, others)) = set_position-IsOpen fs ts p o inside in
      let at : (after.0).position ≡ p = ap (λ (f : FileStream). f.position) now in
      rw (start_seek, target, set, ◌>>=◌)
        (_, refl, (o', others, (λ same. rw at (now, inside, aims)), λ same. absurd (cc)))
]
