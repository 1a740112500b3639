-- ===== src/Samples/Disk.antt =====
-- A torrent of ten bytes for the tests of the file operations: pieces of four, four and two bytes;
-- files of five bytes, of three bytes of padding, and of two bytes. The storage is in memory, the
-- hash of a list of bytes is the bytes' sum, and a received block is two lists.
use librtbit.Base.{
  ℕ, zero, suc, ◌+◌, ◌-◌, ◌*◌, ◌/◌, ◌≡◌, refl, sym, Bool, true, false, Option, none, some, List, [],
  ◌∷◌, ◌++◌, arith, ltb, leb, ◌==◌, if◌then◌else◌, length, take, drop, get_or, set, length-append,
  take-append, drop-append, get_or-set_ne,
}
use mathlib.Core.List.{append-nil, append_assoc}
use librtbit.Lengths.{ChunkInfo, CurrentPiece, Lengths, Laws, piece_infos_from}
use librtbit.FileInfo.{FileInfo}
use librtbit.FileOps.{TorrentStorage, Sha1, DoubleBufHelper, Torrent}
use librtbit.FileOps.Layout.{IsStorage, IsHash, IsBuffer, overwrite, IsAllocated}

abbrev piece_length : ℕ → ℕ
piece_length i = if ltb i 2 then 4 else 2

abbrev chunk_of : ℕ → ℕ → ℕ → Option ChunkInfo
chunk_of p begin len =
    some (record { piece_index = p; chunk_index = 0; size = len; offset = begin })

abbrev current_piece : ℕ → ℕ → Option CurrentPiece
current_piece pos offset =
    let i = (offset + pos) / 4 in
    if ltb (offset + pos) 10
    then some (record { id = i; piece_remaining = 4 * i + piece_length i - (offset + pos) })
    else none

abbrev pub lengths : Lengths
lengths = record {
  total_pieces = 3;
  total_length = 10;
  default_piece_length = 4;
  default_chunks_per_piece = 1;
  piece_bitfield_bytes = 1;
  chunk_bitfield_bytes = 1;
  piece_length = piece_length;
  chunks_per_piece = λ i. 1;
  chunk_range = λ i. record { start = 1 * i; end = 1 * i + 1 };
  iter_piece_infos = piece_infos_from piece_length 0 3;
  validate_piece_index = λ i. if ltb i 3 then some i else none;
  chunk_info_from_received_data = chunk_of;
  size_of_piece_in_file = λ p offset len. piece_length p;
  piece_offset = λ i. 4 * i;
  chunk_absolute_offset = λ c. 4 * c.piece_index + c.offset;
  compute_current_piece = current_piece;
}

pub lengths-Laws : Laws lengths
lengths-Laws = record {
  enumerates = refl;
  adds_up = refl;
  total_length_u64 = omega arith;
  total_pieces_u32 = omega arith;
  validates = λ i. refl;
  pieces_fit = omega arith;
  chunks_fit = λ i h. omega arith;
  start_u32 = λ i h. omega arith;
  range_start = λ i. refl;
  range_end = λ i. refl;
  some_chunks = λ i h. omega arith;
  few_chunks = λ i. omega arith;
  chunk_of_piece = λ p begin len c e. ground arith;
  length_some = omega arith;
  covered = omega arith;
  piece_at = λ i. refl;
  piece_then = λ i h. ground arith;
  piece_inside = λ i h. ground arith;
  piece_some = λ i h. ground arith;
  chunk_at = λ c. refl;
  current_some = λ pos offset h. ground arith;
  current_at = λ pos offset c e. ground arith;
}

abbrev file : ℕ → ℕ → Bool → FileInfo
file offset len padding = record {
  relative_filename = "f";
  offset_in_torrent = offset;
  piece_range = record { start = offset / 4; end = (offset + len + 3) / 4 };
  attrs = record { padding = padding };
  len = len;
}

abbrev pub files : List FileInfo
files = file 0 5 false ∷ file 5 3 true ∷ file 8 2 false ∷ []

-- The hashes are those of the bytes 1 to 5, three zeros, and 6 and 7.
abbrev pub torrent : Torrent
torrent = record {
  lengths = lengths;
  compare_hash = λ i d. some (d == (if ltb i 1 then 10 else if ltb i 2 then 5 else 13));
}

-- The files' contents. A write past the end of a file is an error here.
abbrev pub Memory : Type 0
Memory = List (List ℕ)

abbrev pub view : Memory → ℕ → List ℕ
view s f = get_or s f []

abbrev pub memory : TorrentStorage Memory
memory = record {
  pread_exact = λ s f off n.
      if leb (off + n) (length (view s f)) then some (take n (drop off (view s f))) else none;
  pwrite_all_vectored = λ s f off a b.
      if leb (off + length (a ++ b)) (length (view s f))
      then some (set s f (overwrite off (a ++ b) (view s f)))
      else none;
}

overwrite_missing : (off : ℕ) (ds : List ℕ) → overwrite off ds [] ≡ []
overwrite_missing off ds = refl

-- A write to a file that is not there changes nothing; there is none inside it but the empty one.
view-set :
    (s : Memory) (f off : ℕ) (ds : List ℕ)
    → view (set s f (overwrite off ds (view s f))) f ≡ overwrite off ds (view s f)
view-set [] f off ds = refl
view-set (x ∷ s) zero off ds = refl
view-set (x ∷ s) (suc f) off ds = view-set s f off ds

pub memory-IsStorage : IsStorage memory view
memory-IsStorage = record {
  reads = λ s f off n h. ground arith;
  writes = λ s f off a b h.
      let e : leb (off + length (a ++ b)) (length (view s f)) ≡ true = ground arith in
      rw e (
        _,
        refl,
        (view-set s f off (a ++ b), λ g other. get_or-set_ne s f g _ [] (λ same. other (sym same))),
      );
}

abbrev pub sum : List ℕ → ℕ
sum [] = 0
sum (b ∷ bs) = b + sum bs

abbrev pub sha1 : Sha1 (List ℕ)
sha1 = record { new = []; update = λ h bytes. h ++ bytes; finish = sum }

pub sha1-IsHash : IsHash sha1
sha1-IsHash = record { update_nil = append-nil; update-update = λ h a b. append_assoc h a b }

abbrev Block : Type 0
Block = List ℕ × List ℕ

abbrev pub contents : Block → List ℕ
contents d = (d.0) ++ (d.1)

abbrev pub block : DoubleBufHelper Block
block = record {
  len = λ d. length (d.0) + length (d.1);
  as_ioslices = λ d n. (take n (d.0), take (n - length (d.0)) (d.1));
  advance = λ d n. (drop n (d.0), drop (n - length (d.0)) (d.1));
}

pub block-IsBuffer : IsBuffer block contents
block-IsBuffer = record {
  len-contents = λ d. sym (length-append (d.0) (d.1));
  slices = λ d n h. sym (take-append n (d.0) (d.1));
  advances = λ d n h. sym (drop-append n (d.0) (d.1));
}

abbrev pub disk : Memory
disk = (1 ∷ 2 ∷ 3 ∷ 4 ∷ 5 ∷ []) ∷ [] ∷ (6 ∷ 8 ∷ []) ∷ []

pub disk-IsAllocated : IsAllocated (view disk) 0 files
disk-IsAllocated = (refl, (refl, (refl, tt)))

-- Three bytes of the second piece, one of the first file and two of padding; and the third piece.
abbrev pub chunk : ℕ → ℕ → ChunkInfo
chunk i size = record { piece_index = i; chunk_index = 0; size = size; offset = 0 }
