-- ===== src/FileInfo.antt =====
-- src/file_info.rs: a file's place in the torrent, and the order in which its pieces are wanted.
pub mod Order
use Prim.Native.String.{String}
use librtbit.Base.{
  ℕ, ◌+◌, ◌-◌, ◌%◌, ◌^◌, Bool, List, [], ◌∷◌, ◌++◌, take, drop, range_from, add64, sub64,
}
use librtbit.Base.Bits.{Range}

-- `FileDetailsAttrs` of librtbit_core, by the field that the code reads.
pub record FileDetailsAttrs : Type 0 where
  pub padding : Bool

pub record FileInfo : Type 0 where
  pub relative_filename : String
  pub offset_in_torrent : ℕ
  pub piece_range : Range
  pub attrs : FileDetailsAttrs
  pub len : ℕ

-- `r.len()`, which is 0 for a range that ends before it starts
abbrev pub range_len : Range → ℕ
range_len r = r.end - r.start

-- The numbers of a range, in order.
abbrev pub elements : Range → List ℕ
elements r = range_from r.start (range_len r)

-- A release build's `usize` addition, which wraps.
pub iter_piece_priorities : Range → List ℕ
iter_piece_priorities r =
    let first = r.start ∷ [] in
    let last = add64 r.start (sub64 (range_len r) 1) ∷ [] in
    let mid = take (sub64 (range_len r) 2) (drop 1 (elements r)) in
    take (range_len r) (first ++ (last ++ mid))
