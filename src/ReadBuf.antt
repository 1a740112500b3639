-- ===== src/ReadBuf.antt =====
-- src/read_buf.rs: the ring buffer that messages of a peer are read into. The parsers of the wire
-- protocol and the socket belong to other crates: a parser is a function of the bytes, and a socket
-- is the list of what its next reads return, none longer than the room that it is offered.
pub mod Ring
use librtbit.Base.{
  ℕ, zero, suc, ◌+◌, ◌-◌, ◌%◌, Bool, true, false, Option, none, some, List, [], ◌∷◌, ◌++◌, ltb,
  ◌==◌, if◌then◌else◌, length, take, drop, replicate, set, min,
}
use librtbit.Base.Bits.{Range}

abbrev buflen : ℕ
buflen = 32768

pub record ReadBuf : Type 0 where
  pub buf : List ℕ
  pub start : ℕ
  pub len : ℕ

unfoldable pub new : ReadBuf
new = record { buf = replicate buflen 0; start = 0; len = 0 }

abbrev as_slice_ranges : ReadBuf → Range × Range
as_slice_ranges rb =
    let len = min rb.len buflen in
    let start = min rb.start buflen in
    let first_len = min len (buflen - start) in
    (record { start = start; end = start + first_len }, record { start = 0; end = len - first_len })

abbrev pub slice : List ℕ → Range → List ℕ
slice bytes r = take (r.end - r.start) (drop r.start bytes)

abbrev as_slices : ReadBuf → List ℕ × List ℕ
as_slices rb = let (first, second) = as_slice_ranges rb in (slice rb.buf first, slice rb.buf second)

pub advance : ReadBuf → ℕ → ReadBuf
advance rb n = record rb { len = rb.len - n; start = (rb.start + n) % buflen }

unfoldable pub is_contiguous : ReadBuf → Bool
is_contiguous rb = rb.start + rb.len == (rb.start + rb.len) % buflen

-- `none` is `BugReadBufMakeContiguous`.
pub make_contiguous : ReadBuf → Option ReadBuf
unfolding is_contiguous
make_contiguous rb =
    if is_contiguous rb
    then none
    else (let (first, second) = as_slices rb in
        let bytes = first ++ second in
        some
          (record { buf = bytes ++ replicate (buflen - length bytes) 0; start = 0; len = rb.len }))

unfoldable is_full : ReadBuf → Bool
is_full rb = rb.len == buflen

-- The two parts of the buffer that a read fills, in order.
abbrev unfilled_ranges : ReadBuf → Range × Range
unfilled_ranges rb =
    let write_start = (rb.start + rb.len) % buflen in
    let available_len = buflen - rb.len in
    let first_len = min (buflen - write_start) available_len in
    let second_len = available_len - first_len in
    (
      record { start = write_start; end = write_start + first_len },
      record { start = 0; end = min second_len write_start },
    )

-- Bytes written over those from `i` on.
abbrev pub write_at : List ℕ → ℕ → List ℕ → List ℕ
write_at bytes i [] = bytes
write_at bytes i (b ∷ bs) = write_at (set bytes i b) (suc i) bs

-- A read of `data` into `unfilled_ioslices`, and `self.len += size`.
pub receive : ReadBuf → List ℕ → ReadBuf
receive rb bytes_read =
    let (first, second) = unfilled_ranges rb in
    let first_len = first.end - first.start in
    record rb {
      buf =
          write_at (write_at rb.buf first.start (take first_len bytes_read)) second.start
            (drop first_len bytes_read);
      len = rb.len + length bytes_read;
    }

pub data Error : Type 0 where
  peer_disconnected_reading_handshake peer_disconnected deserialize_handshake deserialize : Error
  read_buf_full : ℕ → Error
  bug_make_contiguous starved : Error

-- A result, with the buffer after it and what the socket has left.
pub data Result {ℓ} (A : Type ℓ) : Type ℓ where
  ok : A → ReadBuf → List (List ℕ) → Result A
  err : Error → Result A

-- The first read of a connection goes to the front of the buffer.
read_handshake {ℓ} : {H : Type ℓ} → (List ℕ → Option (H × ℕ)) → ReadBuf → List (List ℕ) → Result H
read_handshake parse rb [] = err starved
read_handshake parse rb (bytes_read ∷ conn) =
    let rb' = record rb { buf = write_at rb.buf 0 bytes_read; len = length bytes_read } in
    if rb'.len == 0
    then err peer_disconnected_reading_handshake
    else elim (parse (take rb'.len rb'.buf)) [
      | none ↦ err deserialize_handshake
      | some (h, size) ↦ ok h (advance rb' size) conn
    ]

-- `Message::deserialize` on the two slices.
data Parsed {ℓ} (M : Type ℓ) : Type ℓ where
  message : M → ℕ → Parsed M
  not_enough_data : ℕ → Parsed M
  need_contiguous malformed : Parsed M

-- The loop that reads what is missing.
pub fill : ReadBuf → ℕ → List (List ℕ) → Result (Unit {0})
fill rb need conn = go rb need conn
  where
    go : ReadBuf → ℕ → List (List ℕ) → Result (Unit {0})
    go rb zero conn = ok tt rb conn
    go rb (suc need) [] = if is_full rb then err (read_buf_full (suc need)) else err starved
    go rb (suc need) (bytes_read ∷ conn) =
        let rest = go (receive rb bytes_read) (suc need - length bytes_read) conn in
        if is_full rb
        then err (read_buf_full (suc need))
        else if length bytes_read == 0
        then err peer_disconnected
        else rest

-- `read_message`, for at most `fuel` rounds of its loop.
read_message {ℓ} :
    {M : Type ℓ} → ℕ → (List ℕ → List ℕ → Parsed M) → ReadBuf → List (List ℕ) → Result M
unfolding advance make_contiguous fill
read_message zero parse rb conn = err starved
read_message (suc fuel) parse rb conn =
    let (first, second) = as_slices rb in
    elim (parse first second) [
      | message m size ↦ ok m (advance rb size) conn
      | malformed ↦ err deserialize
      | need_contiguous ↦ elim (make_contiguous rb) [
        | none ↦ err bug_make_contiguous
        | some rb' ↦ read_message fuel parse rb' conn
      ]
      | not_enough_data need ↦ elim (fill rb need conn) [
        | ok _ rb' conn' ↦ read_message fuel parse rb' conn'
        | err e ↦ err e
      ]
    ]
