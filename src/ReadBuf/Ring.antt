-- ===== src/ReadBuf/Ring.antt =====
-- src/read_buf.rs: the ring buffer as a queue of bytes.
use librtbit.Base.{
  ℕ, zero, suc, ◌+◌, ◌-◌, ◌%◌, ◌≤◌, ◌<◌, ◌≡◌, refl, ap, ◌∙◌, false, List, [], ◌∷◌, ◌++◌, arith, ltb,
  if◌then◌else◌, length, take, drop, replicate, set, get_or, length-replicate, min, length-set,
  length-append, length-take, length-drop, get_or-set_self, get_or-set_ne, ℕ_discrete, Returns,
}
use librtbit.ReadBuf.{ReadBuf, advance, make_contiguous, is_contiguous, receive, write_at}

pub record IsRing (rb : ReadBuf) : Type 0 where
  pub sized : length rb.buf ≡ 32768
  pub start_within : rb.start < 32768
  pub len_within : rb.len ≤ 32768

-- Byte `i` of the queue, counted from its front.
abbrev pub at : ReadBuf → ℕ → ℕ
at rb i = get_or rb.buf ((rb.start + i) % 32768) 0

-- On a buffer of the right size, advancing by no more bytes than it holds takes just these off the
-- front of the queue.
advance-pops :
    (rb : ReadBuf) (n : ℕ)
    → IsRing rb
    → n ≤ rb.len
    → IsRing (advance rb n)
      × ((advance rb n).len + n ≡ rb.len)
      × ((i : ℕ) → at (advance rb n) i ≡ at rb (n + i))
unfolding advance
advance-pops rb n v h = (
  record { sized = v.sized; start_within = omega arith; len_within = omega (arith, v.len_within) },
  omega arith,
  λ i. ap (λ k. get_or rb.buf k 0) (omega arith),
)

length-write_at :
    (bytes : List ℕ) (i : ℕ) (bytes_read : List ℕ)
    → length (write_at bytes i bytes_read) ≡ length bytes
length-write_at bytes i [] = refl
length-write_at bytes i (b ∷ bs) = length-write_at (set bytes i b) (suc i) bs ∙ length-set bytes i b

get_or-write_at :
    (bytes : List ℕ) (i : ℕ) (bytes_read : List ℕ) (j : ℕ)
    → i + length bytes_read ≤ length bytes
    → get_or (write_at bytes i bytes_read) j 0 ≡ (
        if ltb j i
        then get_or bytes j 0
        else if ltb j (i + length bytes_read)
        then get_or bytes_read (j - i) 0
        else get_or bytes j 0)
get_or-write_at bytes i [] j h = ground arith
get_or-write_at bytes i (b ∷ bs) j h =
    let fits : suc i + length bs ≤ length (set bytes i b) =
      omega (arith, length-set bytes i b, h) in
    let ih = get_or-write_at (set bytes i b) (suc i) bs j fits in
    elim (ℕ_discrete j i) [
      | yes e ↦ ground (
        arith,
        ih,
        get_or-set_self bytes i b 0,
        ap (λ k. get_or (set bytes i b) k 0) e,
        ap (λ k. get_or (b ∷ bs) k 0) {x = j - i} {y = 0},
      )
      | no ne ↦ ground (
        arith,
        ih,
        get_or-set_ne bytes i j b 0,
        ap (λ k. get_or (b ∷ bs) k 0) {x = j - i} {y = suc (j - suc i)},
      )
    ]

get_or-take : (n : ℕ) (xs : List ℕ) (i : ℕ) → i < n → get_or (take n xs) i 0 ≡ get_or xs i 0
get_or-take zero xs i h = absurd (omega arith)
get_or-take (suc n) [] i h = refl
get_or-take (suc n) (x ∷ xs) zero h = refl
get_or-take (suc n) (x ∷ xs) (suc i) h = get_or-take n xs i (omega arith)

get_or-drop : (n : ℕ) (xs : List ℕ) (i : ℕ) → get_or (drop n xs) i 0 ≡ get_or xs (n + i) 0
get_or-drop zero xs i = ap (λ k. get_or xs k 0) (omega arith)
get_or-drop (suc n) [] i = ground arith
get_or-drop (suc n) (x ∷ xs) i =
    get_or-drop n xs i
    ∙ ap (λ k. get_or (x ∷ xs) k 0) {x = suc (n + i)} {y = suc n + i} (omega arith)

written :
    (buf : List ℕ) (w f k : ℕ) (d : List ℕ)
    → w + f ≤ length buf
    → length d - f ≤ w
    → get_or (write_at (write_at buf w (take f d)) 0 (drop f d)) k 0 ≡ (
        if ltb k (length d - f)
        then get_or d (f + k) 0
        else if ltb k w
        then get_or buf k 0
        else if ltb k (w + min f (length d))
        then get_or d (k - w) 0
        else get_or buf k 0)
written buf w f k d h g = ground (
  arith,
  get_or-write_at (write_at buf w (take f d)) 0 (drop f d) k
      (omega (arith, length-drop f d, length-write_at buf w (take f d))),
  get_or-write_at buf w (take f d) k (omega (arith, length-take f d)),
  length-take f d,
  length-drop f d,
  get_or-drop f d k,
  get_or-take f d (k - w),
)

-- On a buffer of the right size, a read of bytes for which there is room puts them behind the bytes
-- of the queue, over the end of the buffer if need be, and keeps the bytes that were there.
pub receive-pushes :
    (rb : ReadBuf) (bytes_read : List ℕ)
    → IsRing rb
    → rb.len + length bytes_read ≤ 32768
    → IsRing (receive rb bytes_read)
      × ((receive rb bytes_read).len ≡ rb.len + length bytes_read)
      × ((i : ℕ)
          → i < rb.len + length bytes_read
          → at (receive rb bytes_read) i
            ≡ (if ltb i rb.len then at rb i else get_or bytes_read (i - rb.len) 0))
unfolding receive
receive-pushes rb bytes_read v h =
    let w = (rb.start + rb.len) % 32768 in
    let f = w + min (32768 - w) (32768 - rb.len) - w in
    (
      record {
        sized =
            length-write_at (write_at rb.buf w (take f bytes_read)) 0 (drop f bytes_read)
            ∙ (length-write_at rb.buf w (take f bytes_read) ∙ v.sized);
        start_within = v.start_within;
        len_within = h;
      },
      refl,
      λ i b.
          let k = (rb.start + i) % 32768 in
          ground (
            arith,
            v.sized,
            v.start_within,
            v.len_within,
            h,
            b,
            written rb.buf w f k bytes_read (omega (arith, v.sized)) (omega arith),
            ap (λ x. get_or bytes_read x 0) {x = f + k} {y = i - rb.len},
            ap (λ x. get_or bytes_read x 0) {x = k - w} {y = i - rb.len},
          ),
    )

get_or-append :
    (xs ys : List ℕ) (i : ℕ)
    → get_or (xs ++ ys) i 0
      ≡ (if ltb i (length xs) then get_or xs i 0 else get_or ys (i - length xs) 0)
get_or-append [] ys i = ground arith
get_or-append (x ∷ xs) ys zero = ground arith
get_or-append (x ∷ xs) ys (suc i) = ground (
  arith,
  get_or-append xs ys i,
  ap (λ k. get_or ys k 0) {x = suc i - suc (length xs)} {y = i - length xs},
)

split-wraps : (rb : ReadBuf) → is_contiguous rb ≡ false → 32768 ≤ rb.start + rb.len
unfolding is_contiguous
split-wraps rb c = ground arith

-- On a buffer of the right size whose bytes `is_contiguous` calls split, `make_contiguous` does not
-- fail: the buffer has the right size again, starts at 0, and holds the same queue of bytes.
pub make_contiguous-keeps :
    (rb : ReadBuf)
    → IsRing rb
    → is_contiguous rb ≡ false
    → Returns (make_contiguous rb) (λ rb'.
      IsRing rb'
      × (rb'.start ≡ 0)
      × (rb'.len ≡ rb.len)
      × ((i : ℕ) → i < rb.len → at rb' i ≡ at rb i))
unfolding make_contiguous
make_contiguous-keeps rb v c =
    let s = min rb.start 32768 in
    let n = s + min (min rb.len 32768) (32768 - s) - s in
    let first : List ℕ = take n (drop s rb.buf) in
    let m = min rb.len 32768 - min (min rb.len 32768) (32768 - s) - 0 in
    let second : List ℕ = take m rb.buf in
    let bytes : List ℕ = first ++ second in
    let wraps : 32768 ≤ rb.start + rb.len = split-wraps rb c in
    let ln : length first ≡ n =
      omega (arith, length-take n (drop s rb.buf), length-drop s rb.buf, v.sized, v.start_within) in
    let lm : length second ≡ m = omega (arith, length-take m rb.buf, v.sized) in
    let lb : length bytes ≡ rb.len =
      omega (arith, length-append first second, ln, lm, v.len_within) in
    let zeros : List ℕ = replicate (32768 - length bytes) 0 in
    (
      record { buf = bytes ++ zeros; start = 0; len = rb.len },
      rw (c, make_contiguous) refl,
      (
        record {
          sized = omega (
            arith,
            length-append bytes zeros,
            length-replicate {A = ℕ} (32768 - length bytes) 0,
            lb,
            v.len_within,
          );
          start_within = omega arith;
          len_within = v.len_within;
        },
        refl,
        refl,
        λ i b. ground (
          arith,
          lb,
          ln,
          lm,
          wraps,
          v.start_within,
          get_or-append bytes zeros (i % 32768),
          get_or-append first second (i % 32768),
          get_or-take n (drop s rb.buf) (i % 32768),
          get_or-drop s rb.buf (i % 32768),
          get_or-take m rb.buf (i % 32768 - n),
          ap (λ k. get_or rb.buf k 0) {x = s + i % 32768} {y = (rb.start + i) % 32768},
          ap (λ k. get_or rb.buf k 0) {x = i % 32768 - n} {y = (rb.start + i) % 32768},
          ap (λ k. get_or second k 0) {x = i % 32768 - length first} {y = i % 32768 - n},
        ),
      ),
    )
