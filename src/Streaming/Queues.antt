-- ===== src/Streaming/Queues.antt =====
-- The look-ahead of a stream, and `iter_next_pieces`, of src/torrent_state/streaming.rs.
use librtbit.Base.{
  ℕ, zero, suc, ◌+◌, ◌-◌, ◌*◌, ◌/◌, ◌^◌, ◌≤◌, ◌<◌, ◌≡◌, ◌↔◌, refl, ap, ◌∙◌, true, false, some, List,
  [], ◌∷◌, arith, ltb, leb, ◌&&◌, ◌==◌, min, range_from, add64, ◌>>=◌, Returns, All,
}
use librtbit.Base.Bits.{contains}
use librtbit.Lengths.{Lengths, Laws}
use librtbit.Streaming.{
  StreamState, TorrentStreams, per_stream_buf_default, valid_pieces, queue, queues,
  iter_next_pieces,
}
use librtbit.Streaming.Interleave.{columns, longest, yielded-columns}

ceil_le : (e d t : ℕ) → 0 < d → e ≤ d * t → (e + d - 1) / d ≤ t
ceil_le e d t h u = grind arith

div_le : (a d t : ℕ) → 0 < d → a ≤ d * t → a / d ≤ t
div_le a d t h u = grind arith

lt-ceil : (e d i : ℕ) → 0 < d → (i < (e + d - 1) / d) ↔ (i * d < e)
lt-ceil e d i h = (λ (p : i < (e + d - 1) / d). grind arith, λ (p : i * d < e). grind arith)

div-le : (e d i : ℕ) → 0 < d → (e / d ≤ i) ↔ (e < (i + 1) * d)
div-le e d i h = (λ (p : e / d ≤ i). grind arith, λ (p : e < (i + 1) * d). grind arith)

in_range : (a b i : ℕ) → ((leb a i && ltb i (a + (b - a))) ≡ true) ↔ ((a ≤ i) × (i < b))
in_range a b i = (λ p. ground arith, λ p. ground arith)

contains-range_from : (a n i : ℕ) → contains (range_from a n) i ≡ (leb a i && ltb i (a + n))
contains-range_from a zero i = ground arith
contains-range_from a (suc n) i = ground (arith, contains-range_from (suc a) n i)

valid_pieces-range :
    (l : Lengths) (laws : Laws l) (n a : ℕ)
    → a + n ≤ l.total_pieces
    → valid_pieces l (range_from a n) ≡ range_from a n
valid_pieces-range l laws zero a h = refl
valid_pieces-range l laws (suc n) a h =
    let valid : l.validate_piece_index a ≡ some a = laws.validates a ∙ ground arith in
    rw valid (ap (λ ps. a ∷ ps) (valid_pieces-range l laws n (suc a) (omega arith)))

-- The stream's file lies in the torrent and the position in the file, and the look-ahead does not
-- wrap around.
pub record Fits (l : Lengths) (s : StreamState) : Type 0 where
  pub in_torrent : s.file_abs_offset + s.file_len ≤ l.total_length
  pub in_file : s.position ≤ s.file_len
  pub small : l.total_length + per_stream_buf_default < 2 ^ 64

-- The end of the look-ahead.
abbrev horizon : StreamState → ℕ
horizon s =
    min (s.file_abs_offset + s.position + per_stream_buf_default) (s.file_abs_offset + s.file_len)

-- The queue of a stream that fits has exactly the pieces that begin before the end of the
-- look-ahead and reach beyond the position.
pub queue-covers :
    (l : Lengths) (s : StreamState)
    → Laws l
    → Fits l s
    → Returns (queue l s) (λ q.
      (i : ℕ)
      → (contains q i ≡ true) ↔ (
          (i * l.default_piece_length < horizon s)
          × (s.file_abs_offset + s.position < (i + 1) * l.default_piece_length)))
unfolding queue
queue-covers l s laws fits =
    let dpl = l.default_piece_length in
    let start = s.file_abs_offset + s.position in
    let first = start / dpl in
    let past = (horizon s + dpl - 1) / dpl in
    let some_length : (dpl == 0) ≡ false = ground (arith, laws.length_some) in
    let e1 : add64 s.file_abs_offset s.position ≡ start =
      omega (arith, fits.in_torrent, fits.in_file, fits.small) in
    let e2 : add64 start per_stream_buf_default ≡ start + per_stream_buf_default =
      omega (arith, fits.in_torrent, fits.in_file, fits.small) in
    let e3 : add64 s.file_abs_offset s.file_len ≡ s.file_abs_offset + s.file_len =
      omega (arith, fits.in_torrent, fits.small) in
    let low : first ≤ l.total_pieces =
      div_le start dpl l.total_pieces laws.length_some
        (omega (arith, laws.covered, fits.in_torrent, fits.in_file)) in
    let high : past ≤ l.total_pieces =
      ceil_le (horizon s) dpl l.total_pieces laws.length_some
        (omega (arith, laws.covered, fits.in_torrent)) in
    let low_u32 : ltb first (2 ^ 32) ≡ true = ground (arith, low, laws.total_pieces_u32) in
    let high_u32 : ltb past (2 ^ 32) ≡ true = ground (arith, high, laws.total_pieces_u32) in
    rw (some_length, e1, e2, e3, low_u32, ◌>>=◌, high_u32)
      (
        _,
        refl,
        λ i.
            let above = div-le start dpl i laws.length_some in
            let below = lt-ceil (horizon s) dpl i laws.length_some in
            let inside = in_range first past i in
            rw (valid_pieces-range l laws (past - first) first (omega arith), contains-range_from)
              (
                λ p. let (low, high) = inside.0 p in (below.0 high, above.0 low),
                λ p. inside.1 (above.1 p.1, below.1 p.0),
              ),
      )

queues-Returns :
    (l : Lengths) (laws : Laws l) (streams : List (ℕ × StreamState))
    → All (λ e. Fits l (e.1)) streams
    → (qs : List (List ℕ)) × (queues l streams ≡ some qs)
queues-Returns l laws [] fits = ([], refl)
queues-Returns l laws ((i, s) ∷ streams) (h, fits) =
    let (q, one, exact) = queue-covers l s laws h in
    let (qs, rest) = queues-Returns l laws streams fits in rw (one, ◌>>=◌, rest) (_, refl)

-- For streams that fit, `iter_next_pieces` returns and yields the first pieces of the shuffled
-- queues, then the second ones, and so on, each round in the order of the queues and without those
-- that have come to an end; and then it ends.
pub iter_next_pieces-columns :
    (shuffle : List (List ℕ) → List (List ℕ)) (l : Lengths) (ts : TorrentStreams)
    → Laws l
    → All (λ e. Fits l (e.1)) ts.streams
    → Returns (iter_next_pieces shuffle l ts) (λ ps.
      (qs : List (List ℕ)) × (queues l ts.streams ≡ some qs)
      × (ps ≡ columns 0 (longest (shuffle qs)) (shuffle qs)))
unfolding iter_next_pieces
iter_next_pieces-columns shuffle l ts laws fits =
    let (qs, all) = queues-Returns l laws ts.streams fits in
    rw (all, ◌>>=◌)
      (_, refl, (qs, refl, yielded-columns (longest (shuffle qs)) (shuffle qs) (omega arith)))
