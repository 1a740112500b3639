-- ===== src/Live.antt =====
-- src/torrent_state/live/peer_handler.rs: what the handler of one peer does to the piece tracker and
-- to the table of peers. The tracker is missing once the torrent is paused. `finished` stands for
-- `is_finished_and_no_active_streams`, which also reads the streams.
pub mod Handler
use mathlib.Core.Option
use librtbit.Base.{
  ℕ, zero, suc, ◌+◌, ◌*◌, Bool, true, false, not, ◌||◌, Option, none, some, List, [], ◌∷◌, ◌>>=◌,
  ltb, ◌==◌, if◌then◌else◌, length, add32,
}
use librtbit.Base.Assoc.{lookup}
use librtbit.Base.Bits.{bit}
use librtbit.FileInfo.{FileInfo}
use librtbit.ChunkTracker.Chunks.{
  Piece, ChunkMarkingResult, previously_completed, not_completed, completed,
}
use librtbit.PieceTracker.{
  PieceTracker, InflightPiece, AcquireRequest, AcquireResult, reserved, stolen, none_available,
  acquire_piece, get_inflight, take_inflight, release_pieces_owned_by, mark_chunk_downloaded,
  mark_piece_hash_ok, mark_piece_hash_failed,
}
use librtbit.Peers.{
  LivePeerState, PeerState, queued, connecting, live, dead, not_needed, Counters, PeerCounters,
  average_piece_download_time,
}
use librtbit.Peers.Peer.{Peer, set_state}
use librtbit.Peers.States.{PeerStates, with_peer_mut, count_steal, drop_peer, on_steal}

pub record Live : Type 0 where
  pub pieces : Option PieceTracker
  pub peers : PeerStates

pub data Ended : Type 0 where
  ok chunk_tracker_empty : Ended

-- `pe.value_mut().set_state(…)`
pub put : PeerStates → ℕ → PeerState → ℕ → PeerStates
put ps addr new now = (with_peer_mut ps addr (λ p c. set_state p new now c)).0

abbrev pub one_error : PeerCounters → PeerCounters
one_error n = record n { errors = add32 n.errors 1 }

-- The end of `on_peer_died`, from the test of `error` on.
pub settle : PeerStates → ℕ → Bool → Bool → ℕ → PeerStates
unfolding put
settle ps addr error finished now =
    if error
    then (let ps' = (with_peer_mut ps addr (count_steal one_error)).0 in
        if finished then put ps' addr not_needed now else put ps' addr dead now)
    else put ps addr not_needed now

-- The `match` on the state that the peer had, with the table after `take_state`. The last part of an
-- answer says whether the waiters for new pieces are notified.
pub died_from :
    PeerState → Live → ℕ → Bool → (Option PieceTracker → Bool) → ℕ → Option (Live × Ended × Bool)
unfolding settle put
died_from (connecting _) st addr error finished now =
    some (record st { peers = settle st.peers addr error (finished st.pieces) now }, ok, false)
died_from (live l) st addr error finished now = elim st.pieces [
  | none ↦ some (st, chunk_tracker_empty, false)
  | some pt ↦ do
    (pt', released) ← release_pieces_owned_by pt addr
    some (
      record { pieces = some pt'; peers = settle st.peers addr error (finished (some pt')) now },
      ok,
      ltb 0 released || ltb 0 (length l.inflight_requests),
    )
]
died_from not_needed st addr error finished now =
    some (record st { peers = put st.peers addr not_needed now }, ok, false)
died_from queued st addr error finished now =
    some (record st { peers = (drop_peer st.peers addr).0 }, ok, false)
died_from dead st addr error finished now =
    some (record st { peers = (drop_peer st.peers addr).0 }, ok, false)

pub on_peer_died : Live → ℕ → Bool → (Option PieceTracker → Bool) → ℕ → Option (Live × Ended × Bool)
unfolding died_from put
on_peer_died st addr error finished now = elim (lookup addr st.peers.states) [
  | none ↦ some (st, ok, false)
  | some p ↦
      died_from p.state (record st { peers = put st.peers addr queued now }) addr error finished now
]

-- What `acquire_next_piece` reads of the torrent beside the tracker and the table.
pub record Wants : Type 0 where
  pub i_am_choked : Bool
  pub next_pieces : List ℕ
  pub file_priorities : List ℕ
  pub file_infos : List FileInfo
  pub can_steal : ℕ → Bool

-- Times are in nanoseconds here, and in milliseconds in the peer's counters.
abbrev pub request_of : Wants → ℕ → Peer → LivePeerState → AcquireRequest
request_of w addr p l = record {
  peer = addr;
  peer_avg_time = Option.map (λ t. t * 1000000) (average_piece_download_time p.counters);
  priority_pieces = w.next_pieces;
  file_priorities = w.file_priorities;
  file_infos = w.file_infos;
  peer_has_piece = bit l.bitfield;
  can_steal = w.can_steal;
}

-- What is done with the tracker's answer; the notice of a theft comes once the locks are released.
abbrev pub after : Live → ℕ → PieceTracker × AcquireResult → Live × Ended × Option ℕ
after st addr (pt, reserved piece) = (record st { pieces = some pt }, ok, some piece)
after st addr (pt, stolen piece from_peer) = (
  record { pieces = some pt; peers = (on_steal st.peers from_peer addr piece).0 },
  ok,
  some piece,
)
after st addr (pt, none_available) = (record st { pieces = some pt }, ok, none)

-- The closure under the peer's lock, for a live peer.
pub acquire_for :
    (ℕ → ℕ)
    → (ℕ → ℕ)
    → Live
    → Wants
    → ℕ
    → Peer
    → LivePeerState
    → ℕ
    → Option (Live × Ended × Option ℕ)
acquire_for ten three st w addr p l now = elim st.pieces [
  | none ↦ some (st, chunk_tracker_empty, none)
  | some pt ↦ do r ← acquire_piece ten three pt now (request_of w addr p l); some (after st addr r)
]

-- A peer that is not live, or that chokes us, is given nothing.
pub acquire_next_piece : (ℕ → ℕ) → (ℕ → ℕ) → Live → Wants → ℕ → ℕ → Option (Live × Ended × Option ℕ)
unfolding acquire_for
acquire_next_piece ten three st w addr now = elim (lookup addr st.peers.states) [
  | none ↦ some (st, ok, none)
  | some p ↦ elim p.state [
    | live l ↦
        if w.i_am_choked then some (st, ok, none) else acquire_for ten three st w addr p l now
    | _ ↦ some (st, ok, none)
  ]
]

-- `write_to_disk`, the test before the write: whether the piece is still this peer's.
unfoldable is_ours : PieceTracker → ℕ → ℕ → Bool
unfolding get_inflight
is_ours pt addr piece = elim (get_inflight pt piece) [
  | none ↦ false
  | some inflight ↦ inflight.peer == addr
]

-- What `write_to_disk` goes on with after the chunk is written.
pub data Written : Type 0 where
  bogus done_by_other more_to_come : Written
  to_check : ℕ → Written

abbrev pub if_timed : Option ℕ → Written
if_timed none = more_to_come
if_timed (some time) = to_check time

-- The `match` on what `mark_chunk_downloaded` answers.
abbrev pub after_mark : PieceTracker → ℕ → ℕ → Option ChunkMarkingResult → PieceTracker × Written
after_mark pt piece now none = (pt, bogus)
after_mark pt piece now (some previously_completed) = (pt, done_by_other)
after_mark pt piece now (some not_completed) = (pt, more_to_come)
after_mark pt piece now (some completed) =
    let (pt', time) = take_inflight pt now piece in (pt', if_timed time)

-- The part under the second lock.
pub note_chunk : PieceTracker → Piece → ℕ → Option (PieceTracker × Written)
note_chunk pt piece now = do
  (pt', marked) ← mark_chunk_downloaded pt piece
  some (after_mark pt' piece.index now marked)

-- The part under the third lock, once the piece is read back and hashed.
unfoldable note_check : PieceTracker → ℕ → Bool → Option PieceTracker
note_check pt piece good =
    if good then mark_piece_hash_ok pt piece else mark_piece_hash_failed pt piece

-- src/torrent_state/live/mod.rs: how many peers are live or connecting.
unfoldable get_active_peer_count : PeerStates → ℕ
get_active_peer_count ps = add32 ps.counters.stats.live ps.counters.stats.connecting

abbrev is_dead : PeerState → Bool
is_dead dead = true
is_dead _ = false

-- The loop of `requeue_dead_peers`, with `room` places in the queue of peers: the table, the
-- counters and the addresses sent. Once the queue is full the loop ends.
requeue_from : ℕ → ℕ → Counters → List (ℕ × Peer) → List (ℕ × Peer) × Counters × List ℕ
requeue_from room now c [] = ([], c, [])
requeue_from zero now c ((addr, p) ∷ m) =
    let (p', c', _) = set_state p queued now c in
    let (m', c'', sent) = requeue_from zero now c m in
    if is_dead p.state then ((addr, p') ∷ m, c', []) else ((addr, p) ∷ m', c'', sent)
requeue_from (suc room) now c ((addr, p) ∷ m) =
    let (p', c', _) = set_state p queued now c in
    let (m₁, c₁, sent₁) = requeue_from room now c' m in
    let (m₂, c₂, sent₂) = requeue_from (suc room) now c m in
    if is_dead p.state then ((addr, p') ∷ m₁, c₁, p.addr ∷ sent₁) else ((addr, p) ∷ m₂, c₂, sent₂)

unfoldable requeue_dead_peers : PeerStates → ℕ → ℕ → PeerStates × List ℕ
unfolding requeue_from
requeue_dead_peers ps room now =
    let (states, c, sent) = requeue_from room now ps.counters ps.states in
    (record { counters = c; states = states }, sent)
