-- ===== src/PieceTracker/Invariant/History.antt =====
-- src/piece_tracker.rs: a tracker over time. A step is a call made under the torrent's lock by
-- src/torrent_state/live/peer_handler.rs or src/torrent_state/live/mod.rs. A piece is checked on disk
-- between two locks; the steps for the outcome ask that nobody reserved or queued it meanwhile.
use librtbit.Base.{
  Returns-of, ℕ, ◌*◌, ◌<◌, ◌≡◌, refl, ap, ◌∙◌, Bool, true, false, Option, none, some, List, ◌>>=◌,
  arith, length, inl, inr, Option-cases, Returns, dec_lt, set, length-set, All,
}
use librtbit.Base.Assoc.{contains_key}
use librtbit.Base.Bits.{Bits, bit}
use librtbit.Lengths.{Lengths, Laws}
use librtbit.FileInfo.{FileInfo}
use librtbit.ChunkTracker.{ChunkTracker, HaveNeededSelected}
use librtbit.ChunkTracker
use librtbit.ChunkTracker.Chunks.{Piece, ChunkMarkingResult}
use librtbit.ChunkTracker.Chunks.Marking.{
  Marked, was_complete, was_marked, mark_chunk_downloaded-Marked, mark_chunk_downloaded_refused,
  chunk_bit,
}
use librtbit.ChunkTracker.Create.{new-Created, InRange}
use librtbit.ChunkTracker.Pieces.{IsSized, IsValid-same}
use librtbit.PieceTracker.{
  PieceTracker, AcquireRequest, AcquireResult, new, acquire_piece, take_inflight,
  mark_piece_hash_ok, mark_piece_hash_failed, release_pieces_owned_by, mark_chunk_downloaded,
  update_only_files,
}
use librtbit.PieceTracker.Invariant.{
  Inv, new-Inv, take_inflight-Inv, mark_piece_hash_ok-Inv, mark_piece_hash_failed-Inv,
}
use librtbit.PieceTracker.Invariant.Acquire.{IsRequest, acquire_piece-Acquired, Acquired-Inv}
use librtbit.PieceTracker.Invariant.Release.{release_pieces_owned_by-Released}
use librtbit.PieceTracker.Invariant.Select.{choice, update_only_files-Inv}

same_tracked :
    (pt : PieceTracker) (ct : ChunkTracker)
    → Inv pt
    → IsSized ct
    → ct.lengths ≡ pt.chunks.lengths
    → ct.have ≡ pt.chunks.have
    → ct.selected ≡ pt.chunks.selected
    → ct.hns ≡ pt.chunks.hns
    → ct.queue_pieces ≡ pt.chunks.queue_pieces
    → Inv (record pt { chunks = ct })
same_tracked pt ct v z l h s n q = record {
  valid = IsValid-same v.valid z l h s n;
  is_map = v.is_map;
  known = λ i e. rw l (v.known i e);
  flying_not_had = λ i e. rw h (v.flying_not_had i e);
  flying_not_queued = λ i e. rw q (v.flying_not_queued i e);
  had_not_queued = λ i b e. ground (
    arith,
    v.had_not_queued i,
    ap (λ x. bit x i) h,
    ap (λ x. bit x i) q,
    ap (λ (x : Lengths). x.total_pieces) l,
  );
}

Marked-Inv :
    (pt : PieceTracker) (c : _) (r : ChunkTracker × ChunkMarkingResult)
    → Inv pt
    → Marked pt.chunks c r
    → Inv (record pt { chunks = r.0 })
Marked-Inv pt c r v (was_complete _ e _) = rw e v
Marked-Inv pt c r v (was_marked _ e _) = rw e (
    same_tracked pt
      (record pt.chunks { chunk_status = set pt.chunks.chunk_status (chunk_bit pt.chunks c) true })
      v
      (record {
        laws = v.valid.laws;
        have_sized = v.valid.have_sized;
        selected_sized = v.valid.selected_sized;
        queue_sized = v.valid.queue_sized;
        chunks_sized =
            length-set pt.chunks.chunk_status (chunk_bit pt.chunks c) true ∙ v.valid.chunks_sized;
      })
      refl refl refl refl refl)

-- Received data, be it a chunk of the torrent or not.
pub mark_chunk_downloaded-Inv :
    (pt : PieceTracker) (piece : Piece)
    → Inv pt
    → Returns (mark_chunk_downloaded pt piece) (λ r. Inv r.0 × (r.0.inflight ≡ pt.inflight))
unfolding mark_chunk_downloaded
mark_chunk_downloaded-Inv pt piece v = elim (dec_lt piece.index pt.chunks.lengths.total_pieces) [
  | no invalid ↦ (
    (pt, none),
    rw (mark_chunk_downloaded_refused pt.chunks piece v.valid.laws (λ h. absurd (invalid h)), ◌>>=◌)
        refl,
    (v, refl),
  )
  | yes h ↦
      elim (Option-cases
        (pt.chunks.lengths.chunk_info_from_received_data piece.index piece.begin piece.len)) [
          | inl bogus ↦ (
            (pt, none),
            rw (mark_chunk_downloaded_refused pt.chunks piece v.valid.laws (λ _. bogus), ◌>>=◌)
                refl,
            (v, refl),
          )
          | inr (c, e) ↦
              let (r, run, (m, _, k)) =
                mark_chunk_downloaded-Marked pt.chunks piece c v.valid.sized h e in
              (
                (record pt { chunks = r.0 }, r.1),
                rw (run, ◌>>=◌) refl,
                (Marked-Inv pt c (r.0, m) v k, refl),
              )
        ]
]

pub data Step : PieceTracker → PieceTracker → Type 0 where
  acquired :
      (ten three : ℕ → ℕ) (pt : PieceTracker) (now : ℕ) (req : AcquireRequest)
      (r : PieceTracker × AcquireResult)
      → IsRequest pt req
      → acquire_piece ten three pt now req ≡ some r
      → Step pt r.0
  received :
      (pt : PieceTracker) (piece : Piece) (r : PieceTracker × Option ChunkMarkingResult)
      → mark_chunk_downloaded pt piece ≡ some r
      → Step pt r.0
  completed : (pt : PieceTracker) (now p : ℕ) → Step pt (take_inflight pt now p).0
  verified :
      (pt pt' : PieceTracker) (p : ℕ)
      → p < pt.chunks.lengths.total_pieces
      → contains_key p pt.inflight ≡ false
      → bit pt.chunks.queue_pieces p ≡ false
      → mark_piece_hash_ok pt p ≡ some pt'
      → Step pt pt'
  refuted :
      (pt pt' : PieceTracker) (p : ℕ)
      → p < pt.chunks.lengths.total_pieces
      → contains_key p pt.inflight ≡ false
      → mark_piece_hash_failed pt p ≡ some pt'
      → Step pt pt'
  died :
      (pt : PieceTracker) (peer : ℕ) (r : PieceTracker × ℕ)
      → release_pieces_owned_by pt peer ≡ some r
      → Step pt r.0
  reselected :
      (pt : PieceTracker) (fis : List FileInfo) (only_files : ℕ → Bool)
      (r : PieceTracker × HaveNeededSelected)
      → ((i : ℕ)
          → contains_key i pt.inflight ≡ true
          → choice pt fis only_files i ≡ true
          → bit pt.chunks.selected i ≡ true)
      → update_only_files pt fis only_files ≡ some r
      → Step pt r.0

-- From a new tracker around what was found on disk.
pub data Reach : PieceTracker → Type 0 where
  start :
      (have selected : Bits) (l : Lengths) (fis : List FileInfo) (ct : ChunkTracker)
      → Laws l
      → length have ≡ 8 * l.piece_bitfield_bytes
      → length selected ≡ 8 * l.piece_bitfield_bytes
      → All (InRange have) fis
      → ChunkTracker.new have selected l fis ≡ some ct
      → Reach (new ct)
  step : (pt pt' : PieceTracker) → Reach pt → Step pt pt' → Reach pt'

pub Step-Inv : (pt pt' : PieceTracker) → Step pt pt' → Inv pt → Inv pt'
Step-Inv _ _ (acquired ten three pt now req r q e) v =
    Acquired-Inv v (Returns-of (acquire_piece-Acquired ten three pt now req v q) e)
Step-Inv _ _ (received pt piece r e) v = (Returns-of (mark_chunk_downloaded-Inv pt piece v) e).0
Step-Inv _ _ (completed pt now p) v = take_inflight-Inv pt now p v
Step-Inv _ _ (verified pt pt' p h out unqueued e) v =
    (Returns-of (mark_piece_hash_ok-Inv pt p v h out unqueued) e).0
Step-Inv _ _ (refuted pt pt' p h out e) v =
    (Returns-of (mark_piece_hash_failed-Inv pt p v h out) e).0
Step-Inv _ _ (died pt peer r e) v = (Returns-of (release_pieces_owned_by-Released pt peer v) e).0
Step-Inv _ _ (reselected pt fis only_files r h e) v =
    Returns-of (update_only_files-Inv pt fis only_files v h) e

-- From a tracker made around bit fields of the torrent's size, in every state that is reached by
-- requests with valid priorities, received data, completed pieces, outcomes of checks for pieces
-- that are neither in flight nor (if verified) queued, deaths of peers, and changes of the chosen
-- files that select no piece in flight anew: the chunk tracker is valid, no piece is twice in
-- flight, each piece in flight is valid and neither had nor queued, and no valid piece that is had
-- is queued.
pub Reach-Inv : (pt : PieceTracker) → Reach pt → Inv pt
Reach-Inv _ (start have selected l fis ct laws hs ss fits e) =
    let c = Returns-of (new-Created have selected fis laws hs ss fits) e in
    new-Inv ct c.valid (λ i h had. ground (
      arith,
      c.queue i,
      ap (λ x. bit x i) c.have_kept,
      ap (λ (x : Lengths). x.total_pieces) c.lengths,
    ))
Reach-Inv _ (step pt pt' r s) = Step-Inv pt pt' s (Reach-Inv pt r)
