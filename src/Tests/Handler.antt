-- ===== src/Tests/Handler.antt =====
-- The theorems on src/torrent_state/live/peer_handler.rs at one torrent.
use librtbit.Base.{ℕ, ◌*◌, ◌≡◌, true, false, some, [], ◌∷◌, arith, refl, Returns}
use librtbit.Base.Assoc.{lookup, contains_key}
use librtbit.ChunkTracker.Chunks.{Piece}
use librtbit.PieceTracker.Invariant.{Inv}
use librtbit.Peers.History.{Reach-IsCounted}
use librtbit.Live.{Live, Wants, on_peer_died, acquire_next_piece, note_chunk, to_check}
use librtbit.Live.Handler.{
  IsRight, IsFair, WasLiveAt, MayAsk, on_peer_died-IsRight, acquire_next_piece-IsFair,
  note_chunk-Inv,
}
use librtbit.Samples.{files, tracker, tracker-Inv}
use librtbit.Tests.PeerTable.{base, both, both-Reach}

abbrev torrent : Live
torrent = record { pieces = some tracker; peers = both }

torrent-IsRight : IsRight base torrent
torrent-IsRight = record { tracker = tracker-Inv; counted = Reach-IsCounted base both both-Reach }

-- Peer 7, which downloads piece 2, dies of an error.
on_peer_died-IsRight_example :
    Returns
      (on_peer_died torrent 7 true (λ pieces. false) 500)
      (λ r. IsRight base r.0 × WasLiveAt 7 (lookup 7 both.states) r.0)
on_peer_died-IsRight_example =
    on_peer_died-IsRight base 7 true (λ pieces. false) 500 torrent torrent-IsRight

abbrev wants : Wants
wants = record {
  i_am_choked = false;
  next_pieces = 0 ∷ [];
  file_priorities = 0 ∷ 1 ∷ [];
  file_infos = files;
  can_steal = λ p. true;
}

may_ask : MayAsk wants 7 (some tracker)
may_ask = λ p l. record {
  priorities_valid = (omega arith, tt);
  files_fit =
      ((omega arith, omega arith, omega arith), ((omega arith, omega arith, omega arith), tt));
  files_counted = refl;
}

acquire_next_piece-IsFair_example :
    Returns (acquire_next_piece (λ n. 10 * n) (λ n. 3 * n) torrent wants 7 600) (IsFair base 7 600)
acquire_next_piece-IsFair_example =
    acquire_next_piece-IsFair base 7 600 (λ n. 10 * n) (λ n. 3 * n) wants both
      (Reach-IsCounted base both both-Reach) (some tracker) tracker-Inv may_ask

-- The only chunk of piece 2.
abbrev last_chunk : Piece
last_chunk = record { index = 2; begin = 0; len = 1 }

note_chunk-Inv_example :
    Returns
      (note_chunk tracker last_chunk 500)
      (λ r. Inv r.0 × ((time : ℕ) → r.1 ≡ to_check time → contains_key 2 r.0.inflight ≡ false))
note_chunk-Inv_example = note_chunk-Inv tracker last_chunk 500 tracker-Inv
