-- ===== src/Net/PeerConnect/Loop/Whole.antt =====
-- The main loop as a whole, over any number of rounds.
use simple_torrent_client.Common.{Bool, true, false, ◌≡◌, All, List, [], ◌∷◌}
use simple_torrent_client.ByteTools.{Bytes}
use simple_torrent_client.Core.TorrentFile.{TorrentFile}
use simple_torrent_client.Core.PieceStorage.Invariant.{IsTorrent}
use simple_torrent_client.Net.PeerConnect.{Session}
use simple_torrent_client.Net.PeerConnect.Loop.{
  Times, Weather, Outcome, continues, breaks, throws, busy, crashes, disturbed, again, main_loop,
  main_loop_round,
}
use simple_torrent_client.Net.PeerConnect.Loop.Steady.{IsSteady, IsLeft, IsSteady-IsLeft, terminate-IsLeft, EndsSteady, EndsSteady-if}
use simple_torrent_client.Net.PeerConnect.Loop.Rounds.{IsUndisturbed, main_loop_round-EndsSteady}

module _ (sha1 : Bytes → Bytes) (t : TorrentFile) (w : IsTorrent t) where
  again-EndsSteady :
      (next_round : Session → Times → Outcome)
      → ((s : Session) (times : Times)
          → IsSteady sha1 t w s
          → EndsSteady sha1 t w (next_round s times))
      → (o : Outcome) → EndsSteady sha1 t w o
      → EndsSteady sha1 t w (again next_round o)
  unfolding again
  again-EndsSteady next_round h (continues s times) v = h s times v
  again-EndsSteady next_round h (breaks s) v = v
  again-EndsSteady next_round h (throws e s) v = v
  again-EndsSteady next_round h (busy s) v = v
  again-EndsSteady next_round h crashes v = v

  -- Whether the main thread terminates the connection or not.
  pub disturbed-IsLeft :
      (b : Bool) (s : Session) → IsLeft sha1 t w s → IsLeft sha1 t w (disturbed b s)
  disturbed-IsLeft true s v = terminate-IsLeft sha1 t w s v.valid
  disturbed-IsLeft false s v = v

  pub IsLeft-IsSteady :
      (s : Session)
      → s.connection.is_terminated ≡ false
      → IsLeft sha1 t w s
      → IsSteady sha1 t w s
  IsLeft-IsSteady s e v = record { valid = v.valid; pending = v.pending e }

  -- The whole loop, after any number of rounds and whatever they meet, leaves a steady session steady
  -- or ends, and does not read through a null pointer, as long as the main thread does not terminate
  -- the connection within a round.
  pub main_loop-EndsSteady :
      (xs : List Weather) (s : Session) (times : Times)
      → All IsUndisturbed xs
      → IsLeft sha1 t w s
      → EndsSteady sha1 t w (main_loop sha1 xs s times)
  unfolding main_loop
  main_loop-EndsSteady [] s times u v =
      EndsSteady-if sha1 t w s.connection.is_terminated _ _ (λ b. v) (λ b. IsLeft-IsSteady s b v)
  main_loop-EndsSteady (x ∷ xs) s times u v =
      let s' = disturbed x.terminated_before s in
      let v' = disturbed-IsLeft x.terminated_before s v in
      EndsSteady-if sha1 t w s'.connection.is_terminated _ _ (λ b. v')
        (λ b.
          again-EndsSteady (main_loop sha1 xs)
            (λ q times' k. main_loop-EndsSteady xs q times' u.1 (IsSteady-IsLeft sha1 t w q k))
            (main_loop_round sha1 x s' times)
            (main_loop_round-EndsSteady sha1 t w x s' times u.0 (IsLeft-IsSteady s' b v')))
