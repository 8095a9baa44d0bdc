-- ===== src/Net/PeerConnect/Loop/Steady.antt =====
-- Steady sessions, and the reading step of a round, which keeps them so.
use simple_torrent_client.Common.{
  Bool, true, false, ◌==◌, ◌≡◌, refl, if◌then◌else◌, length, Error, Result, ok, err,
}
use simple_torrent_client.ByteTools.{Bytes}
use simple_torrent_client.Core.TorrentFile.{TorrentFile}
use simple_torrent_client.Core.PieceStorage.Invariant.{IsTorrent}
use simple_torrent_client.Net.TcpConnect.{Received, returned, thrown, waiting, receive_data}
use simple_torrent_client.Net.PeerConnect.{
  Session, handle_connection_error, process_message, terminate,
}
use simple_torrent_client.Net.PeerConnect.Invariant.{
  IsValid, handle_connection_error-IsValid, terminate-IsValid, Keeps, process_message-Keeps,
}
use simple_torrent_client.Net.PeerConnect.Pending.{
  IsPending, handle_connection_error-IsPending, KeepsPending, process_message-KeepsPending,
}
use simple_torrent_client.Net.PeerConnect.Returns.{terminate_flags}
use simple_torrent_client.Net.PeerConnect.Loop.{
  Times, Weather, Outcome, continues, breaks, throws, busy, crashes, fail, handle,
  is_connection_terminated, receive, receive_step,
}

module _ (sha1 : Bytes → Bytes) (t : TorrentFile) (w : IsTorrent t) where
  -- A valid session with a piece in progress wherever a block is requested.
  pub record IsSteady (s : Session) : Type 0 where
    pub valid : IsValid sha1 t s
    pub pending : IsPending s

  -- A valid session that may have been terminated at any place.
  pub record IsLeft (s : Session) : Type 0 where
    pub valid : IsValid sha1 t s
    pub pending : s.connection.is_terminated ≡ false → IsPending s

  pub IsSteady-IsLeft : (s : Session) → IsSteady s → IsLeft s
  IsSteady-IsLeft s v = record { valid = v.valid; pending = λ e. v.pending }

  pub terminate-IsLeft : (s : Session) → IsValid sha1 t s → IsLeft (terminate s)
  terminate-IsLeft s v = record {
    valid = terminate-IsValid sha1 t s v;
    pending = λ e. let f = (terminate_flags s).0 in absurd (cc);
  }

  -- However the round ends, the session is steady, or left behind; it does not end in a crash.
  abbrev pub EndsSteady : Outcome → Type 0
  EndsSteady (continues s times) = IsSteady s
  EndsSteady (breaks s) = IsLeft s
  EndsSteady (throws e s) = IsSteady s
  EndsSteady (busy s) = IsSteady s
  EndsSteady crashes = ⊥

  pub EndsSteady-if :
      (b : Bool) (x y : Outcome)
      → (b ≡ true → EndsSteady x)
      → (b ≡ false → EndsSteady y)
      → EndsSteady (if b then x else y)
  EndsSteady-if true x y hx hy = hx refl
  EndsSteady-if false x y hx hy = hy refl

  pub fail-EndsSteady :
      (e : Error) (s : Session) (times : Times) → IsSteady s → EndsSteady (fail e s times)
  unfolding fail
  fail-EndsSteady e s times v =
      EndsSteady-if s.connection.is_terminated (continues s times)
        (throws e (handle_connection_error s)) (λ b. v)
        (λ b. record {
          valid = handle_connection_error-IsValid sha1 t s v.valid;
          pending = handle_connection_error-IsPending s;
        })

  handle-EndsSteady :
      (x : Weather) (s : Session) (times : Times) (r : Result Session)
      → IsSteady s
      → Keeps sha1 t w r
      → KeepsPending r
      → EndsSteady (handle sha1 x s times r)
  unfolding handle
  handle-EndsSteady x s times (ok s') v k p = record { valid = k; pending = p }
  handle-EndsSteady x s times (err e) v k p = fail-EndsSteady e s times v

  receive-EndsSteady :
      (x : Weather) (s : Session) (times : Times) (r : Received)
      → IsSteady s
      → EndsSteady (receive sha1 x s times r)
  unfolding receive
  receive-EndsSteady x s times (returned message) v =
      EndsSteady-if (length message == 0) (continues s times) _ (λ b. v)
        (λ b.
          handle-EndsSteady x s times (process_message sha1 s message) v
            (process_message-Keeps sha1 t w s message v.valid)
            (process_message-KeepsPending sha1 s message v.pending))
  receive-EndsSteady x s times (thrown e) v =
      EndsSteady-if (is_connection_terminated e) (breaks (terminate s)) _
        (λ b. terminate-IsLeft s v.valid) (λ b. fail-EndsSteady e s times v)
  receive-EndsSteady x s times waiting v = v

  pub receive_step-EndsSteady :
      (x : Weather) (s : Session) (times : Times)
      → IsSteady s
      → EndsSteady (receive_step sha1 x s times)
  unfolding receive_step
  receive_step-EndsSteady x s times v =
      receive-EndsSteady x s times (receive_data s.connection.socket 0 x.poll x.rounds) v
