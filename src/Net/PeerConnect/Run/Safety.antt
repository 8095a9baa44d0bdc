-- ===== src/Net/PeerConnect/Run/Safety.antt =====
-- The retry loop leaves a valid session.
use simple_torrent_client.Common.{
  All, refl, ℕ, suc, Bool, true, false, ◌||◌, not, ltb, List, [], ◌∷◌, ◌≡◌, inl, inr, Bool-cases,
  if◌then◌else◌,
}
use simple_torrent_client.ByteTools.{Bytes}
use simple_torrent_client.Core.TorrentFile.{TorrentFile}
use simple_torrent_client.Core.PieceStorage.Invariant.{IsTorrent}
use simple_torrent_client.Net.TcpConnect.{is_closed}
use simple_torrent_client.Net.PeerConnect.{PeerConnect, Session, handle_connection_error}
use simple_torrent_client.Net.PeerConnect.Invariant.{
  IsValid, handle_connection_error-IsValid, terminate-IsValid,
}
use simple_torrent_client.Net.PeerConnect.Pending.{handle_connection_error-IsPending}
use simple_torrent_client.Net.PeerConnect.Returns.{terminate_flags}
use simple_torrent_client.Net.PeerConnect.Loop.{Outcome, continues, breaks, throws, busy, crashes, disturbed}
use simple_torrent_client.Net.PeerConnect.Loop.Steady.{IsSteady, IsLeft, IsSteady-IsLeft, EndsSteady}
use simple_torrent_client.Net.PeerConnect.Loop.Rounds.{IsUndisturbed}
use simple_torrent_client.Net.PeerConnect.Loop.Whole.{main_loop-EndsSteady, disturbed-IsLeft, IsLeft-IsSteady}
use simple_torrent_client.Net.PeerConnect.Run.{
  Try, Established, connected, refused, hanging, Ran, ended, unfinished, broken, give_up, looped,
  tried, run, max_total_failures,
}
use simple_torrent_client.Net.PeerConnect.Run.Greeted.{Same, Settles, establish-Settles}

module _ (sha1 : Bytes → Bytes) (t : TorrentFile) (w : IsTorrent t) where
  -- A loop that has ended leaves a valid session that is terminated, with its socket closed.
  abbrev pub EndsWell : Ran → Type 0
  EndsWell (ended s) =
      IsValid sha1 t s
      × (s.connection.is_terminated ≡ true)
      × (is_closed s.connection.socket ≡ true)
  EndsWell (unfinished s) = IsSteady sha1 t w s
  EndsWell broken = ⊥

  EndsWell-if : (b : Bool) (x y : Ran) → EndsWell x → EndsWell y → EndsWell (if b then x else y)
  EndsWell-if true x y hx hy = hx
  EndsWell-if false x y hx hy = hy

  EndsWell-else :
      (b : Bool) (x y : Ran)
      → EndsWell x
      → (b ≡ false → EndsWell y)
      → EndsWell (if b then x else y)
  EndsWell-else true x y hx hy = hx
  EndsWell-else false x y hx hy = hy refl

  or-left : (p q : Bool) → (p || q) ≡ false → p ≡ false
  or-left true q e = absurd (cc)
  or-left false q e = refl

  Same-IsSteady :
      (s : Session) (c : PeerConnect)
      → Same s.connection c
      → IsSteady sha1 t w s
      → IsSteady sha1 t w (record s { connection = c })
  Same-IsSteady s c h v = record {
    valid = record { storage = v.valid.storage; held = rw h.in_progress v.valid.held };
    pending = rw (h.in_progress, h.pending) v.pending;
  }

  give_up-EndsWell : (n : ℕ) (s : Session) → IsValid sha1 t s → EndsWell (give_up n s)
  unfolding give_up
  give_up-EndsWell n s v = elim (Bool-cases (ltb n max_total_failures)) [
    | inl e ↦ let f = terminate_flags s in rw e (terminate-IsValid sha1 t s v, f.0, f.1)
    | inr e ↦
        let s' : Session = record s { connection = record s.connection { has_failed = true } } in
        let f = terminate_flags s' in
        rw e (
          terminate-IsValid sha1 t s' (record { storage = v.storage; held = v.held }),
          f.0,
          f.1,
        )
  ]

  module _ (next_pass : ℕ → Session → Ran)
      (h : (n : ℕ) (s : Session) → IsLeft sha1 t w s → EndsWell (next_pass n s)) where
    looped-EndsWell : (o : Outcome) → EndsSteady sha1 t w o → EndsWell (looped next_pass o)
    unfolding looped
    looped-EndsWell (continues s times) v = v
    looped-EndsWell (breaks s) v = h 0 s v
    looped-EndsWell (throws e s) v = EndsWell-if s.connection.is_terminated _ _ (h 0 s (IsSteady-IsLeft sha1 t w s v)) (
        h 1 (handle_connection_error s) (record {
          valid = handle_connection_error-IsValid sha1 t s v.valid;
          pending = λ e. handle_connection_error-IsPending s;
        }))
    looped-EndsWell (busy s) v = v
    looped-EndsWell crashes v = v

    tried-EndsWell :
        (x : Try) (n : ℕ) (s : Session) (r : Established)
        → All IsUndisturbed x.rounds
        → IsSteady sha1 t w s
        → Settles x.greeting s.connection r
        → EndsWell (tried sha1 x next_pass n s r)
    unfolding tried
    tried-EndsWell x n s (connected c) u v g =
        looped-EndsWell _ (
          main_loop-EndsSteady sha1 t w x.rounds _ x.times u (
            disturbed-IsLeft sha1 t w x.terminated_meanwhile _
              (IsSteady-IsLeft sha1 t w _ (Same-IsSteady s c g.same v))))
    tried-EndsWell x n s (refused c) u v g =
        h (suc n) _ (
          disturbed-IsLeft sha1 t w x.terminated_meanwhile _
            (IsSteady-IsLeft sha1 t w _ (Same-IsSteady s c g.0 v)))
    tried-EndsWell x n s (hanging c) u v g = Same-IsSteady s c g v

  run-EndsWell_left :
      (xs : List Try) (n : ℕ) (s : Session)
      → All (λ x. All IsUndisturbed x.rounds) xs
      → IsLeft sha1 t w s
      → EndsWell (run sha1 xs n s)
  unfolding run
  run-EndsWell_left [] n s u v =
      let few = not (ltb n max_total_failures) in
      EndsWell-else (s.connection.is_terminated || few) _ _ (give_up-EndsWell n s v.valid)
        (λ e. IsLeft-IsSteady sha1 t w s (or-left s.connection.is_terminated few e) v)
  run-EndsWell_left (x ∷ xs) n s u v =
      let few = not (ltb n max_total_failures) in
      let s' = disturbed x.terminated_before s in
      let v' = disturbed-IsLeft sha1 t w x.terminated_before s v in
      EndsWell-else (s'.connection.is_terminated || few) _ _ (give_up-EndsWell n s' v'.valid)
        (λ e.
          tried-EndsWell (run sha1 xs) (λ m q. run-EndsWell_left xs m q u.1) x n s' _ u.0
            (IsLeft-IsSteady sha1 t w s' (or-left s'.connection.is_terminated few e) v')
            (establish-Settles x.greeting s'.connection))

  -- For a torrent.
  pub run-EndsWell :
      (xs : List Try) (n : ℕ) (s : Session)
      → All (λ x. All IsUndisturbed x.rounds) xs
      → IsSteady sha1 t w s
      → EndsWell (run sha1 xs n s)
  run-EndsWell xs n s u v = run-EndsWell_left xs n s u (IsSteady-IsLeft sha1 t w s v)
