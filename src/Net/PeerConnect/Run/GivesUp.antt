-- ===== src/Net/PeerConnect/Run/GivesUp.antt =====
-- The retry loop gives up on a peer that refuses again and again.
use simple_torrent_client.Common.{
  ◌<◌, ◌++◌, All-append, length-append, ℕ, suc, ◌+◌, ◌≤◌, true, false, ◌||◌, not, ltb, List, [],
  ◌∷◌, ◌≡◌, inl, inr, refl, sym, ◌∙◌, subst, arith, length, All, Bool-cases, if_true, if_false,
}
use simple_torrent_client.ByteTools.{Bytes}
use simple_torrent_client.Net.TcpConnect.{is_closed}
use simple_torrent_client.Net.PeerConnect.{PeerConnect, Session, terminate}
use simple_torrent_client.Net.PeerConnect.Returns.{terminate_flags}
use simple_torrent_client.Net.PeerConnect.Run.{
  Try, refused, establish, Ran, ended, unfinished, give_up, tried, run, max_total_failures,
}
use simple_torrent_client.Net.PeerConnect.Run.Greeted.{Settles, establish-Settles}

over :
    (n : ℕ) (s : Session)
    → ltb n max_total_failures ≡ false
    → (s.connection.is_terminated || not (ltb n max_total_failures)) ≡ true
over n s few = ground arith

on_going :
    (n : ℕ) (s : Session)
    → s.connection.is_terminated ≡ false
    → ltb n max_total_failures ≡ true
    → (s.connection.is_terminated || not (ltb n max_total_failures)) ≡ false
on_going n s on more = ground arith

-- In this try the connection is not established, whatever its state, and the main thread does not
-- terminate it.
pub record Refuses (x : Try) : Type 0 where
  pub before : x.terminated_before ≡ false
  pub meanwhile : x.terminated_meanwhile ≡ false
  pub refuses : (c : PeerConnect) → (c' : PeerConnect) × (establish x.greeting c ≡ refused c')

-- What such a pass does, if it is begun.
pass_lem :
    (sha1 : Bytes → Bytes) (x : Try) (xs : List Try) (n : ℕ) (s : Session)
    → s.connection.is_terminated ≡ false
    → Refuses x
    → ltb n max_total_failures ≡ true
    → (c : PeerConnect) × (c.is_terminated ≡ false)
      × (run sha1 (x ∷ xs) n s ≡ run sha1 xs (suc n) (record s { connection = c }))
unfolding run tried
pass_lem sha1 x xs n s on h more =
    rw (h.before, h.meanwhile)
      (let c = h.refuses s.connection in
        let kept : Settles x.greeting s.connection (refused c.0) =
          subst (Settles x.greeting s.connection) c.1 (establish-Settles x.greeting s.connection) in
        (c.0, kept.0.terminated ∙ on, if_false _ _ _ (on_going n s on more) ∙ rw c.1 refl))

end_lem :
    (sha1 : Bytes → Bytes) (x : Try) (xs : List Try) (n : ℕ) (s : Session)
    → Refuses x
    → ltb n max_total_failures ≡ false
    → run sha1 (x ∷ xs) n s ≡ give_up n s
unfolding run
end_lem sha1 x xs n s h few = rw h.before (if_true _ _ _ (over n s few))

-- The loop has ended by itself and counts the peer as failed.
pub record GivenUp (r : Ran) : Type 0 where
  pub last : Session
  pub ends : r ≡ ended last
  pub failed : last.connection.has_failed ≡ true
  pub terminated : last.connection.is_terminated ≡ true
  pub closed : is_closed last.connection.socket ≡ true

give_up-GivenUp : (n : ℕ) (s : Session) → ltb n max_total_failures ≡ false → GivenUp (give_up n s)
unfolding give_up
give_up-GivenUp n s e =
    let s' : Session = record s { connection = record s.connection { has_failed = true } } in
    let f = terminate_flags s' in
    rw e (record { last = terminate s'; ends = refl; failed = f.2; terminated = f.0; closed = f.1 })

-- After 20 failures or more.
run-GivenUp :
    (sha1 : Bytes → Bytes) (xs : List Try) (n : ℕ) (s : Session)
    → s.connection.is_terminated ≡ false
    → All Refuses xs
    → 20 ≤ n + length xs
    → GivenUp (run sha1 xs n s)
unfolding run
run-GivenUp sha1 [] n s on h k =
    let few : ltb n max_total_failures ≡ false = ground arith in
    subst GivenUp (sym (if_true _ _ _ (over n s few))) (give_up-GivenUp n s few)
run-GivenUp sha1 (x ∷ xs) n s on h k = elim (Bool-cases (ltb n max_total_failures)) [
  | inr few ↦ subst GivenUp (sym (end_lem sha1 x xs n s h.0 few)) (give_up-GivenUp n s few)
  | inl more ↦
      let (c, alive, e) = pass_lem sha1 x xs n s on h.0 more in
      subst GivenUp (sym e)
        (run-GivenUp sha1 xs (suc n) (record s { connection = c }) alive h.1 (omega arith))
]

-- The loop goes on: it has neither ended nor been terminated.
pub record StillTries (r : Ran) : Type 0 where
  pub last : Session
  pub goes_on : r ≡ unfinished last
  pub alive : last.connection.is_terminated ≡ false

-- With fewer failures.
run-StillTries :
    (sha1 : Bytes → Bytes) (xs : List Try) (n : ℕ) (s : Session)
    → s.connection.is_terminated ≡ false
    → All Refuses xs
    → n + length xs < 20
    → StillTries (run sha1 xs n s)
unfolding run
run-StillTries sha1 [] n s on h k =
    subst StillTries (sym (if_false _ _ _ (on_going n s on (ground arith))))
      (record { last = s; goes_on = refl; alive = on })
run-StillTries sha1 (x ∷ xs) n s on h k =
    let (c, alive, e) = pass_lem sha1 x xs n s on h.0 (ground arith) in
    subst StillTries (sym e)
      (run-StillTries sha1 xs (suc n) (record s { connection = c }) alive h.1 (omega arith))

-- Run
pub run-gives_up :
    (sha1 : Bytes → Bytes) (xs ys : List Try) (n : ℕ) (s : Session)
    → s.connection.is_terminated ≡ false
    → All Refuses xs
    → All Refuses ys
    → n + length xs < 20
    → 20 ≤ n + length xs + length ys
    → StillTries (run sha1 xs n s) × GivenUp (run sha1 (xs ++ ys) n s)
run-gives_up sha1 xs ys n s on h g k l = (
  run-StillTries sha1 xs n s on h k,
  run-GivenUp sha1 (xs ++ ys) n s on (All-append Refuses xs ys h g)
      (omega (arith, l, length-append {0} xs ys)),
)
