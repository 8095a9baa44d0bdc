-- ===== src/Net/PeerConnect/Run/Greeted.antt =====
-- What `EstablishConnection` leaves, whether it gives true or false.
use simple_torrent_client.Common.{◌≤◌, true, ◌≡◌, refl, sym, ap, ◌∙◌, arith, length, Result, ok, err}
use simple_torrent_client.ByteTools.{Bytes, substr}
use simple_torrent_client.Net.TcpConnect.{
  TcpConnect, is_closed, close_connection, Received, returned, thrown, waiting,
  establish_connection, receive_data, send_data,
}
use simple_torrent_client.Net.PeerConnect.{
  PeerConnect, accept_handshake, receive_bitfield, handshake_message, interested_message,
}
use simple_torrent_client.Net.PeerConnect.Handshake.{accept_handshake_iff}
use simple_torrent_client.Net.PeerConnect.Run.{
  Greeting, Progress, done, fails_with, waits, and_then, dialled, concluded, on_received, sent,
  await_handshake, perform_handshake, await_bitfield, send_interested, Established, connected,
  refused, hanging, settled, establish,
}

-- What connecting does not touch.
pub record Same (c c' : PeerConnect) : Type 0 where
  pub torrent : c'.torrent_file ≡ c.torrent_file
  pub in_progress : c'.piece_is_in_progress ≡ c.piece_is_in_progress
  pub pending : c'.block_is_pending ≡ c.block_is_pending
  pub terminated : c'.is_terminated ≡ c.is_terminated

Same-trans : {a b c : PeerConnect} → Same a b → Same b c → Same a c
Same-trans x y = record {
  torrent = y.torrent ∙ x.torrent;
  in_progress = y.in_progress ∙ x.in_progress;
  pending = y.pending ∙ x.pending;
  terminated = y.terminated ∙ x.terminated;
}

-- The connection was dialled, the socket has given an answer with the info hash of the torrent, and
-- the identifier in it is kept.
pub record Greeted (g : Greeting) (c c' : PeerConnect) : Type 0 where
  pub same : Same c c'
  pub response : Bytes
  pub dials : (establish_connection c.socket g.dialing).1 ≡ ok tt
  pub answer :
      receive_data (establish_connection c.socket g.dialing).0 68 g.poll g.handshake_rounds
      ≡ returned response
  pub enough : 68 ≤ length response
  pub matches : substr 28 20 response ≡ c.torrent_file.info_hash
  pub known : c'.peer_id ≡ substr 48 20 response

accepted_lem :
    (c c' : PeerConnect) (response : Bytes)
    → accept_handshake c response ≡ ok c'
    → c' ≡ record c { peer_id = substr 48 20 response }
unfolding accept_handshake
accepted_lem c c' response e = ground arith

-- The connection `c` is `a` with a socket that has just been dialled.
record Dials (g : Greeting) (a c : PeerConnect) : Type 0 where
  pub same : Same a c
  pub dials : (establish_connection a.socket g.dialing).1 ≡ ok tt
  pub socket : c.socket ≡ (establish_connection a.socket g.dialing).0

accept_handshake-Greeted :
    (g : Greeting) (a c c' : PeerConnect) (response : Bytes)
    → Dials g a c
    → receive_data c.socket 68 g.poll g.handshake_rounds ≡ returned response
    → accept_handshake c response ≡ ok c'
    → Greeted g a c'
accept_handshake-Greeted g a c c' response d r e =
    let h = (accept_handshake_iff c response).0 (c', e) in
    rw (accepted_lem c c' response e) (record {
      same =
          record {
            torrent = d.same.torrent;
            in_progress = d.same.in_progress;
            pending = d.same.pending;
            terminated = d.same.terminated;
          };
      response = response;
      dials = d.dials;
      answer =
          ap (λ (k : TcpConnect). receive_data k 68 g.poll g.handshake_rounds) (sym d.socket) ∙ r;
      enough = h.0;
      matches = h.1 ∙ ap (λ t. t.info_hash) d.same.torrent;
      known = refl;
    })

receive_bitfield-Same :
    (c c' : PeerConnect) (message : Bytes)
    → receive_bitfield c message ≡ ok c'
    → Same c c' × (c'.peer_id ≡ c.peer_id)
unfolding receive_bitfield
receive_bitfield-Same c c' message e = ground arith

-- However a part ends it keeps what connecting does not touch, and where it is done, `P` holds.
abbrev Leaves : PeerConnect → (PeerConnect → Type 0) → Progress → Type 0
Leaves c P (done c') = Same c c' × P c'
Leaves c P (fails_with e c') = Same c c'
Leaves c P (waits c') = Same c c'

and_then-Leaves :
    (c : PeerConnect) (P Q : PeerConnect → Type 0) (k : PeerConnect → Progress) (p : Progress)
    → ((c' : PeerConnect) → Same c c' → P c' → Leaves c Q (k c'))
    → Leaves c P p
    → Leaves c Q (and_then k p)
unfolding and_then
and_then-Leaves c P Q k (done c') f h = f c' h.0 h.1
and_then-Leaves c P Q k (fails_with e c') f h = h
and_then-Leaves c P Q k (waits c') f h = h

on_received-Leaves :
    (a c : PeerConnect) (P : PeerConnect → Type 0) (f : PeerConnect → Bytes → Result PeerConnect)
    (r : Received)
    → Same a c
    → ((message : Bytes) (c' : PeerConnect)
        → r ≡ returned message
        → f c message ≡ ok c'
        → Same a c' × P c')
    → Leaves a P (on_received f c r)
unfolding on_received
on_received-Leaves a c P f (returned message) h k = concluded-Leaves (f c message) refl
  where
    concluded-Leaves : (x : Result PeerConnect) → f c message ≡ x → Leaves a P (concluded c x)
    concluded-Leaves (ok c') e = k message c' refl e
    concluded-Leaves (err e') e = h
on_received-Leaves a c P f (thrown e) h k = h
on_received-Leaves a c P f waiting h k = h

sent-Leaves :
    (a c : PeerConnect) (P : PeerConnect → Type 0) (k : PeerConnect → Progress) (r : Result Bytes)
    → Same a c
    → Leaves a P (k c)
    → Leaves a P (sent k c r)
unfolding sent
sent-Leaves a c P k (ok message) h g = g
sent-Leaves a c P k (err e) h g = h

dialled-Leaves :
    (g : Greeting) (c : PeerConnect) (r : TcpConnect × Result (Unit {0}))
    → establish_connection c.socket g.dialing ≡ r
    → Leaves c (Dials g c) (dialled c r)
unfolding dialled
dialled-Leaves g c (socket, ok u) e =
    let same : Same c (record c { socket = socket }) =
      record { torrent = refl; in_progress = refl; pending = refl; terminated = refl } in
    (
      same,
      record {
        same = same;
        dials = ap (λ (q : TcpConnect × Result (Unit {0})). q.1) e;
        socket = sym (ap (λ (q : TcpConnect × Result (Unit {0})). q.0) e);
      },
    )
dialled-Leaves g c (socket, err e) h = record {
  torrent = refl;
  in_progress = refl;
  pending = refl;
  terminated = refl;
}

Greeted-then :
    (g : Greeting) (a b c : PeerConnect)
    → Greeted g a b
    → Same b c × (c.peer_id ≡ b.peer_id)
    → Greeted g a c
Greeted-then g a b c h s = record {
  same = Same-trans h.same s.0;
  response = h.response;
  dials = h.dials;
  answer = h.answer;
  enough = h.enough;
  matches = h.matches;
  known = s.1 ∙ h.known;
}

perform_handshake-Leaves :
    (g : Greeting) (a c : PeerConnect)
    → Dials g a c
    → Leaves a (Greeted g a) (perform_handshake g c)
unfolding perform_handshake await_handshake
perform_handshake-Leaves g a c d =
    sent-Leaves a c (Greeted g a) (await_handshake g)
      (send_data c.socket (handshake_message c) g.handshake_send_fails) d.same
      (on_received-Leaves a c (Greeted g a) accept_handshake
        (receive_data c.socket 68 g.poll g.handshake_rounds) d.same
        (λ message c' r e.
          let h = accept_handshake-Greeted g a c c' message d r e in (h.same, h)))

-- What connecting does not touch is the same whichever way it ends; where it gives true, the peer
-- was greeted; where it gives false, the socket is closed.
abbrev pub Settles : Greeting → PeerConnect → Established → Type 0
Settles g c (connected c') = Greeted g c c'
Settles g c (refused c') = Same c c' × (is_closed c'.socket ≡ true)
Settles g c (hanging c') = Same c c'

settled-Settles :
    (g : Greeting) (c : PeerConnect) (p : Progress)
    → Leaves c (Greeted g c) p
    → Settles g c (settled p)
unfolding settled close_connection is_closed
settled-Settles g c (done c') h = h.1
settled-Settles g c (fails_with e c') h = (
  record {
    torrent = h.torrent;
    in_progress = h.in_progress;
    pending = h.pending;
    terminated = h.terminated;
  },
  refl,
)
settled-Settles g c (waits c') h = h

-- EstablishConnection gives true only for a peer that has answered the handshake with 68 bytes or
-- more and the info hash of the torrent, whose identifier it keeps; where it gives false, the
-- socket is closed. It never touches the piece in progress and the flags for it.
pub establish-Settles : (g : Greeting) (c : PeerConnect) → Settles g c (establish g c)
unfolding establish await_bitfield send_interested
establish-Settles g c = settled-Settles g c _ (
    and_then-Leaves c (Greeted g c) (Greeted g c) (send_interested g) _
      (λ c' s h.
        sent-Leaves c c' (Greeted g c) done
          (send_data c'.socket interested_message g.interested_send_fails) s (s, h))
      (and_then-Leaves c (Greeted g c) (Greeted g c) (await_bitfield g) _
        (λ c' s h.
          on_received-Leaves c c' (Greeted g c) receive_bitfield
            (receive_data c'.socket 0 g.poll g.rounds) s
            (λ message d r e.
              let k = Greeted-then g c c' d h (receive_bitfield-Same c' d message e) in (k.same, k)))
        (and_then-Leaves c (Dials g c) (Greeted g c) (perform_handshake g) _
          (λ c' s h. perform_handshake-Leaves g c c' h)
          (dialled-Leaves g c (establish_connection c.socket g.dialing) refl))))
