-- ===== src/Net/PeerConnect/Returns.antt =====
-- No piece is lost: where a connection gives up a piece that is not complete, the piece goes back to
-- the queue, unless it has been saved.
use simple_torrent_client.Common.{
  true, false, Option, none, some, [], ◌∷◌, ◌++◌, ◌≡◌, ◌⊎◌, inl, inr, refl, ap, ◌∙◌, arith,
  Bool-cases, if_true, if_false, ok,
}
use simple_torrent_client.ByteTools.{Bytes}
use simple_torrent_client.Core.Piece.{Piece, all_blocks_retrieved, reset}
use simple_torrent_client.Core.Piece.Layout.{reset-reset}
use simple_torrent_client.Core.PieceStorage.{PieceStorage, enqueue, is_piece_already_saved}
use simple_torrent_client.Net.Message.{Message, choke, parse}
use simple_torrent_client.Net.TcpConnect.{close_connection, is_closed}
use simple_torrent_client.Net.PeerConnect.{
  Session, give_back, give_back_unfinished, clean_up, handle_connection_error, terminate, on_choke,
  dispatch, process_message,
}

-- The storage `s'` has taken back piece `p`: as the last of the queue and as new, or not at all if
-- it is recorded as saved.
abbrev pub TakesBack : PieceStorage → Piece → PieceStorage → Type 0
TakesBack s p s' =
    ((is_piece_already_saved s p.index ≡ true) × (s' ≡ s))
    ⊎ ((is_piece_already_saved s p.index ≡ false)
        × (s' ≡ record s { remaining_pieces_queue = s.remaining_pieces_queue ++ reset p ∷ [] }))

-- And the connection holds no piece.
pub record GivesBack (s : Session) (p : Piece) (s' : Session) : Type 0 where
  pub free : s'.connection.piece_is_in_progress ≡ none
  pub back : TakesBack s.piece_storage p s'.piece_storage

enqueue-TakesBack : (s : PieceStorage) (p : Piece) → TakesBack s p (enqueue s (some (reset p)))
unfolding enqueue reset
enqueue-TakesBack s p = elim (Bool-cases (is_piece_already_saved s p.index)) [
  | inl e ↦ inl (e, if_true _ _ _ e)
  | inr e ↦ inr (
    e,
    if_false _ _ _ e
        ∙ ap
            (λ (q : Piece). record s {
              remaining_pieces_queue = s.remaining_pieces_queue ++ q ∷ [];
            })
            (reset-reset p),
  )
]

pub give_back-GivesBack : (s : Session) (p : Piece) → GivesBack s p (give_back s p)
unfolding give_back
give_back-GivesBack s p = record { free = refl; back = enqueue-TakesBack s.piece_storage p }

give_back_unfinished-GivesBack :
    (s : Session) (o : Option Piece) (p : Piece)
    → o ≡ some p
    → all_blocks_retrieved p ≡ false
    → GivesBack s p (give_back_unfinished s o)
unfolding give_back_unfinished
give_back_unfinished-GivesBack s o p e u = rw (e, u) (give_back-GivesBack s p)

-- The flags stay.
give_back_unfinished_flags :
    (s : Session) (o : Option Piece)
    → ((give_back_unfinished s o).connection.is_choked ≡ s.connection.is_choked)
      × ((give_back_unfinished s o).connection.block_is_pending ≡ s.connection.block_is_pending)
unfolding give_back_unfinished
give_back_unfinished_flags s none = (refl, refl)
give_back_unfinished_flags s (some p) = ground arith

clean_up-GivesBack :
    (s : Session) (o : Option Piece) (p : Piece)
    → o ≡ some p
    → all_blocks_retrieved p ≡ false
    → GivesBack s p (clean_up s o)
unfolding clean_up
clean_up-GivesBack s o p e u = elim (Bool-cases (is_piece_already_saved s.piece_storage p.index)) [
  | inl k ↦ rw (e, u, k) (record { free = refl; back = inl (k, refl) })
  | inr k ↦ rw (e, u, k) (give_back-GivesBack s p)
]

-- When a connection fails with a piece that is not complete, HandleConnectionError gives the piece
-- back to the queue, as its last one and as new, unless the piece is recorded as saved; the
-- connection then holds no piece, waits for no block, and its socket is closed.
pub handle_connection_error-GivesBack :
    (s : Session) (p : Piece)
    → s.connection.piece_is_in_progress ≡ some p
    → all_blocks_retrieved p ≡ false
    → GivesBack s p (handle_connection_error s)
      × ((handle_connection_error s).connection.block_is_pending ≡ false)
      × (is_closed (handle_connection_error s).connection.socket ≡ true)
unfolding handle_connection_error close_connection is_closed
handle_connection_error-GivesBack s p e u =
    let failed : Session = record s { connection = record s.connection { has_failed = true } } in
    let r = clean_up-GivesBack failed s.connection.piece_is_in_progress p e u in
    (record { free = r.free; back = r.back }, refl, refl)

-- When a connection is terminated with a piece that is not complete, Terminate gives the piece back
-- to the queue, as its last one and as new, unless the piece is recorded as saved; the connection
-- then holds no piece, and its socket is closed.
pub terminate-GivesBack :
    (s : Session) (p : Piece)
    → s.connection.piece_is_in_progress ≡ some p
    → all_blocks_retrieved p ≡ false
    → GivesBack s p (terminate s) × (is_closed (terminate s).connection.socket ≡ true)
unfolding terminate close_connection is_closed
terminate-GivesBack s p e u =
    let ended : Session = record s { connection = record s.connection { is_terminated = true } } in
    let r = give_back_unfinished-GivesBack ended s.connection.piece_is_in_progress p e u in
    (record { free = r.free; back = r.back }, refl)

-- A choke by the peer gives a piece that is not complete back to the queue, as its last one and as
-- new, unless the piece is recorded as saved: the connection is then choked, holds no piece and
-- waits for no block.
pub process_message_choke :
    (sha1 : Bytes → Bytes) (s : Session) (p : Piece) (message_data : Bytes) (m : Message)
    → parse message_data ≡ ok m
    → m.id ≡ choke
    → s.connection.piece_is_in_progress ≡ some p
    → all_blocks_retrieved p ≡ false
    → (s' : Session) × (process_message sha1 s message_data ≡ ok s')
      × GivesBack s p s'
      × (s'.connection.is_choked ≡ true)
      × (s'.connection.block_is_pending ≡ false)
unfolding process_message dispatch on_choke
process_message_choke sha1 s p message_data m k c e u =
    let choked : Session = record s {
      connection = record s.connection { is_choked = true; block_is_pending = false };
    } in
    let r = give_back_unfinished-GivesBack choked s.connection.piece_is_in_progress p e u in
    let flags = give_back_unfinished_flags choked s.connection.piece_is_in_progress in
    (on_choke s, rw (k, c) refl, record { free = r.free; back = r.back }, flags.0, flags.1)

flags_kept :
    (s : Session) (o : Option Piece)
    → ((give_back_unfinished s o).connection.is_terminated ≡ s.connection.is_terminated)
      × ((give_back_unfinished s o).connection.has_failed ≡ s.connection.has_failed)
unfolding give_back_unfinished
flags_kept s none = (refl, refl)
flags_kept s (some p) = ground arith

-- Whatever piece is in progress, `Terminate` sets the flag, closes the socket and keeps `has_failed`.
pub terminate_flags :
    (s : Session)
    → ((terminate s).connection.is_terminated ≡ true)
      × (is_closed (terminate s).connection.socket ≡ true)
      × ((terminate s).connection.has_failed ≡ s.connection.has_failed)
unfolding terminate close_connection is_closed
terminate_flags s =
    let r =
      flags_kept (record s { connection = record s.connection { is_terminated = true } })
        s.connection.piece_is_in_progress in
    (r.0, refl, r.1)
