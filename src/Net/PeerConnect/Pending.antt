-- ===== src/Net/PeerConnect/Pending.antt =====
-- While a block is requested, the connection holds a piece that is not complete.
use simple_torrent_client.Common.{
  ℕ, Bool, true, false, not, Option, none, some, ltb, ◌==◌, ◌≡◌, refl, arith, if◌then◌else◌, length,
  drop, Result, ok, err, ◌>>=◌,
}
use simple_torrent_client.ByteTools.{Bytes, substr, to_size_t, bytes_to_int}
use simple_torrent_client.Core.Piece.{Piece, all_blocks_retrieved, save_block}
use simple_torrent_client.Net.Message.{MessageId, choke, unchoke, have, piece, parse}
use simple_torrent_client.Net.PeerConnect.{
  Session, give_back_unfinished, handle_connection_error, terminate, on_choke, on_have, after_save, on_block,
  on_piece, dispatch, process_message,
}

abbrev pub PendingAs : Bool → Option Piece → Type 0
PendingAs false o = Unit {0}
PendingAs true (some p) = all_blocks_retrieved p ≡ false
PendingAs true none = ⊥

abbrev pub IsPending : Session → Type 0
IsPending s = PendingAs s.connection.block_is_pending s.connection.piece_is_in_progress

pub PendingAs-false : (b : Bool) (o : Option Piece) → b ≡ false → PendingAs b o
PendingAs-false true o e = absurd (cc)
PendingAs-false false o e = tt

give_back_unfinished-pending :
    (s : Session) (o : Option Piece)
    → (give_back_unfinished s o).connection.block_is_pending ≡ s.connection.block_is_pending
unfolding give_back_unfinished
give_back_unfinished-pending s none = refl
give_back_unfinished-pending s (some p) = ground arith

pub terminate-pending :
    (s : Session)
    → (terminate s).connection.block_is_pending ≡ s.connection.block_is_pending
unfolding terminate
terminate-pending s =
    give_back_unfinished-pending
      (record s { connection = record s.connection { is_terminated = true } })
      s.connection.piece_is_in_progress

after_save-pending :
    (sha1 : Bytes → Bytes) (s : Session) (p : Piece)
    → (after_save sha1 s p).connection.block_is_pending ≡ false
unfolding after_save
after_save-pending sha1 s p = ground arith

-- After a failure no block is requested.
pub handle_connection_error-IsPending : (s : Session) → IsPending (handle_connection_error s)
unfolding handle_connection_error
handle_connection_error-IsPending s = tt

abbrev pub KeepsPending : Result Session → Type 0
KeepsPending (ok s) = IsPending s
KeepsPending (err e) = Unit {0}

KeepsPending-bind :
    {A : Type 0} (m : Result A) (f : A → Result Session)
    → ((a : A) → KeepsPending (f a))
    → KeepsPending (m >>= f)
KeepsPending-bind (ok a) f h = h a
KeepsPending-bind (err e) f h = tt

KeepsPending-if :
    (b : Bool) (x y : Result Session)
    → KeepsPending x
    → KeepsPending y
    → KeepsPending (if b then x else y)
KeepsPending-if true x y hx hy = hx
KeepsPending-if false x y hx hy = hy

on_block-KeepsPending :
    (sha1 : Bytes → Bytes) (s : Session) (o : Option Piece) (index offset : ℕ) (d : Bytes)
    → IsPending s
    → KeepsPending (on_block sha1 s o index offset d)
unfolding on_block
on_block-KeepsPending sha1 s none index offset d v = v
on_block-KeepsPending sha1 s (some p) index offset d v =
    KeepsPending-if (not (p.index == index)) _ _ v (
      KeepsPending-bind (save_block p offset d) _ (λ p'.
        PendingAs-false (after_save sha1 s p').connection.block_is_pending
          (after_save sha1 s p').connection.piece_is_in_progress (after_save-pending sha1 s p')))

on_have-KeepsPending :
    (s : Session) (payload : Bytes) → IsPending s → KeepsPending (on_have s payload)
unfolding on_have
on_have-KeepsPending s payload v =
    KeepsPending-if (ltb (length payload) 4) _ _ v
      (KeepsPending-bind (bytes_to_int (substr 0 4 payload)) _ (λ word. v))

on_piece-KeepsPending :
    (sha1 : Bytes → Bytes) (s : Session) (payload : Bytes)
    → IsPending s
    → KeepsPending (on_piece sha1 s payload)
unfolding on_piece
on_piece-KeepsPending sha1 s payload v = KeepsPending-if (ltb (length payload) 8) _ _ v (
    KeepsPending-bind (bytes_to_int (substr 0 4 payload)) _ (λ index.
      KeepsPending-bind (bytes_to_int (substr 4 4 payload)) _ (λ offset.
        on_block-KeepsPending sha1 s s.connection.piece_is_in_progress (to_size_t index)
          (to_size_t offset) (drop 8 payload) v)))

dispatch-KeepsPending :
    (sha1 : Bytes → Bytes) (id : MessageId) (s : Session) (payload : Bytes)
    → IsPending s
    → KeepsPending (dispatch sha1 s id payload)
unfolding dispatch on_choke
dispatch-KeepsPending sha1 choke s payload v =
    PendingAs-false (on_choke s).connection.block_is_pending
      (on_choke s).connection.piece_is_in_progress
      (give_back_unfinished-pending _ s.connection.piece_is_in_progress)
dispatch-KeepsPending sha1 unchoke s payload v = v
dispatch-KeepsPending sha1 have s payload v = on_have-KeepsPending s payload v
dispatch-KeepsPending sha1 piece s payload v = on_piece-KeepsPending sha1 s payload v
dispatch-KeepsPending sha1 _ s payload v = v

-- While a block is requested the connection holds a piece that is not complete: where
-- ProcessMessage returns, on any bytes, it keeps this.
pub process_message-KeepsPending :
    (sha1 : Bytes → Bytes) (s : Session) (message_data : Bytes)
    → IsPending s
    → KeepsPending (process_message sha1 s message_data)
unfolding process_message
process_message-KeepsPending sha1 s message_data v =
    KeepsPending-bind (parse message_data) _ (λ m. dispatch-KeepsPending sha1 m.id s m.payload v)
