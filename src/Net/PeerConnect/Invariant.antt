-- ===== src/Net/PeerConnect/Invariant.antt =====
-- What holds of a session, whatever the peer sends and whenever the connection fails: the storage
-- stays valid, and the connection holds a piece of its torrent or none.
use simple_torrent_client.Common.{
  ℕ, Bool, true, false, not, Option, none, some, ltb, ◌==◌, ◌≡◌, inl, inr, refl, if◌then◌else◌,
  length, drop, Result, ok, err, ◌>>=◌, Bool-cases,
}
use simple_torrent_client.ByteTools.{Bytes, substr, to_size_t, bytes_to_int}
use simple_torrent_client.Core.TorrentFile.{TorrentFile}
use simple_torrent_client.Core.Piece.{Piece, all_blocks_retrieved, hash_matches, reset, save_block}
use simple_torrent_client.Core.Piece.Invariant.{save_block-IsValid}
use simple_torrent_client.Core.Piece.Blocks.{save_block_same}
use simple_torrent_client.Core.PieceStorage.{is_piece_already_saved}
use simple_torrent_client.Core.PieceStorage.Invariant.{
  IsTorrent, IsPieceOf, reset-IsPieceOf, enqueue-IsValid,
}
use simple_torrent_client.Core.PieceStorage.Invariant
use simple_torrent_client.Core.PieceStorage.Saving.{piece_processed-IsValid}
use simple_torrent_client.Net.Message.{MessageId, choke, unchoke, have, piece, parse}
use simple_torrent_client.Net.PeerConnect.{
  Session, give_back, give_back_unfinished, clean_up, handle_connection_error, terminate, on_choke,
  on_have, after_save, on_block, on_piece, dispatch, process_message,
}

-- A piece that a connection holds.
abbrev pub HoldsPieceOf : TorrentFile → Option Piece → Type 0
HoldsPieceOf t none = Unit {0}
HoldsPieceOf t (some p) = IsPieceOf t p

module _ (sha1 : Bytes → Bytes) (t : TorrentFile) where
  pub record IsValid (s : Session) : Type 0 where
    pub storage : Invariant.IsValid sha1 t s.piece_storage
    pub held : HoldsPieceOf t s.connection.piece_is_in_progress

  -- Only the storage and the piece in progress matter.
  pub IsValid-of :
      (s s' : Session)
      → s'.piece_storage ≡ s.piece_storage
      → s'.connection.piece_is_in_progress ≡ s.connection.piece_is_in_progress
      → IsValid s
      → IsValid s'
  IsValid-of s s' e f v = record { storage = rw e v.storage; held = rw f v.held }

  pub give_back-IsValid :
      (s : Session) (p : Piece) → IsValid s → IsPieceOf t p → IsValid (give_back s p)
  unfolding give_back
  give_back-IsValid s p v h = record {
    storage = enqueue-IsValid sha1 t s.piece_storage v.storage (reset p) (reset-IsPieceOf t p h);
    held = tt;
  }

  give_back_unfinished-IsValid :
      (s : Session) (o : Option Piece)
      → IsValid s
      → HoldsPieceOf t o
      → IsValid (give_back_unfinished s o)
  unfolding give_back_unfinished
  give_back_unfinished-IsValid s none v h = v
  give_back_unfinished-IsValid s (some p) v h = elim (Bool-cases (all_blocks_retrieved p)) [
    | inl e ↦ rw e v
    | inr e ↦ rw e (give_back-IsValid s p v h)
  ]

  clean_up-IsValid :
      (s : Session) (o : Option Piece) → IsValid s → HoldsPieceOf t o → IsValid (clean_up s o)
  unfolding clean_up
  clean_up-IsValid s none v h = v
  clean_up-IsValid s (some p) v h = elim (Bool-cases (all_blocks_retrieved p)) [
    | inl e ↦ rw e v
    | inr e ↦ rw e (elim (Bool-cases (is_piece_already_saved s.piece_storage p.index)) [
      | inl f ↦ rw f (record { storage = v.storage; held = tt })
      | inr f ↦ rw f (give_back-IsValid s p v h)
    ])
  ]

  -- `HandleConnectionError` leaves a valid session valid, whatever piece was in progress.
  pub handle_connection_error-IsValid :
      (s : Session) → IsValid s → IsValid (handle_connection_error s)
  unfolding handle_connection_error
  handle_connection_error-IsValid s v =
      IsValid-of _ _ refl refl
        (clean_up-IsValid _ s.connection.piece_is_in_progress (IsValid-of s _ refl refl v) v.held)

  -- `Terminate` leaves a valid session valid, whatever piece was in progress.
  pub terminate-IsValid : (s : Session) → IsValid s → IsValid (terminate s)
  unfolding terminate
  terminate-IsValid s v = IsValid-of _ _ refl refl (
      give_back_unfinished-IsValid _ s.connection.piece_is_in_progress (IsValid-of s _ refl refl v)
        v.held)

  module _ (w : IsTorrent t) where
    after_save-IsValid :
        (s : Session) (p : Piece) → IsValid s → IsPieceOf t p → IsValid (after_save sha1 s p)
    unfolding after_save
    after_save-IsValid s p v h = elim (Bool-cases (all_blocks_retrieved p)) [
      | inr e ↦ rw e (record { storage = v.storage; held = h })
      | inl e ↦ rw e (elim (Bool-cases (hash_matches sha1 p)) [
        | inl f ↦ rw f (record {
          storage = (piece_processed-IsValid sha1 t w s.piece_storage p v.storage h).0;
          held = tt;
        })
        | inr f ↦ rw f (
            give_back-IsValid
              (record s {
                connection = record s.connection {
                  block_is_pending = false;
                  piece_is_in_progress = some p;
                };
              })
              p (record { storage = v.storage; held = h }) h)
      ])
    ]

    -- Where a call returns, the session that it leaves is valid.
    abbrev pub Keeps : Result Session → Type 0
    Keeps (ok s) = IsValid s
    Keeps (err e) = Unit {0}

    Keeps-bind :
        {A : Type 0} (m : Result A) (f : A → Result Session)
        → ((a : A) → m ≡ ok a → Keeps (f a))
        → Keeps (m >>= f)
    Keeps-bind (ok a) f h = h a refl
    Keeps-bind (err e) f h = tt

    Keeps-if : (b : Bool) (x y : Result Session) → Keeps x → Keeps y → Keeps (if b then x else y)
    Keeps-if true x y hx hy = hx
    Keeps-if false x y hx hy = hy

    save_block-IsPieceOf :
        (p p' : Piece) (o : ℕ) (d : Bytes)
        → IsPieceOf t p
        → save_block p o d ≡ ok p'
        → IsPieceOf t p'
    save_block-IsPieceOf p p' o d h e =
        let same = save_block_same p p' o d e in
        record {
          known = rw same.0 h.known;
          sized = rw (same.0, same.1) h.sized;
          hashed = rw (same.0, same.2) h.hashed;
          valid = save_block-IsValid p p' o d h.valid e;
        }

    on_block-Keeps :
        (s : Session) (o : Option Piece) (index offset : ℕ) (d : Bytes)
        → IsValid s
        → HoldsPieceOf t o
        → Keeps (on_block sha1 s o index offset d)
    unfolding on_block
    on_block-Keeps s none index offset d v h = v
    on_block-Keeps s (some p) index offset d v h = Keeps-if (not (p.index == index)) _ _ v (
        Keeps-bind (save_block p offset d) _
          (λ p' e. after_save-IsValid s p' v (save_block-IsPieceOf p p' offset d h e)))

    on_piece-Keeps : (s : Session) (payload : Bytes) → IsValid s → Keeps (on_piece sha1 s payload)
    unfolding on_piece
    on_piece-Keeps s payload v = Keeps-if (ltb (length payload) 8) _ _ v (
        Keeps-bind (bytes_to_int (substr 0 4 payload)) _ (λ index _.
          Keeps-bind (bytes_to_int (substr 4 4 payload)) _ (λ offset _.
            on_block-Keeps s s.connection.piece_is_in_progress (to_size_t index) (to_size_t offset)
              (drop 8 payload) v v.held)))

    on_have-Keeps : (s : Session) (payload : Bytes) → IsValid s → Keeps (on_have s payload)
    unfolding on_have
    on_have-Keeps s payload v =
        Keeps-if (ltb (length payload) 4) _ _ v
          (Keeps-bind (bytes_to_int (substr 0 4 payload)) _ (λ word _. IsValid-of s _ refl refl v))

    on_choke-IsValid : (s : Session) → IsValid s → IsValid (on_choke s)
    unfolding on_choke
    on_choke-IsValid s v =
        give_back_unfinished-IsValid _ s.connection.piece_is_in_progress
          (IsValid-of s _ refl refl v) v.held

    dispatch-Keeps :
        (id : MessageId) (s : Session) (payload : Bytes)
        → IsValid s
        → Keeps (dispatch sha1 s id payload)
    unfolding dispatch
    dispatch-Keeps choke s payload v = on_choke-IsValid s v
    dispatch-Keeps unchoke s payload v = IsValid-of s _ refl refl v
    dispatch-Keeps have s payload v = on_have-Keeps s payload v
    dispatch-Keeps piece s payload v = on_piece-Keeps s payload v
    dispatch-Keeps _ s payload v = v

    -- For a torrent whose pieces have at least one byte and whose number of pieces times piece
    -- length is below 2 ^ 63, and whatever bytes a peer sends: where ProcessMessage returns on
    -- them, in a session of the torrent that was valid, the session is valid again, that is, the
    -- storage is and the piece in progress, if any, is one of the torrent.
    pub process_message-Keeps :
        (s : Session) (message_data : Bytes)
        → IsValid s
        → Keeps (process_message sha1 s message_data)
    unfolding process_message
    process_message-Keeps s message_data v =
        Keeps-bind (parse message_data) _ (λ m _. dispatch-Keeps m.id s m.payload v)
