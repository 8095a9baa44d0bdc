-- ===== src/Common/Errors.antt =====
-- Exceptions as values: `Result A` is what a call that may throw gives.
use Prim.Native.Nat.{ℕ}
use mathlib.Core.List.{List}
use mathlib.Core.Path.{◌≡◌, refl, sym, ap}
use mathlib.Core.Logic.{◌≢◌, ◌⊎◌, inl, inr}

-- One constructor for each exception that the modelled code throws, named for its message.
pub data Error : Type 0 where
  -- byte_tools.cpp
  not_enough_bytes : Error
  -- std::string::substr past the end
  out_of_range : Error
  -- std::stoi and std::stol on a text that begins with no number
  invalid_argument : Error
  -- Piece::SaveBlock
  block_not_pending : Error
  block_not_found : Error
  -- PieceStorage::PieceStorage: `%` by a piece length of 0, which ends the program with a signal
  division_by_zero : Error
  -- PieceStorage::InitializeOutputFile
  output_file_not_open : Error
  -- TcpConnect
  socket_not_created : Error
  connection_timed_out : Error
  socket_connection_error : Error
  connection_closed : Error
  send_error : Error
  connection_terminated : Error
  poll_error : Error
  read_timed_out : Error
  read_error : Error
  too_much_data : Error
  -- PeerConnect
  handshake_too_short : Error
  info_hash_mismatch : Error
  empty_message : Error
  inactive : Error
  -- UdpClient and UdpTracker
  no_answer : Error
  udp_socket_not_created : Error
  receive_timeout_not_set : Error
  host_not_resolved : Error
  datagram_send_error : Error
  partial_send : Error
  response_timed_out : Error
  datagram_receive_error : Error
  connect_too_small : Error
  connect_failed : Error
  connect_mismatch : Error
  wrong_info_hash_size : Error
  wrong_peer_id_size : Error
  announce_too_small : Error
  tracker_error : List ℕ → Error
  announce_failed : Error
  announce_mismatch : Error
  -- TorrentTracker
  invalid_udp_url : Error
  http_error : ℕ → Error
  tracker_failure : List ℕ → Error
  no_peers_data : Error
  peer_format_not_supported : Error
  all_trackers_failed : Error

pub data Result {ℓ} (A : Type ℓ) : Type ℓ where
  err : Error → Result A
  ok : A → Result A

-- An exception passes what follows by.
infixl 5 ◌>>=◌
abbrev pub ◌>>=◌ {ℓ κ} : {A : Type ℓ} {B : Type κ} → Result A → (A → Result B) → Result B
call >>= continue_with = elim call [ err e ↦ err e | ok a ↦ continue_with a ]

pub ok≢err {ℓ} : {A : Type ℓ} {a : A} {e : Error} → ok a ≢ err e
ok≢err h = cc

-- Two calls in a row return if both do.
pub both_return {ℓ κ} :
    {A : Type ℓ} {B : Type κ} {b : B} (second : A → Result B) (first : Result A)
    → (first >>= second) ≡ ok b
    → (a : A) × ((first ≡ ok a) × (second a ≡ ok b))
both_return second (err e) h = absurd (ok≢err (sym h))
both_return second (ok a) h = (a, (refl, h))

pub ok-injective {ℓ} : {A : Type ℓ} {a b : A} → ok a ≡ ok b → a ≡ b
ok-injective h = cc

pub Result-cases {ℓ} :
    {A : Type ℓ} (r : Result A) → ((a : A) × (r ≡ ok a)) ⊎ ((e : Error) × (r ≡ err e))
Result-cases (ok a) = inl (a, refl)
Result-cases (err e) = inr (e, refl)

pub err-injective {ℓ} : {A : Type ℓ} {a b : Error} → ◌≡◌ {A = Result A} (err a) (err b) → a ≡ b
err-injective h = cc

-- A call that returns is followed by the next one.
pub >>=-ok {ℓ κ} :
    {A : Type ℓ} {B : Type κ} {m : Result A} {a : A} (f : A → Result B) → m ≡ ok a → (m >>= f) ≡ f a
>>=-ok f e = ap (λ r. r >>= f) e
