-- ===== src/Net/UdpClient.antt =====
-- include/net/UdpClient.hpp and src/net/UdpClient.cpp: one datagram out and one in. What the system calls
-- give is an argument. The descriptor that the constructor closes where it throws is not kept. Nor is
-- `server_address`: `recvfrom` writes the address of the sender into it, to which the next `sendto`
-- goes; what comes of a datagram is an argument of each call, wherever it goes.
use simple_torrent_client.Common.{
  ℕ, Bool, not, ◌==◌, if◌then◌else◌, length, take, Result, ok, err, udp_socket_not_created,
  receive_timeout_not_set, host_not_resolved, datagram_send_error, partial_send, response_timed_out,
  datagram_receive_error,
}
use simple_torrent_client.ByteTools.{Bytes}

-- Whether `socket`, `setsockopt` and `gethostbyname` succeed.
pub record Setup : Type 0 where
  pub socket_created : Bool
  pub timeout_set : Bool
  pub host_resolved : Bool

-- What `sendto` gives.
pub data Sent : Type 0 where
  send_failed : Sent
  sent : ℕ → Sent

-- What `recvfrom` gives: the datagram, of which the buffer takes the first bytes.
pub data Received : Type 0 where
  would_block : Received
  receive_failed : Received
  datagram : Bytes → Received

pub record UdpClient : Type 0 where
  pub host : Bytes
  pub port : ℕ
  pub timeout_sec : ℕ

unfoldable pub init : Setup → Bytes → ℕ → ℕ → Result UdpClient
init setup host port timeout_sec =
    if not setup.socket_created
    then err udp_socket_not_created
    else if not setup.timeout_set
    then err receive_timeout_not_set
    else if not setup.host_resolved
    then err host_not_resolved
    else ok (record { host = host; port = port; timeout_sec = timeout_sec })

-- BUFSIZ
abbrev pub buffer_size : ℕ
buffer_size = 8192

unfoldable pub accept_datagram : Received → Result Bytes
accept_datagram would_block = err response_timed_out
accept_datagram receive_failed = err datagram_receive_error
accept_datagram (datagram bytes) = ok (take buffer_size bytes)

unfoldable pub send_receive : Sent → Received → Bytes → Result Bytes
unfolding accept_datagram
send_receive send_failed received request = err datagram_send_error
send_receive (sent n) received request =
    if not (n == length request) then err partial_send else accept_datagram received
