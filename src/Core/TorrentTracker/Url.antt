-- ===== src/Core/TorrentTracker/Url.antt =====
-- ParseUdpUrl reads the URL of a UDP tracker.
use simple_torrent_client.Common.{
  ℕ, ◌^◌, ◌<◌, true, false, none, some, [], ◌∷◌, ◌++◌, append-nil, append_assoc, ◌≡◌, ◌≢◌, refl,
  sym, ap, ◌∙◌, arith, ◌==◌, bytes_eq, All, All-append, All-map, ok, >>=-ok,
}
use simple_torrent_client.ByteTools.{Bytes}
use simple_torrent_client.Decimal.{to_string}
use simple_torrent_client.Decimal.RoundTrip.{to_string-All, stoi-to_string}
use simple_torrent_client.Core.TorrentTracker.{
  udp_scheme, split_at, before, host_and_port, parse_udp_url,
}

split_at-append :
    (c : ℕ) (t rest : Bytes) → All (λ x. x ≢ c) t → split_at c (t ++ c ∷ rest) ≡ some (t, rest)
unfolding split_at
split_at-append c [] rest h = let e : (c == c) ≡ true = ground arith in rw (split_at, e) refl
split_at-append c (x ∷ t) rest h =
    let e : (x == c) ≡ false = ground (arith, h.0) in
    rw (split_at, e, split_at-append c t rest h.1) refl

split_at-none : (c : ℕ) (t : Bytes) → All (λ x. x ≢ c) t → split_at c t ≡ none
unfolding split_at
split_at-none c [] h = refl
split_at-none c (x ∷ t) h =
    let e : (x == c) ≡ false = ground (arith, h.0) in rw (split_at, e, split_at-none c t h.1) refl

-- A path is empty or begins with a slash.
abbrev pub IsPath : Bytes → Type 0
IsPath [] = Unit {0}
IsPath (c ∷ rest) = c ≡ b'/'

before_path : (t path : Bytes) → All (λ x. x ≢ b'/') t → IsPath path → before b'/' (t ++ path) ≡ t
unfolding before
before_path t [] h k = ap (before b'/') (append-nil t) ∙ rw (before, split_at-none b'/' t h) refl
before_path t (c ∷ path) h k =
    ap (λ (x : ℕ). before b'/' (t ++ x ∷ path)) k ∙ rw (before, split_at-append b'/' t path h) refl

-- A host has no slash and no colon.
abbrev pub IsHost : Bytes → Type 0
IsHost = All (λ c. (c ≢ b'/') × (c ≢ b':'))

-- What stands before the path is read.
parse_udp_url_lem :
    (t path : Bytes)
    → All (λ x. x ≢ b'/') t
    → IsPath path
    → parse_udp_url (udp_scheme ++ (t ++ path)) ≡ host_and_port t
unfolding parse_udp_url bytes_eq
parse_udp_url_lem t path h k = ap host_and_port (before_path t path h k)

host_and_port_written :
    (host : Bytes) (port : ℕ)
    → IsHost host
    → port < 2 ^ 31
    → host_and_port (host ++ b':' ∷ to_string port) ≡ ok (host, port)
unfolding host_and_port
host_and_port_written host port h b =
    rw (host_and_port, split_at-append b':' host (to_string port) (All-map (λ c x. x.1) host h))
      (>>=-ok _ (stoi-to_string port b))

host_and_port_default : (host : Bytes) → IsHost host → host_and_port host ≡ ok (host, 80)
unfolding host_and_port
host_and_port_default host h =
    rw (host_and_port, split_at-none b':' host (All-map (λ c x. x.1) host h)) refl

-- ParseUdpUrl of udp://, a host without slash and colon, a colon and a port below 2 ^ 31, and a
-- path or nothing, gives the host and the port; without colon and port it gives the host and 80.
pub parse_udp_url-written :
    (host : Bytes) (port : ℕ) (path : Bytes)
    → IsHost host
    → port < 2 ^ 31
    → IsPath path
    → (parse_udp_url (udp_scheme ++ (host ++ b':' ∷ (to_string port ++ path))) ≡ ok (host, port))
      × (parse_udp_url (udp_scheme ++ (host ++ path)) ≡ ok (host, 80))
parse_udp_url-written host port path h b k =
    let no_slash = All-map (λ c x. x.0) host h in
    let digits =
      All-map (λ c x. (let n : c ≢ b'/' = λ e. omega arith in n)) (to_string port)
        (to_string-All port) in
    let written =
      All-append (λ x. x ≢ b'/') host (b':' ∷ to_string port) no_slash
        ((λ e. omega arith), digits) in
    (
      ap (λ (s : Bytes). parse_udp_url (udp_scheme ++ s))
            (sym (append_assoc host (b':' ∷ to_string port) path))
          ∙ (parse_udp_url_lem (host ++ b':' ∷ to_string port) path written k
              ∙ host_and_port_written host port h b),
      parse_udp_url_lem host path no_slash k ∙ host_and_port_default host h,
    )
