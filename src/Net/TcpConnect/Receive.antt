-- ===== src/Net/TcpConnect/Receive.antt =====
-- How much `TcpConnect::ReceiveData` reads: at least what the length prefix says, and, as each
-- `recv` may fill the whole buffer again, up to almost twice that.
use simple_torrent_client.Common.{
  ℕ, zero, suc, ◌+◌, ◌-◌, ◌≤◌, ◌<◌, false, List, [], ◌∷◌, ◌++◌, append-nil, append_assoc, ltb,
  length, length-append, ◌≡◌, ◌⊎◌, inl, inr, refl, ap, ◌∙◌, sym, arith, All, ok,
}
use simple_torrent_client.ByteTools.{Bytes, to_size_t, bytes_to_int}
use simple_torrent_client.Net.TcpConnect.{
  TcpConnect, Chunk, lost, received, Round, closed_before, reads, ready, returned, receive_loop,
  receive_data, is_closed,
}

-- `recv` gives between 1 byte and the size of the buffer.
abbrev pub FitsChunk : ℕ → Chunk → Type 0
FitsChunk n (lost closed) = Unit {0}
FitsChunk n (received bytes) = (0 < length bytes) × (length bytes ≤ n)

abbrev pub FitsRound : ℕ → Round → Type 0
FitsRound n closed_before = Unit {0}
FitsRound n (reads c) = FitsChunk n c

-- The bytes that the rounds bring.
abbrev pub stream : List Round → Bytes
stream [] = []
stream (reads (received bytes) ∷ rest) = bytes ++ stream rest
stream (_ ∷ rest) = stream rest

-- What a call returned: the bytes read so far and a beginning of the stream.
pub record Read (n capacity : ℕ) (message : Bytes) (rounds : List Round) (result : Bytes)
    : Type 0 where
  pub body : Bytes
  pub rest : Bytes
  pub joined : result ≡ message ++ body
  pub prefix : stream rounds ≡ body ++ rest
  pub enough : n ≤ length body
  pub bounded : ((n ≡ 0) × (length body ≡ 0)) ⊎ ((0 < n) × (length body < n + capacity))

returned-injective : {a b : Bytes} → returned a ≡ returned b → a ≡ b
returned-injective h = cc

receive_loop-Read :
    (n capacity : ℕ) (message : Bytes) (rounds : List Round) (result : Bytes)
    → 0 < capacity
    → All (FitsRound capacity) rounds
    → receive_loop n message rounds ≡ returned result
    → Read n capacity message rounds result
unfolding receive_loop
receive_loop-Read zero capacity message rounds result c f e = record {
  body = [];
  rest = stream rounds;
  joined = returned-injective (sym e) ∙ sym (append-nil message);
  prefix = refl;
  enough = omega arith;
  bounded = inl (refl, refl);
}
receive_loop-Read (suc n) capacity message [] result c f e = cc
receive_loop-Read (suc n) capacity message (closed_before ∷ rounds) result c f e = cc
receive_loop-Read (suc n) capacity message (reads (lost b) ∷ rounds) result c f e = cc
receive_loop-Read (suc n) capacity message (reads (received bytes) ∷ rounds) result c f e =
    let r =
      receive_loop-Read (suc n - length bytes) capacity (message ++ bytes) rounds result c f.1 e in
    record {
      body = bytes ++ r.body;
      rest = r.rest;
      joined = r.joined ∙ append_assoc message bytes r.body;
      prefix = ap (◌++◌ bytes) r.prefix ∙ sym (append_assoc bytes r.body r.rest);
      enough = omega (arith, r.enough, length-append {0} bytes r.body);
      bounded =
          inr
            (omega arith, omega (arith, f.0, r.bounded, r.enough, length-append {0} bytes r.body));
    }

receive_data-returned :
    (c : TcpConnect) (first : Bytes) (rounds : List Round) (word : ℕ) (result : Bytes)
    → bytes_to_int first ≡ ok word
    → receive_data c 0 (ready (received first)) rounds ≡ returned result
    → (ltb 100000 (to_size_t word) ≡ false)
      × (receive_loop (to_size_t word) first rounds ≡ returned result)
unfolding receive_data
receive_data-returned c first rounds word result w e = ground arith

-- A message with a length prefix that is not 0, if one is returned, is the prefix and then the
-- beginning of what the peer sends: at least as many bytes as the prefix says, and less than twice
-- as many; and the prefix says at most 100000. Each recv is taken to bring at least one byte and at
-- most as many as the buffer has, which are as many as the prefix says.
pub receive_data-Read :
    (c : TcpConnect) (first : Bytes) (rounds : List Round) (word : ℕ) (result : Bytes)
    → bytes_to_int first ≡ ok word
    → All (FitsRound (to_size_t word)) rounds
    → 0 < to_size_t word
    → receive_data c 0 (ready (received first)) rounds ≡ returned result
    → Read (to_size_t word) (to_size_t word) first rounds result × (to_size_t word ≤ 100000)
receive_data-Read c first rounds word result w f pos e =
    let h = receive_data-returned c first rounds word result w e in
    (
      receive_loop-Read (to_size_t word) (to_size_t word) first rounds result pos f h.1,
      ground (arith, h.0),
    )

-- Rounds that all bring bytes.
abbrev pub BringsBytes : Round → Type 0
BringsBytes (reads (received bytes)) = 0 < length bytes
BringsBytes _ = ⊥

-- The loop returns all that comes, if exactly as much comes as is wanted.
receive_loop_exact :
    (n : ℕ) (message : Bytes) (rounds : List Round)
    → All BringsBytes rounds
    → length (stream rounds) ≡ n
    → receive_loop n message rounds ≡ returned (message ++ stream rounds)
unfolding receive_loop
receive_loop_exact zero message [] b e = ap returned (sym (append-nil message))
receive_loop_exact zero message (reads (received bytes) ∷ rounds) b e =
    absurd (omega (arith, length-append {0} bytes (stream rounds)))
receive_loop_exact zero message (reads (lost c) ∷ rounds) b e = absurd b.0
receive_loop_exact zero message (closed_before ∷ rounds) b e = absurd b.0
receive_loop_exact (suc n) message [] b e = absurd (omega arith)
receive_loop_exact (suc n) message (reads (received bytes) ∷ rounds) b e =
    receive_loop_exact (suc n - length bytes) (message ++ bytes) rounds b.1
      (omega (arith, length-append {0} bytes (stream rounds)))
    ∙ ap returned (append_assoc message bytes (stream rounds))
receive_loop_exact (suc n) message (reads (lost c) ∷ rounds) b e = absurd b.0
receive_loop_exact (suc n) message (closed_before ∷ rounds) b e = absurd b.0

-- A peer that sends one message and then waits is read exactly over a socket that is open, in
-- whatever chunks its bytes come, if the prefix comes in one chunk and asks for at most 100000
-- bytes.
pub receive_data_exact :
    (c : TcpConnect) (first : Bytes) (rounds : List Round) (word : ℕ)
    → is_closed c ≡ false
    → bytes_to_int first ≡ ok word
    → All BringsBytes rounds
    → length (stream rounds) ≡ to_size_t word
    → to_size_t word ≤ 100000
    → receive_data c 0 (ready (received first)) rounds ≡ returned (first ++ stream rounds)
unfolding receive_data
receive_data_exact c first rounds word usable w b e k =
    let l : ltb 100000 (to_size_t word) ≡ false = ground arith in
    rw (usable, w, l) (receive_loop_exact (to_size_t word) first rounds b e)
