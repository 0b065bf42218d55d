-- ===== src/Transport/Tcp.antt =====
-- src/transport/tcp_transport.cpp: messages as frames on a stream of bytes, a length of four bytes
-- before each, and the table of connections. The stream is the socket's, an interface: a write
-- takes some of the bytes, a read gives some of those that wait. The methods that open sockets,
-- and the threads, are not modelled. Messages are below 2 GiB, the largest `int`.
pub mod Stream
pub mod Sending
pub mod Frames
mod Examples
use emq.Base.{
  ℕ, zero, suc, ◌+◌, ◌-◌, ◌*◌, ◌≤◌, ◌<◌, ◌≡◌, bit_or, Bool, true, false, ◌||◌, Option, none, some,
  List, [], ◌∷◌, ◌++◌, Bytes, if◌then◌else◌, ltb, ◌==◌, length, take, drop, nat_eq, bytes_key,
}
use emq.Base.Assoc.{lookup, insert, erase}
use emq.Base.Words.{u8, u32, ◌<<<◌, ◌>>>◌}

-- `SocketApi::send` on a connected socket: how many bytes it took, none on an error, and the bytes
-- on the wire so far.
pub record Sender (σ : Type 0) : Type 0 where
  pub send_some : Bytes → σ → ℕ × σ
  pub wire : σ → Bytes
  pub at_most : (b : Bytes) (s : σ) → (send_some b s).0 ≤ length b
  pub written : (b : Bytes) (s : σ) → wire (send_some b s).1 ≡ wire s ++ take (send_some b s).0 b

-- `SocketApi::recv`: it gives up to as many bytes as are asked for, at least one while some are to
-- come, and none at the end.
pub record Receiver (σ : Type 0) : Type 0 where
  pub recv_some : ℕ → σ → Bytes × σ
  pub remaining : σ → Bytes
  pub at_most : (n : ℕ) (s : σ) → length (recv_some n s).0 ≤ n
  pub some_come : (n : ℕ) (s : σ) → 0 < n → 0 < length (remaining s) → 0 < length (recv_some n s).0
  pub cut : (n : ℕ) (s : σ) → remaining s ≡ (recv_some n s).0 ++ remaining (recv_some n s).1

unfoldable pub encode_len : ℕ → Bytes
encode_len len = u8 (len >>> 24) ∷ u8 (len >>> 16) ∷ u8 (len >>> 8) ∷ u8 len ∷ []

-- `msgLen` from the four bytes of the buffer.
unfoldable pub decode_len : Bytes → ℕ
decode_len (a ∷ b ∷ c ∷ d ∷ rest) = bit_or (bit_or (bit_or (a <<< 24) (b <<< 16)) (c <<< 8)) d
decode_len short = 0

abbrev pub max_frame : ℕ
max_frame = 10 * 1024 * 1024

module _ {σ : Type 0} (socket : Sender σ) where
  -- Whether all went out, and the socket; `none` when the rounds are used up.
  unfoldable pub send_all : ℕ → Bytes → σ → Option (Bool × σ)
  send_all fuel [] s = some (true, s)
  send_all zero (b ∷ bs) s = none
  send_all (suc fuel) (b ∷ bs) s =
      let (n, s') = socket.send_some (b ∷ bs) s in
      let rest = send_all fuel (drop n (b ∷ bs)) s' in if n == 0 then some (false, s') else rest

  -- As many rounds as bytes.
  abbrev pub send_bytes : Bytes → σ → Option (Bool × σ)
  send_bytes b s = send_all (length b) b s

  -- The next write, if the last one succeeded.
  unfoldable pub and_then : Option (Bool × σ) → (σ → Option (Bool × σ)) → Option (Bool × σ)
  and_then none next = none
  and_then (some (true, s)) next = next s
  and_then (some (false, s)) next = some (false, s)

  -- `TcpTransport::send` on the connection.
  unfoldable pub send : Bytes → σ → Option (Bool × σ)
  unfolding send_all and_then encode_len
  send b s = and_then (send_bytes (encode_len (u32 (length b))) s) (λ s'. send_bytes b s')

  -- The loop of `sendv`, which passes over empty slices.
  unfoldable pub send_slices : List Bytes → σ → Option (Bool × σ)
  unfolding send_all and_then
  send_slices [] s = some (true, s)
  send_slices (b ∷ bs) s =
      if length b == 0
      then send_slices bs s
      else and_then (send_bytes b s) (λ s'. send_slices bs s')

unfoldable pub total_length : List Bytes → ℕ
total_length [] = 0
total_length (b ∷ bs) = length b + total_length bs

module _ {σ : Type 0} (socket : Sender σ) where
  unfoldable pub sendv : List Bytes → σ → Option (Bool × σ)
  unfolding send_all and_then encode_len send_slices total_length
  sendv slices s =
      and_then socket (send_bytes socket (encode_len (u32 (total_length slices))) s)
        (λ s'. send_slices socket slices s')

module _ {σ : Type 0} (socket : Receiver σ) where
  -- The bytes, once all came, and the socket.
  unfoldable pub recv_all : ℕ → ℕ → σ → Option Bytes × σ
  recv_all fuel zero s = (some [], s)
  recv_all zero (suc n) s = (none, s)
  recv_all (suc fuel) (suc n) s =
      let (b, s') = socket.recv_some (suc n) s in
      let (rest, s'') = recv_all fuel (suc n - length b) s' in
      if length b == 0
      then (none, s')
      else (elim rest [ none ↦ none | some r ↦ some (b ++ r) ], s'')

  -- One round of `clientLoop`: the message to deliver, or none when the loop ends.
  unfoldable pub read_frame : σ → Option Bytes × σ
  unfolding recv_all decode_len
  read_frame s =
      let (header, s') = recv_all 4 4 s in
      elim header [
        | none ↦ (none, s')
        | some h ↦
            if (decode_len h == 0) || ltb max_frame (decode_len h)
            then (none, s')
            else recv_all (decode_len h) (decode_len h) s'
      ]

  -- The messages that `clientLoop` delivers; a round takes bytes from the stream.
  unfoldable pub client_loop : ℕ → σ → List Bytes × σ
  unfolding read_frame
  client_loop zero s = ([], s)
  client_loop (suc fuel) s =
      let (message, s') = read_frame s in
      let (rest, s'') = client_loop fuel s' in
      elim message [ none ↦ ([], s') | some m ↦ (m ∷ rest, s'') ]

-- The connections by `address:port`, and what is done to sockets.
abbrev pub Connections : Type 0
Connections = List (Bytes × ℕ)

-- `closeOwnedConnection`: the sockets that it closes, and the table.
unfoldable pub close_owned_connection : Bytes → ℕ → Connections → List ℕ × Connections
close_owned_connection key fd m = elim (lookup key m) [
  | none ↦ ([], m)
  | some owner ↦ if owner == fd then (fd ∷ [], erase key m) else ([], m)
]

unfoldable pub all_sockets : Connections → List ℕ
all_sockets [] = []
all_sockets ((key, fd) ∷ m) = fd ∷ all_sockets m

-- The part of `shutdown` that holds the table.
unfoldable pub close_connections : Connections → List ℕ × Connections
unfolding all_sockets
close_connections m = (all_sockets m, [])

-- `getOrConnect`; `connected` is the socket that connecting gives, if it succeeds. The socket, and
-- whether a thread is to read from it.
unfoldable pub get_or_connect : Option ℕ → Bytes → Connections → Option ℕ × Bool × Connections
get_or_connect connected key m = elim (lookup key m) [
  | some fd ↦ (some fd, false, m)
  | none ↦ elim connected [ none ↦ (none, false, m) | some fd ↦ (some fd, true, insert key fd m) ]
]

-- `acceptLoop` enters the connection that it accepted.
unfoldable pub accept : Bytes → ℕ → Connections → Connections
accept key fd m = insert key fd m
