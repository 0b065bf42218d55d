-- ===== src/Transport/Tcp/Frames.antt =====
-- src/transport/tcp_transport.cpp: whole messages through the stream.
use emq.Base.{
  ℕ, zero, suc, ◌^◌, ◌≤◌, ◌<◌, ◌≡◌, ◌⊎◌, refl, sym, ap, subst, ◌∙◌, Bool, true, false, ◌||◌, Option,
  none, some, List, [], ◌∷◌, ◌++◌, Bytes, if◌then◌else◌, ltb, ◌==◌, length, take, drop, arith,
  append_assoc, length-append, if-then, if-else, take-append, drop-append, All,
}
use emq.Base.Words.{u32}
use emq.Transport.Tcp.{
  Sender, Receiver, and_then, send, recv_all, read_frame, client_loop, encode_len, decode_len,
  max_frame,
}
use emq.Transport.Tcp.Stream.{Wrote, Wrote-whole, nothing-Wrote, and_then-Wrote, Got, recv_all-Got}
use emq.Transport.Tcp.Sending.{decode_len-encode_len, frame, frames, Sendable, send-Wrote}

module _ {σ : Type 0} (socket : Receiver σ) where
  -- What follows the header, as the program computes it from the header.
  abbrev body : σ → ℕ → Option Bytes × σ
  body s n =
      if (n == 0) || ltb max_frame n
      then (none, (recv_all socket 4 4 s).1)
      else recv_all socket n n (recv_all socket 4 4 s).1

  abbrev by_header : σ → Option Bytes → Option Bytes × σ
  by_header s h = elim h [
    | none ↦ (none, (recv_all socket 4 4 s).1)
    | some b ↦ body s (decode_len b)
  ]

  read_frame-by_header : (s : σ) → read_frame socket s ≡ by_header s (recv_all socket 4 4 s).0
  unfolding read_frame
  read_frame-by_header s = refl

  at_end : (s : σ) → socket.remaining s ≡ [] → (read_frame socket s).0 ≡ none
  at_end s e =
      ap (λ r. r.0)
        (read_frame-by_header s
          ∙ ap (by_header s) (got.short (subst (λ b. length b < 4) (sym e) (omega arith))))
    where
      got : Got socket 4 s (recv_all socket 4 4 s)
      got = recv_all-Got socket 4 4 s (omega arith)

  module _ (s : σ) (m rest : Bytes) (small : length m < 2 ^ 32)
      (there : socket.remaining s ≡ frame m ++ rest) where
    header-Got : Got socket 4 s (recv_all socket 4 4 s)
    header-Got = recv_all-Got socket 4 4 s (omega arith)

    apart : socket.remaining s ≡ encode_len (u32 (length m)) ++ (m ++ rest)
    apart = there ∙ append_assoc (encode_len (u32 (length m))) m rest

    enough : 4 ≤ length (socket.remaining s)
    unfolding encode_len
    enough = subst (λ b. 4 ≤ length b) (sym apart) (omega arith)

    header : (recv_all socket 4 4 s).0 ≡ some (encode_len (u32 (length m)))
    unfolding encode_len
    header = header-Got.bytes enough ∙ ap (λ b. some (take 4 b)) apart

    after_header : socket.remaining (recv_all socket 4 4 s).1 ≡ m ++ rest
    unfolding encode_len
    after_header = header-Got.rest enough ∙ ap (drop 4) apart

    announced : decode_len (encode_len (u32 (length m))) ≡ length m
    announced = decode_len-encode_len (u32 (length m)) (omega arith) ∙ omega (arith, small)

    read_frame-body : read_frame socket s ≡ body s (length m)
    read_frame-body = read_frame-by_header s ∙ ap (by_header s) header ∙ ap (body s) announced

    refused : (length m ≡ 0) ⊎ (max_frame < length m) → (read_frame socket s).0 ≡ none
    refused why =
        ap (λ r. r.0) read_frame-body
        ∙ if-then (λ (r : Option Bytes × σ). r.0 ≡ none) _ _ _ (outside why) refl
      where
        outside :
            (length m ≡ 0) ⊎ (max_frame < length m)
            → (length m == 0) || ltb max_frame (length m) ≡ true
        outside w = ground (arith, w)

    module _ (some_bytes : 0 < length m) (within : length m ≤ max_frame) where
      body-Got :
          Got socket
            (length m)
            (recv_all socket 4 4 s).1
            (recv_all socket (length m) (length m) (recv_all socket 4 4 s).1)
      body-Got = recv_all-Got socket (length m) (length m) _ (omega arith)

      whole_there : length m ≤ length (socket.remaining (recv_all socket 4 4 s).1)
      whole_there =
          subst (λ b. length m ≤ length b) (sym after_header) (omega (arith, length-append m rest))

      taken : read_frame socket s ≡ recv_all socket (length m) (length m) (recv_all socket 4 4 s).1
      taken = read_frame-body ∙ if-else _ _ _ inside
        where
          inside : (length m == 0) || ltb max_frame (length m) ≡ false
          inside = ground (arith, some_bytes, within)

      arrived : (read_frame socket s).0 ≡ some m
      arrived =
          ap (λ r. r.0) taken
          ∙ body-Got.bytes whole_there
          ∙ ap (λ b. some (take (length m) b)) after_header
          ∙ ap some (take-append m rest)

      behind_it : socket.remaining (read_frame socket s).1 ≡ rest
      behind_it =
          ap (λ r. socket.remaining r.1) taken
          ∙ body-Got.rest whole_there
          ∙ ap (drop (length m)) after_header
          ∙ drop-append m rest

  abbrev by_message : Option Bytes → σ → List Bytes × σ → List Bytes × σ
  by_message message s rest = elim message [ none ↦ ([], s) | some m ↦ (m ∷ rest.0, rest.1) ]

  client_loop-by_message :
      (fuel : ℕ) (s : σ)
      → client_loop socket (suc fuel) s
        ≡ by_message
            (read_frame socket s).0
            (read_frame socket s).1
            (client_loop socket fuel (read_frame socket s).1)
  unfolding client_loop
  client_loop-by_message fuel s = refl

  abbrev next : σ → σ
  next s = (read_frame socket s).1

  -- However the stream is cut into reads, a loop of more rounds than messages delivers exactly the
  -- messages whose frames the stream consists of, if none is empty or above 10 MiB.
  pub client_loop-frames :
      (ms : List Bytes) (fuel : ℕ) (s : σ)
      → All Sendable ms
      → length ms < fuel
      → socket.remaining s ≡ frames ms
      → (client_loop socket fuel s).0 ≡ ms
  client_loop-frames ms zero s ok h e = absurd (omega arith)
  client_loop-frames [] (suc fuel) s ok h e =
      ap (λ r. r.0)
        (client_loop-by_message fuel s
          ∙ ap (λ o. by_message o (next s) (client_loop socket fuel (next s))) (at_end s e))
  client_loop-frames (m ∷ ms) (suc fuel) s ok h e =
      ap (λ r. r.0)
        (client_loop-by_message fuel s
          ∙ ap (λ o. by_message o (next s) (client_loop socket fuel (next s)))
              (arrived s m (frames ms) (omega (arith, ok.0)) e ok.0.0 ok.0.1))
      ∙ ap (λ l. m ∷ l)
          (client_loop-frames ms fuel (next s) ok.1 (omega arith)
            (behind_it s m (frames ms) (omega (arith, ok.0)) e ok.0.0 ok.0.1))

  -- A frame of no bytes, or of more than 10 MiB, ends the loop: neither it nor what stands behind
  -- it is delivered.
  pub client_loop-refused :
      (m rest : Bytes) (fuel : ℕ) (s : σ)
      → length m < 2 ^ 32
      → (length m ≡ 0) ⊎ (max_frame < length m)
      → socket.remaining s ≡ frame m ++ rest
      → (client_loop socket (suc fuel) s).0 ≡ []
  client_loop-refused m rest fuel s small why e =
      ap (λ r. r.0)
        (client_loop-by_message fuel s
          ∙ ap (λ o. by_message o (next s) (client_loop socket fuel (next s)))
              (refused s m rest small e why))

module _ {σ τ : Type 0} (out : Sender σ) (into : Receiver τ) where
  -- `send` for one message after the other, as long as they succeed.
  unfoldable pub send_each : List Bytes → σ → Option (Bool × σ)
  send_each [] s = some (true, s)
  send_each (m ∷ ms) s = and_then out (send out m s) (λ t. send_each ms t)

  send_each-Wrote : (ms : List Bytes) (s : σ) → Wrote out (frames ms) s (send_each ms s)
  unfolding send_each
  send_each-Wrote [] s = nothing-Wrote out s
  send_each-Wrote (m ∷ ms) s =
      and_then-Wrote out (frame m) (frames ms) s (λ t. send_each ms t) _ (send-Wrote out m s)
        (λ t. send_each-Wrote ms t)

  -- Messages of one byte to 10 MiB, sent one after the other with success over a connection that
  -- carried nothing before, are what the loop at the other end delivers when it reads the bytes
  -- of the wire, however both sockets cut the stream and with any number of rounds above theirs.
  pub sent_delivered :
      (ms : List Bytes) (fuel : ℕ) (s final : σ) (t : τ)
      → All Sendable ms
      → length ms < fuel
      → out.wire s ≡ []
      → send_each ms s ≡ some (true, final)
      → into.remaining t ≡ out.wire final
      → (client_loop into fuel t).0 ≡ ms
  sent_delivered ms fuel s final t ok h fresh good link = client_loop-frames into ms fuel t ok h (
      link
      ∙ Wrote-whole out (frames ms) s (send_each ms s) final (send_each-Wrote ms s) good
      ∙ ap (λ b. b ++ frames ms) fresh)
