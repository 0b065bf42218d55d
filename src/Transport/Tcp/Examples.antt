-- ===== src/Transport/Tcp/Examples.antt =====
-- The theorems on the stream at sockets that take three bytes and give two at a time.
use emq.Base.{
  ◌≡◌, refl, sym, List, [], ◌∷◌, ◌++◌, Bytes, arith, inl, min, length, take, drop, length-take,
  take-append-drop, nat_eq, bytes_key,
}
use emq.Transport.Tcp.{Sender, Receiver, send, send_all, and_then, client_loop, encode_len}
use emq.Transport.Tcp.Stream.{Wrote}
use emq.Transport.Tcp.Frames.{send_each, sent_delivered, client_loop-refused}
use emq.Transport.Tcp.Sending.{frame, frames, send-Wrote}

abbrev three_out : Sender Bytes
three_out = record {
  send_some = λ b s. (min 3 (length b), s ++ take (min 3 (length b)) b);
  wire = λ s. s;
  at_most = λ b s. omega arith;
  written = λ b s. refl;
}

abbrev two_in : Receiver Bytes
two_in = record {
  recv_some = λ n s. (take (min n 2) s, drop (min n 2) s);
  remaining = λ s. s;
  at_most = λ n s. omega (arith, length-take (min n 2) s);
  some_come = λ n s p q. omega (arith, length-take (min n 2) s);
  cut = λ n s. sym (take-append-drop (min n 2) s);
}

abbrev messages : List Bytes
messages = (5 ∷ 6 ∷ 7 ∷ 8 ∷ []) ∷ (9 ∷ []) ∷ []

send-Wrote_example :
    Wrote three_out (frame (5 ∷ 6 ∷ 7 ∷ 8 ∷ [])) [] (send three_out (5 ∷ 6 ∷ 7 ∷ 8 ∷ []) [])
send-Wrote_example = send-Wrote three_out (5 ∷ 6 ∷ 7 ∷ 8 ∷ []) []

sent_delivered_example : (client_loop two_in 5 (frames messages)).0 ≡ messages
unfolding send_each send send_all and_then encode_len
sent_delivered_example =
    sent_delivered three_out two_in messages 5 [] (frames messages) (frames messages)
      ((omega arith, omega arith), ((omega arith, omega arith), tt)) (omega arith) refl refl refl

client_loop-refused_example : (client_loop two_in 3 (frame [] ++ frame (9 ∷ []))).0 ≡ []
client_loop-refused_example =
    client_loop-refused two_in [] (frame (9 ∷ [])) 2 (frame [] ++ frame (9 ∷ [])) (omega arith)
      (inl refl) refl
