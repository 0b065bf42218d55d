-- ===== src/Transport/Tcp/Stream.antt =====
-- src/transport/tcp_transport.cpp: the loops of `sendAll` and `recvAll` come to an end, and move the
-- bytes that they are to move, however the socket cuts the stream.
use emq.Base.{
  ℕ, zero, suc, ◌+◌, ◌-◌, ◌≤◌, ◌<◌, ◌≡◌, refl, sym, ap, subst, ◌∙◌, Bool, true, false, Option, none,
  some, [], ◌∷◌, ◌++◌, Bytes, ◌==◌, length, take, drop, arith, inl, inr, Bool-cases, append-nil,
  append_assoc, take-append-drop, length-drop, length-append,
}
use emq.Transport.Tcp.{Sender, Receiver, send_all, recv_all, and_then}

take-append_long :
    (b r : Bytes) (k : ℕ) → length b ≤ k → take k (b ++ r) ≡ b ++ take (k - length b) r
take-append_long [] r k h = ap (λ j. take j r) (omega arith)
take-append_long (x ∷ b) r zero h = absurd (omega arith)
take-append_long (x ∷ b) r (suc k) h =
    ap (λ l. x ∷ l) (take-append_long b r k (omega arith) ∙ ap (λ j. b ++ take j r) (omega arith))

drop-append_long : (b r : Bytes) (k : ℕ) → length b ≤ k → drop k (b ++ r) ≡ drop (k - length b) r
drop-append_long [] r k h = ap (λ j. drop j r) (omega arith)
drop-append_long (x ∷ b) r zero h = absurd (omega arith)
drop-append_long (x ∷ b) r (suc k) h =
    drop-append_long b r k (omega arith) ∙ ap (λ j. drop j r) (omega arith)

module _ {σ : Type 0} (socket : Sender σ) where
  -- The writes have come to an end: what is on the wire behind the earlier bytes is a front of the
  -- bytes, and all of them on success.
  pub record Wrote (b : Bytes) (s : σ) (o : Option (Bool × σ)) : Type 0 where
    pub ok : Bool
    pub final : σ
    pub returned : o ≡ some (ok, final)
    pub sent : Bytes
    pub unsent : Bytes
    pub splits : sent ++ unsent ≡ b
    pub part : socket.wire final ≡ socket.wire s ++ sent
    pub whole : ok ≡ true → unsent ≡ []

  pub nothing-Wrote : (s : σ) → Wrote [] s (some (true, s))
  nothing-Wrote s = record {
    ok = true;
    final = s;
    returned = refl;
    sent = [];
    unsent = [];
    splits = refl;
    part = sym (append-nil _);
    whole = λ e. refl;
  }

  module _ (b : Bytes) (s : σ) where
    abbrev n : ℕ
    n = (socket.send_some b s).0

    abbrev left : σ
    left = (socket.send_some b s).1

    -- A write that failed, and a write followed by the rest of the loop.
    failed-Wrote : Wrote b s (some (false, left))
    failed-Wrote = record {
      ok = false;
      final = left;
      returned = refl;
      sent = take n b;
      unsent = drop n b;
      splits = take-append-drop n b;
      part = socket.written b s;
      whole = λ h. cc;
    }

    onward-Wrote : (o : Option (Bool × σ)) → Wrote (drop n b) left o → Wrote b s o
    onward-Wrote o w = record {
      ok = w.ok;
      final = w.final;
      returned = w.returned;
      sent = take n b ++ w.sent;
      unsent = w.unsent;
      splits =
          append_assoc (take n b) w.sent w.unsent
          ∙ ap (λ t. take n b ++ t) w.splits
          ∙ take-append-drop n b;
      part =
          w.part
          ∙ ap (λ t. t ++ w.sent) (socket.written b s)
          ∙ append_assoc (socket.wire s) (take n b) w.sent;
      whole = w.whole;
    }

  pub send_all-Wrote :
      (fuel : ℕ) (b : Bytes) (s : σ) → length b ≤ fuel → Wrote b s (send_all socket fuel b s)
  unfolding send_all
  send_all-Wrote fuel [] s h = nothing-Wrote s
  send_all-Wrote zero (b ∷ bs) s h = absurd (omega arith)
  send_all-Wrote (suc fuel) (b ∷ bs) s h = elim (Bool-cases (n (b ∷ bs) s == 0)) [
    | inl refused ↦ rw refused (failed-Wrote (b ∷ bs) s)
    | inr took ↦ rw took (
        onward-Wrote (b ∷ bs) s _ (
          send_all-Wrote fuel (drop (n (b ∷ bs) s) (b ∷ bs)) _
            (ground (arith, took, length-drop (n (b ∷ bs) s) (b ∷ bs)))))
  ]

  module _ (b c : Bytes) (s : σ) (next : σ → Option (Bool × σ)) where
    -- After a success, and after a failure.
    next-Wrote :
        (final : σ)
        → socket.wire final ≡ socket.wire s ++ b
        → Wrote c final (next final)
        → Wrote (b ++ c) s (next final)
    next-Wrote final whole w = record {
      ok = w.ok;
      final = w.final;
      returned = w.returned;
      sent = b ++ w.sent;
      unsent = w.unsent;
      splits = append_assoc b w.sent w.unsent ∙ ap (λ t. b ++ t) w.splits;
      part = w.part ∙ ap (λ t. t ++ w.sent) whole ∙ append_assoc (socket.wire s) b w.sent;
      whole = w.whole;
    }

    stop-Wrote :
        (o : Option (Bool × σ)) (w : Wrote b s o) → Wrote (b ++ c) s (some (false, w.final))
    stop-Wrote o w = record {
      ok = false;
      final = w.final;
      returned = refl;
      sent = w.sent;
      unsent = w.unsent ++ c;
      splits = sym (append_assoc w.sent w.unsent c) ∙ ap (λ t. t ++ c) w.splits;
      part = w.part;
      whole = λ h. cc;
    }

    pub and_then-Wrote :
        (o : Option (Bool × σ))
        → Wrote b s o
        → ((t : σ) → Wrote c t (next t))
        → Wrote (b ++ c) s (and_then socket o next)
    unfolding and_then
    and_then-Wrote o w f = elim (Bool-cases w.ok) [
      | inl good ↦
          subst (λ r. Wrote (b ++ c) s (and_then socket r next))
            (sym (w.returned ∙ ap (λ k. some (k, w.final)) good))
            (next-Wrote w.final
              (w.part
                ∙ ap (λ t. socket.wire s ++ t)
                    (sym (append-nil w.sent)
                      ∙ ap (λ t. w.sent ++ t) (sym (w.whole good))
                      ∙ w.splits))
              (f w.final))
      | inr bad ↦
          subst (λ r. Wrote (b ++ c) s (and_then socket r next))
            (sym (w.returned ∙ ap (λ k. some (k, w.final)) bad)) (stop-Wrote o w)
    ]

  -- After a success all bytes are on the wire.
  pub Wrote-whole :
      (b : Bytes) (s : σ) (o : Option (Bool × σ)) (final : σ)
      → Wrote b s o
      → o ≡ some (true, final)
      → socket.wire final ≡ socket.wire s ++ b
  Wrote-whole b s o final w e =
      ap socket.wire (sym same)
      ∙ w.part
      ∙ ap (λ t. socket.wire s ++ t)
          (sym (append-nil w.sent) ∙ ap (λ t. w.sent ++ t) (sym (w.whole good)) ∙ w.splits)
    where
      good : w.ok ≡ true
      good =
          ap (λ (r : Option (Bool × σ)). elim r [ none ↦ w.ok | some p ↦ p.0 ]) (sym w.returned ∙ e)

      same : w.final ≡ final
      same =
          ap (λ (r : Option (Bool × σ)). elim r [ none ↦ w.final | some p ↦ p.1 ])
            (sym w.returned ∙ e)

module _ {σ : Type 0} (socket : Receiver σ) where
  pub record Got (n : ℕ) (s : σ) (o : Option Bytes × σ) : Type 0 where
    pub bytes : n ≤ length (socket.remaining s) → o.0 ≡ some (take n (socket.remaining s))
    pub rest : n ≤ length (socket.remaining s) → socket.remaining o.1 ≡ drop n (socket.remaining s)
    pub short : length (socket.remaining s) < n → o.0 ≡ none

  -- What was read, and what the rest of the loop read behind it.
  abbrev behind : Bytes → Option Bytes × σ → Option Bytes × σ
  behind b o = (elim o.0 [ none ↦ none | some r ↦ some (b ++ r) ], o.1)

  module _ (n : ℕ) (s : σ) where
    abbrev got : Bytes
    got = (socket.recv_some (suc n) s).0

    abbrev next : σ
    next = (socket.recv_some (suc n) s).1

    ended-Got : length got ≡ 0 → Got (suc n) s (none, next)
    ended-Got e = record {
      bytes = λ enough. absurd (
          omega
            (arith, e, enough, socket.some_come (suc n) s (omega arith) (omega (arith, enough))));
      rest = λ enough. absurd (
          omega
            (arith, e, enough, socket.some_come (suc n) s (omega arith) (omega (arith, enough))));
      short = λ few. refl;
    }

    lengths : length (socket.remaining s) ≡ length got + length (socket.remaining next)
    lengths = ap length (socket.cut (suc n) s) ∙ length-append got (socket.remaining next)

    behind-Got :
        (o : Option Bytes × σ) → Got (suc n - length got) next o → Got (suc n) s (behind got o)
    behind-Got o g = record {
      bytes = λ enough.
          ap (λ r. (behind got (r, o.1)).0)
            (g.bytes (omega (arith, enough, lengths, socket.at_most (suc n) s)))
          ∙ ap some (
              sym (take-append_long got (socket.remaining next) (suc n) (socket.at_most (suc n) s))
              ∙ ap (take (suc n)) (sym (socket.cut (suc n) s)));
      rest = λ enough.
          g.rest (omega (arith, enough, lengths, socket.at_most (suc n) s))
          ∙ sym (drop-append_long got (socket.remaining next) (suc n) (socket.at_most (suc n) s))
          ∙ ap (drop (suc n)) (sym (socket.cut (suc n) s));
      short = λ few.
          ap (λ r. (behind got (r, o.1)).0)
            (g.short (omega (arith, few, lengths, socket.at_most (suc n) s)));
    }

  pub recv_all-Got : (fuel n : ℕ) (s : σ) → n ≤ fuel → Got n s (recv_all socket fuel n s)
  unfolding recv_all
  recv_all-Got fuel zero s h = record {
    bytes = λ e. refl;
    rest = λ e. refl;
    short = λ e. absurd (omega (arith, e));
  }
  recv_all-Got zero (suc n) s h = absurd (omega arith)
  recv_all-Got (suc fuel) (suc n) s h = elim (Bool-cases (length (got n s) == 0)) [
    | inl none_came ↦ rw none_came (ended-Got n s (ground (arith, none_came)))
    | inr some_came ↦ rw some_came (
        behind-Got n s _
          (recv_all-Got fuel (suc n - length (got n s)) (next n s) (ground (arith, some_came, h))))
  ]
