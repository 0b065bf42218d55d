-- ===== src/Bus/Deadlines.antt =====
-- What the periodic task and `stop` do to the requests that wait.
use emq.Base.{
  keep_if, leb, ltb, false, ◌&&◌, ℕ, ◌≡◌, refl, ◌∙◌, ap, true, List, [], ◌∷◌, ◌++◌, Bytes, ◌==◌,
  length, map, arith, inl, inr, Bool-cases,
}
use emq.Types.{QosProfile, Endpoint}
use emq.Bus.State.{
  MessageBus, PendingRequest, Clock, Action, Effect, Outcome, ◌>>◌, bump, each, transmit,
  resend_all,
}
use emq.Bus.Request.{providers, dispatch_request}
use emq.Bus.Tick.{
  scan, retransmit, clean_windows, expire_retained, expire_reply_cache, housekeeping,
  check_requests, tick, stop,
}
use emq.Qos.{process_timeouts}

-- The promises among effects, with what they end with.
unfoldable pub settlements : List Effect → List (ℕ × Outcome)
settlements [] = []
settlements (Effect.settle p outcome ∷ es) = (p, outcome) ∷ settlements es
settlements (_ ∷ es) = settlements es

settlements-append :
    (es fs : List Effect) → settlements (es ++ fs) ≡ settlements es ++ settlements fs
unfolding settlements
settlements-append [] fs = refl
settlements-append (Effect.settle p outcome ∷ es) fs =
    ap (λ l. (p, outcome) ∷ l) (settlements-append es fs)
settlements-append (Effect.send to bytes ∷ es) fs = settlements-append es fs
settlements-append (Effect.send_slices to slices ∷ es) fs = settlements-append es fs
settlements-append (Effect.deliver id msg ∷ es) fs = settlements-append es fs
settlements-append (Effect.handle id msg ∷ es) fs = settlements-append es fs
settlements-append (Effect.topics_changed ∷ es) fs = settlements-append es fs

-- A method that leaves the requests alone.
record Aside (f : Action) : Type 0 where
  stays :
      (b : MessageBus)
      → ((f b).0.pending_requests ≡ b.pending_requests) × (settlements (f b).1 ≡ [])

>>-Aside : (f g : Action) → Aside f → Aside g → Aside (f >> g)
>>-Aside f g p q = record {
  stays = λ b. (
    (q.stays (f b).0).0 ∙ (p.stays b).0,
    settlements-append (f b).1 (g (f b).0).1 ∙ rw ((p.stays b).1, (q.stays (f b).0).1) refl,
  );
}

each-Aside :
    {A : Type 0} (f : A → Action) (xs : List A) → ((x : A) → Aside (f x)) → Aside (each f xs)
unfolding each settlements
each-Aside f [] p = record { stays = λ b. (refl, refl) }
each-Aside f (x ∷ xs) p = >>-Aside (f x) (each f xs) (p x) (each-Aside f xs p)

transmit-Aside : (to : Endpoint) (bytes : Bytes) → Aside (transmit to bytes)
unfolding transmit settlements
transmit-Aside to bytes = record { stays = λ b. ground arith }

resend_all-Aside : (sends : List (Endpoint × Bytes)) → Aside (resend_all sends)
unfolding resend_all
resend_all-Aside sends = each-Aside _ sends (λ s. transmit-Aside s.0 s.1)

dispatch_request-Aside :
    (clock : Clock) (service payload : Bytes) (qos : QosProfile) (corr : ℕ)
    → Aside (dispatch_request clock service payload qos corr)
unfolding dispatch_request settlements
dispatch_request-Aside clock service payload qos corr = record {
  stays = λ b. elim (Bool-cases (length (providers service b) == 0)) [
    | inl e ↦ rw e (refl, refl)
    | inr e ↦ rw e ((each-Aside _ (providers service b) (λ ep. transmit-Aside ep _)).stays (bump b))
  ];
}

-- The requests that a time has overtaken, and the others.
abbrev pub overdue : ℕ → List (ℕ × PendingRequest) → List (ℕ × PendingRequest)
overdue now m = keep_if (λ e. leb e.1.deadline now) m

abbrev pub still_waiting : ℕ → List (ℕ × PendingRequest) → List (ℕ × PendingRequest)
still_waiting now m = keep_if (λ e. ltb now e.1.deadline) m

abbrev pub timed_out_of : List (ℕ × PendingRequest) → List (ℕ × Outcome)
timed_out_of m = map (λ e. (e.1.promise, Outcome.timed_out)) m

-- Requests but for the times of their next repetition.
abbrev pub untimed : List (ℕ × PendingRequest) → List (ℕ × PendingRequest)
untimed m = map (λ e. (e.0, record e.1 { next_retry = 0 })) m

scan-overdue :
    (now : ℕ) (m : List (ℕ × PendingRequest))
    → map (λ p. (p, Outcome.timed_out)) (scan now m).1 ≡ timed_out_of (overdue now m)
unfolding scan
scan-overdue now [] = refl
scan-overdue now ((k, pr) ∷ m) = elim (Bool-cases (leb pr.deadline now)) [
  | inl e ↦ rw e (ap (λ l. (pr.promise, Outcome.timed_out) ∷ l) (scan-overdue now m))
  | inr e ↦ elim (Bool-cases (pr.remote && leb pr.next_retry now)) [
    | inl r ↦ rw (e, r) (scan-overdue now m)
    | inr r ↦ rw (e, r) (scan-overdue now m)
  ]
]

scan-waiting :
    (now : ℕ) (m : List (ℕ × PendingRequest))
    → untimed (scan now m).0 ≡ untimed (still_waiting now m)
unfolding scan
scan-waiting now [] = refl
scan-waiting now ((k, pr) ∷ m) =
    let kept = ap (λ l. (k, record pr { next_retry = 0 }) ∷ l) (scan-waiting now m) in
    elim (Bool-cases (leb pr.deadline now)) [
      | inl e ↦ rw (e, late e) (scan-waiting now m)
      | inr e ↦ elim (Bool-cases (pr.remote && leb pr.next_retry now)) [
        | inl r ↦ rw (e, early e, r) kept
        | inr r ↦ rw (e, early e, r) kept
      ]
    ]
  where
    late : leb pr.deadline now ≡ true → ltb now pr.deadline ≡ false
    late e = ground arith

    early : leb pr.deadline now ≡ false → ltb now pr.deadline ≡ true
    early e = ground arith

settlements-map :
    {A : Type 0} (promise : A → ℕ) (outcome : Outcome) (xs : List A)
    → settlements (map (λ x. Effect.settle (promise x) outcome) xs)
      ≡ map (λ x. (promise x, outcome)) xs
unfolding settlements
settlements-map promise outcome [] = refl
settlements-map promise outcome (x ∷ xs) =
    ap (λ l. (promise x, outcome) ∷ l) (settlements-map promise outcome xs)

-- What one run of the scan and its effects promise for the requests of a bus.
abbrev pub Checked : ℕ → List (ℕ × PendingRequest) → MessageBus × List Effect → Type 0
Checked now before x =
    (settlements x.1 ≡ timed_out_of (overdue now before))
    × (untimed x.0.pending_requests ≡ untimed (still_waiting now before))

check_requests-Checked :
    (clock : Clock) (b : MessageBus)
    → Checked clock.steady b.pending_requests (check_requests clock b)
unfolding check_requests
check_requests-Checked clock b =
    let sent =
      (each-Aside
          (λ (pr : PendingRequest). dispatch_request clock pr.service pr.payload pr.qos pr.corr_id)
          (scan clock.steady b.pending_requests).2
          (λ pr. dispatch_request-Aside clock pr.service pr.payload pr.qos pr.corr_id)).stays
        (record b { pending_requests = (scan clock.steady b.pending_requests).0 }) in
    (
      settlements-append
            (each
              (λ (pr : PendingRequest).
                dispatch_request clock pr.service pr.payload pr.qos pr.corr_id)
              (scan clock.steady b.pending_requests).2
              (record b { pending_requests = (scan clock.steady b.pending_requests).0 })).1
            (map (λ p. Effect.settle p Outcome.timed_out) (scan clock.steady b.pending_requests).1)
          ∙ ap
              (λ l.
                l
                ++ settlements (
                    map (λ p. Effect.settle p Outcome.timed_out)
                      (scan clock.steady b.pending_requests).1))
              sent.1
          ∙ settlements-map (λ p. p) Outcome.timed_out (scan clock.steady b.pending_requests).1
          ∙ scan-overdue clock.steady b.pending_requests,
      ap untimed sent.0 ∙ scan-waiting clock.steady b.pending_requests,
    )

housekeeping-Aside : (now : ℕ) → Aside (housekeeping now)
unfolding retransmit clean_windows expire_retained expire_reply_cache settlements
housekeeping-Aside now =
    >>-Aside (retransmit now) _
      (record {
        stays = λ b.
            (resend_all-Aside (process_timeouts now b.qos_engine).2).stays
              (record b { qos_engine = (process_timeouts now b.qos_engine).0 });
      })
      (>>-Aside (clean_windows now) _ (record { stays = λ b. (refl, refl) })
        (>>-Aside (expire_retained now) (expire_reply_cache now)
          (record { stays = λ b. (refl, refl) }) (record { stays = λ b. (refl, refl) })))

-- The periodic task ends the futures of exactly the requests whose deadlines have come, each with
-- a timeout and in the order of the table, and no other future; and exactly the other requests wait
-- after it, unchanged but for the times at which they are to be repeated.
pub tick-requests :
    (clock : Clock) (b : MessageBus)
    → (settlements (tick clock b).1 ≡ timed_out_of (overdue clock.steady b.pending_requests))
      × (untimed (tick clock b).0.pending_requests
          ≡ untimed (still_waiting clock.steady b.pending_requests))
unfolding tick
tick-requests clock b =
    let before = (housekeeping-Aside clock.steady).stays b in
    let after = check_requests-Checked clock (housekeeping clock.steady b).0 in
    (
      settlements-append (housekeeping clock.steady b).1
            (check_requests clock (housekeeping clock.steady b).0).1
          ∙ ap (λ l. l ++ settlements (check_requests clock (housekeeping clock.steady b).0).1)
              before.1
          ∙ after.0
          ∙ ap (λ m. timed_out_of (overdue clock.steady m)) before.0,
      after.1 ∙ ap (λ m. untimed (still_waiting clock.steady m)) before.0,
    )

-- A bus that runs ends the future of each waiting request when it stops, in their order, and no request waits
-- then; stopping it again does nothing.
pub stop-requests :
    (b : MessageBus)
    → b.running ≡ true
    → (settlements (stop b).1 ≡ map (λ e. (e.1.promise, Outcome.bus_stopped)) b.pending_requests)
      × ((stop b).0.pending_requests ≡ [])
      × (stop (stop b).0 ≡ ((stop b).0, []))
unfolding stop
stop-requests b h =
    rw (h, stop)
      (
        settlements-map (λ (e : ℕ × PendingRequest). e.1.promise) Outcome.bus_stopped
            b.pending_requests,
        refl,
        refl,
      )
