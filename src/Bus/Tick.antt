-- ===== src/Bus/Tick.antt =====
-- src/core/message_bus.cpp: the task that `start` has run every 200 ms, `expireReplyCache`, and
-- `stop`.
use emq.Base.{ℕ, ◌+◌, ◌-◌, ◌*◌, true, false, ◌&&◌, List, [], ◌∷◌, if◌then◌else◌, leb, map}
use emq.Qos.{process_timeouts, cleanup_dedup_window}
use emq.Retained.{expire}
use emq.Bus.State.{
  PendingRequest, CachedReply, Clock, Effect, Action, Outcome, ◌>>◌, each, resend_all,
}
use emq.Bus.Request.{dispatch_request}

abbrev pub reply_cache_ttl_ns : ℕ
reply_cache_ttl_ns = 30 * 1000000000

unfoldable pub fresh_replies : ℕ → List (ℕ × CachedReply) → List (ℕ × CachedReply)
fresh_replies now [] = []
fresh_replies now ((key, c) ∷ m) =
    let rest = fresh_replies now m in
    if leb reply_cache_ttl_ns (now - c.cached_at) then rest else (key, c) ∷ rest

unfoldable pub expire_reply_cache : ℕ → Action
unfolding fresh_replies
expire_reply_cache now b = (record b { reply_cache = fresh_replies now b.reply_cache }, [])

-- The scan of the requests: those that stay, the promises that expired, and the requests to send
-- again.
unfoldable pub scan :
    ℕ → List (ℕ × PendingRequest) → List (ℕ × PendingRequest) × List ℕ × List PendingRequest
scan now [] = ([], [], [])
scan now ((k, pr) ∷ m) =
    let (rest, expired, retries) = scan now m in
    if leb pr.deadline now
    then (rest, pr.promise ∷ expired, retries)
    else if pr.remote && leb pr.next_retry now
    then (
      (k, record pr { next_retry = now + pr.retry_interval * 1000000 }) ∷ rest,
      expired,
      pr ∷ retries,
    )
    else ((k, pr) ∷ rest, expired, retries)

unfoldable pub check_requests : Clock → Action
unfolding scan
check_requests clock b =
    let (rest, expired, retries) = scan clock.steady b.pending_requests in
    (each (λ (pr : PendingRequest). dispatch_request clock pr.service pr.payload pr.qos pr.corr_id)
          retries
        >> (λ b'. (b', map (λ p. Effect.settle p Outcome.timed_out) expired)))
      (record b { pending_requests = rest })

unfoldable pub retransmit : ℕ → Action
retransmit now b =
    let (q, abandoned, sends) = process_timeouts now b.qos_engine in
    resend_all sends (record b { qos_engine = q })

unfoldable pub clean_windows : ℕ → Action
clean_windows now b = (record b { qos_engine = cleanup_dedup_window now b.qos_engine }, [])

unfoldable pub expire_retained : ℕ → Action
expire_retained now b = (record b { retained_store = (expire now b.retained_store).1 }, [])

-- What the task does before it looks at the requests.
abbrev pub housekeeping : ℕ → Action
housekeeping now =
    retransmit now >> clean_windows now >> expire_retained now >> expire_reply_cache now

unfoldable pub tick : Clock → Action
unfolding check_requests retransmit clean_windows expire_retained expire_reply_cache
tick clock = housekeeping clock.steady >> check_requests clock

-- What the bus keeps of `start`; the timer runs `tick` from then on.
unfoldable start : Action
start b = (record b { running = true }, [])

unfoldable pub stop : Action
stop b =
    if b.running
    then (
      record b { running = false; pending_requests = [] },
      map (λ (e : ℕ × PendingRequest). Effect.settle e.1.promise Outcome.bus_stopped)
          b.pending_requests,
    )
    else (b, [])
