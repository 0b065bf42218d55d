-- ===== src/Bus/Keeps.antt =====
-- What every packet leaves true of the cache of replies and of the windows.
use emq.Base.{
  bytes_key, nat_eq, ℕ, ◌≡◌, sym, subst, Bool, true, false, none, List, [], ◌∷◌, Bytes,
  if◌then◌else◌, ◌==◌, Option-cases, Bool-cases, inl, inr,
}
use emq.Base.Assoc.{lookup, insert}
use emq.Types.{Endpoint, pubcomp, exactly_once}
use emq.Codec.{DecodeResult, WireHeader}
use emq.Qos.{QosEngine, DedupWindow, is_duplicate}
use emq.Bus.State.{MessageBus, CachedReply, Clock, Action, Handlers, ◌>>◌, done, counted, reply_key}
use emq.Bus.Receive.{
  answer, on_request_packet, on_data_packet, deduplicated, on_packet, on_received, decoded,
  service_name,
}
use emq.Bus.Quiet.{
  Quiet, done-Quiet, if-Quiet, send_ctrl-Quiet, send_reply-Quiet, on_ack_packet-Quiet,
  on_nack_packet-Quiet, on_pubrec_packet-Quiet, on_pubcomp_packet-Quiet, acknowledge-Quiet,
  on_publish_packet-Quiet, on_reply_packet-Quiet,
}

-- The bus after packets, each with the clock, the sender and the bytes.
unfoldable pub receive_all : Handlers → List (Clock × Endpoint × Bytes) → MessageBus → MessageBus
receive_all run [] b = b
receive_all run ((clock, from, bytes) ∷ es) b =
    receive_all run es (on_received run clock from bytes b).0

module _ (P : List (ℕ × CachedReply) → List (ℕ × DedupWindow) → Type 0)
    (caches : (key : ℕ) (c : CachedReply) (rs : List (ℕ × CachedReply))
        (ws : List (ℕ × DedupWindow))
      → lookup key rs ≡ none
      → P rs ws
      → P (insert key c rs) ws)
    (checks : (rs : List (ℕ × CachedReply)) (now source seq : ℕ) (q : QosEngine Endpoint)
      → P rs q.windows
      → P rs (is_duplicate now source seq q).1.windows) where
  record Keeps (f : Action) : Type 0 where
    kept :
        (b : MessageBus)
        → P b.reply_cache b.qos_engine.windows
        → P (f b).0.reply_cache (f b).0.qos_engine.windows

  Quiet-Keeps : (f : Action) → Quiet f → Keeps f
  Quiet-Keeps f q = record {
    kept = λ b p.
        subst (λ ws. P (f b).0.reply_cache ws) (sym (q.leaves b).1)
          (subst (λ rs. P rs b.qos_engine.windows) (sym (q.leaves b).0) p);
  }

  >>-Keeps : (f g : Action) → Keeps f → Keeps g → Keeps (f >> g)
  >>-Keeps f g p q = record { kept = λ b h. q.kept (f b).0 (p.kept b h) }

  if-Keeps : (c : Bool) (f g : Action) → Keeps f → Keeps g → Keeps (if c then f else g)
  if-Keeps true f g p q = p
  if-Keeps false f g p q = q

  -- A new answer goes under a key that was free.
  answer-kept :
      (run : Handlers) (clock : Clock) (from : Endpoint) (r : DecodeResult) (id : ℕ)
      (b : MessageBus)
      → lookup (reply_key r.header.source_id r.header.correlation_id) b.reply_cache ≡ none
      → P b.reply_cache b.qos_engine.windows
      → P
          (answer run clock from r id b).0.reply_cache
          (answer run clock from r id b).0.qos_engine.windows
  unfolding answer
  answer-kept run clock from r id b h p =
      (Quiet-Keeps _ (send_reply-Quiet clock from r.header.correlation_id _ _ true)).kept _
        (elim (Option-cases (lookup id b.repliers)) [
          | inl e ↦ rw (e, counted) (caches _ _ b.reply_cache b.qos_engine.windows h p)
          | inr (n, e) ↦ rw (e, counted) (caches _ _ b.reply_cache b.qos_engine.windows h p)
        ])

  on_request_packet-Keeps :
      (run : Handlers) (clock : Clock) (from : Endpoint) (r : DecodeResult)
      → Keeps (on_request_packet run clock from r)
  unfolding on_request_packet
  on_request_packet-Keeps run clock from r = record {
    kept = λ b p.
        elim (Option-cases
          (lookup (reply_key r.header.source_id r.header.correlation_id) b.reply_cache)) [
            | inr (c, e) ↦
                rw (e, on_request_packet)
                  ((Quiet-Keeps _ (
                      send_reply-Quiet clock from r.header.correlation_id c.response c.qos
                        false)).kept
                    b p)
            | inl e ↦ elim (Option-cases (lookup (service_name r.topic) b.service_handlers)) [
              | inl e' ↦ rw (e, e', on_request_packet) p
              | inr (id, e') ↦ rw (e, e', on_request_packet) (answer-kept run clock from r id b e p)
            ]
          ];
  }

  on_data_packet-Keeps :
      (run : Handlers) (clock : Clock) (from : Endpoint) (r : DecodeResult)
      → Keeps (on_data_packet run clock from r)
  unfolding on_data_packet
  on_data_packet-Keeps run clock from r =
      if-Keeps _ _ _ (Quiet-Keeps _ (on_publish_packet-Quiet clock r)) (
        if-Keeps _ _ _ (on_request_packet-Keeps run clock from r) (
          if-Keeps _ _ _ (Quiet-Keeps _ (on_reply_packet-Quiet clock from r))
            (Quiet-Keeps _ done-Quiet)))

  deduplicated-Keeps :
      (clock : Clock) (h : WireHeader) (next : Action)
      → Keeps next
      → Keeps (deduplicated clock h next)
  unfolding deduplicated
  deduplicated-Keeps clock h next k = record {
    kept = λ b p. elim (Bool-cases (h.qos_level == exactly_once)) [
      | inr e ↦ rw e (k.kept b p)
      | inl e ↦ rw e (
          (if-Keeps (is_duplicate clock.steady h.source_id h.sequence_id b.qos_engine).0 done next
              (Quiet-Keeps _ done-Quiet) k).kept
            _ (checks b.reply_cache clock.steady h.source_id h.sequence_id b.qos_engine p))
    ];
  }

  on_packet-Keeps :
      (run : Handlers) (clock : Clock) (from : Endpoint) (r : DecodeResult)
      → Keeps (on_packet run clock from r)
  unfolding on_packet
  on_packet-Keeps run clock from r = if-Keeps _ _ _ (Quiet-Keeps _ (on_ack_packet-Quiet r.header)) (
      if-Keeps _ _ _ (Quiet-Keeps _ (on_nack_packet-Quiet clock r.header)) (
        if-Keeps _ _ _ (Quiet-Keeps _ (on_pubrec_packet-Quiet clock from r.header)) (
          if-Keeps _ _ _ (Quiet-Keeps _ (send_ctrl-Quiet clock from pubcomp r.header.sequence_id)) (
            if-Keeps _ _ _ (Quiet-Keeps _ (on_pubcomp_packet-Quiet r.header)) (
              >>-Keeps _ _
                (Quiet-Keeps _ (if-Quiet _ _ _ (acknowledge-Quiet clock from r.header) done-Quiet))
                (deduplicated-Keeps clock r.header _ (on_data_packet-Keeps run clock from r)))))))

  on_received-Keeps :
      (run : Handlers) (clock : Clock) (from : Endpoint) (bytes : Bytes)
      → Keeps (on_received run clock from bytes)
  unfolding on_received
  on_received-Keeps run clock from bytes = record {
    kept = λ b p. elim (Bool-cases (decoded bytes).valid) [
      | inl e ↦ rw e ((on_packet-Keeps run clock from (decoded bytes)).kept b p)
      | inr e ↦ rw e p
    ];
  }

  -- What new answers under free keys and checks of numbers keep true, packets keep true.
  pub receive_all-Keeps :
      (run : Handlers) (es : List (Clock × Endpoint × Bytes)) (b : MessageBus)
      → P b.reply_cache b.qos_engine.windows
      → P (receive_all run es b).reply_cache (receive_all run es b).qos_engine.windows
  unfolding receive_all
  receive_all-Keeps run [] b p = p
  receive_all-Keeps run ((clock, from, bytes) ∷ es) b p =
      receive_all-Keeps run es (on_received run clock from bytes b).0
        ((on_received-Keeps run clock from bytes).kept b p)
