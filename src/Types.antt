-- ===== src/Types.antt =====
-- include/embedmq: the types that every component shares. Text is its bytes; `uint8_t` … `uint64_t`
-- are natural numbers with the wrap-around written out where the program computes with them.
pub mod Payload
mod Examples
use emq.Base.{ℕ, List, [], Bool, false, Bytes}

-- `enum class MessageType : uint8_t`
pub data MessageType : Type 0 where
  publish subscribe unsubscribe request reply : MessageType
  ack nack pubrec pubrel pubcomp : MessageType
  announce discover_req discover_rsp heartbeat farewell : MessageType
  ping pong : MessageType

-- `static_cast<uint8_t>(type)`
abbrev pub code : MessageType → ℕ
code MessageType.publish = 0x01
code MessageType.subscribe = 0x02
code MessageType.unsubscribe = 0x03
code MessageType.request = 0x04
code MessageType.reply = 0x05
code MessageType.ack = 0x10
code MessageType.nack = 0x11
code MessageType.pubrec = 0x12
code MessageType.pubrel = 0x13
code MessageType.pubcomp = 0x14
code MessageType.announce = 0x20
code MessageType.discover_req = 0x21
code MessageType.discover_rsp = 0x22
code MessageType.heartbeat = 0x23
code MessageType.farewell = 0x24
code MessageType.ping = 0x30
code MessageType.pong = 0x31

-- `enum class QoSLevel : uint8_t`. A level read from the wire is cast with no check, so it is any
-- byte; the program compares levels as numbers.
abbrev pub QosLevel : Type 0
QosLevel = ℕ

abbrev pub best_effort : QosLevel
best_effort = 0

abbrev pub reliable : QosLevel
reliable = 1

abbrev pub exactly_once : QosLevel
exactly_once = 2

pub data HistoryKind : Type 0 where
  keep_last keep_all : HistoryKind

pub data DurabilityKind : Type 0 where
  volatile transient_local : DurabilityKind

pub record QosProfile : Type 0 where
  pub level : QosLevel
  pub max_retries : ℕ
  pub retry_interval_ms : ℕ
  pub ack_timeout_ms : ℕ
  pub history : HistoryKind
  pub history_depth : ℕ
  pub durability : DurabilityKind
  pub lifespan_ms : ℕ
  pub max_rate_hz : ℕ
  pub send_queue_size : ℕ
  pub recv_queue_size : ℕ
  pub priority : ℕ
  pub retain : Bool

-- `QoSProfile{}`, also `QoSProfile::bestEffort()`.
abbrev pub default_qos : QosProfile
default_qos = record {
  level = best_effort;
  max_retries = 3;
  retry_interval_ms = 100;
  ack_timeout_ms = 500;
  history = keep_last;
  history_depth = 1;
  durability = volatile;
  lifespan_ms = 0;
  max_rate_hz = 0;
  send_queue_size = 1024;
  recv_queue_size = 1024;
  priority = 128;
  retain = false;
}

abbrev pub reliable_qos : QosProfile
reliable_qos = record default_qos { level = reliable }

abbrev pub exactly_once_qos : QosProfile
exactly_once_qos = record default_qos { level = exactly_once }

-- `MsgFlags::RETAIN`
abbrev pub retain_flag : ℕ
retain_flag = 0x01

pub record ReceivedMessage : Type 0 where
  pub topic : Bytes
  pub payload : Bytes
  pub timestamp : ℕ
  pub source_id : ℕ
  pub sequence_id : ℕ
  pub correlation_id : ℕ

pub record Endpoint : Type 0 where
  pub transport_type : Bytes
  pub address : Bytes
  pub port : ℕ

abbrev pub blank_endpoint : Endpoint
blank_endpoint = record { transport_type = []; address = []; port = 0 }

pub record PeerInfo : Type 0 where
  pub id : ℕ
  pub name : Bytes
  pub host_name : Bytes
  pub endpoints : List Endpoint
  pub published_topics : List Bytes
  pub subscribed_topics : List Bytes
  pub has_will : Bool
  pub will_topic : Bytes
  pub will_payload : Bytes
  pub will_retain : Bool
  pub will_qos : ℕ
