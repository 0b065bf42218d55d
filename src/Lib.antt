-- ===== src/Lib.antt =====
-- EmbedMQ is a publish/subscribe and request/reply middleware. A node has a message bus, which
-- decodes the packets that its transports receive, acknowledges and deduplicates them, and routes
-- them to subscribers and service handlers; publishing and requesting encode packets and send them
-- to the endpoints of the peers that the discovery agent has found.
--
-- Paths are from the repository's root.
--   Types, Types/Payload   include/embedmq/types.h and qos.h, Endpoint of transport/itransport.h
--   Util/Crc32             src/util/crc32.h
--   Util/Timer             src/util/timer_wheel.h
--   Util/Mpsc              src/util/mpsc_queue.h
--   Util/Pool              src/util/memory_pool.h
--   Codec                  src/core/message_codec.h; Codec/Wire has putU16 ... getU64
--   Router                 src/core/topic_router.h
--   Qos                    src/core/qos_engine.h
--   Retained               src/core/retained_store.h
--   Bus/State              the fields of MessageBus, PendingRequest, CachedReply, and of the states
--                          that subscribers and repliers share with their callbacks
--   Bus/Send               selectEndpoint, sendAck, sendNack, sendCtrl, sendReply
--   Bus/Publish            publish, deliverWill, Publisher::publish
--   Bus/Receive            onReceived, one definition for each branch
--   Bus/Request            dispatchRequest, sendRequest, cancelPendingRequest
--   Bus/Tick               the periodic task of start, expireReplyCache, stop
--   Bus/Members            subscribers, repliers and peers, localTopics
--   Discovery/Registry     src/discovery/peer_registry.h
--   Discovery/Reader, Discovery/Announce, Discovery/Agent
--                          src/discovery/discovery_agent.cpp
--   Transport/Manager      src/transport/transport_manager.cpp
--   Transport/Tcp          src/transport/tcp_transport.cpp: sendAll, recvAll, send, sendv,
--                          clientLoop, and the table of connections
--   Transport/Shm          src/transport/shm_transport.cpp: writeToRegion, writevToRegion and
--                          recvLoop on the ring; Transport/Shm/Region has the checks of openInbox
-- Base holds the helpers that all parts share: tests, lists, association lists, words. The other
-- modules hold proofs; modules named Examples hold tests and the results at concrete inputs.
--
-- An operation is a function from the state before to the state after. What a method does besides
-- is a list of effects in the order of the calls: sends, calls of subscribers and of handlers,
-- futures that end (Effect in Bus/State), callbacks of the registry (Event). A read past the end of
-- a buffer is `none`. A loop is a recursion on the list that it goes through; the loop of
-- enforceMaxCountLocked has the size of the table as fuel, since each round erases an entry.
-- Integers are natural numbers, with the wrap-around written out where the program computes.
--
-- The parts that threads or processes share without a lock are modelled by their steps: Event in
-- Util/Timer, Util/Mpsc and Transport/Shm lists what can happen next, and a history is a list of
-- events in any order, so that a theorem on all lists is one on all interleavings. Memory is
-- sequentially consistent there. In Transport/Tcp the loops over a socket have as many rounds as
-- bytes, since a round that goes on moves one; a socket is a record of operations and of what is
-- documented of them, and a transport of Transport/Manager a record of operations.
--
-- Bounds of the model. In Bus and Discovery a method runs as a whole, as under its lock; a callback
-- that calls back into the bus while a method runs is not modelled. A method reads each clock once,
-- and times do not wrap. Handlers of services are parameters. A hash table is an association list,
-- whose order stands for the order of iteration. Allocation does not fail. A publish is modelled up
-- to the slices handed to the transport.
--
-- Not modelled: the UDP transport, event loops and sockets, the mapping of shared memory; the ring
-- buffer of one producer; the logger; the participant, the C interface, tools, examples and
-- bindings.
pub mod Base
pub mod Util
pub mod Types
pub mod Codec
pub mod Router
pub mod Qos
pub mod Retained
pub mod Bus
pub mod Discovery
pub mod Transport
