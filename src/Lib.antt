-- ===== src/Lib.antt =====
-- A model of momoDB, a market-data feed: quotes pushed by the Futu OpenD API go to Kafka (momo_feed)
-- and from there to kdb+ (momo_subpb), and what makes it correct.
--
-- The feed has a subscription manager between the API and a dispatcher. Its control plane
-- reads a subscription file, makes a canonical state of it, and sends the session the requests that
-- lead there; its data plane queues the messages that the API pushes and hands them in batches to
-- the dispatcher, which queues each for every downstream, whose worker thread gives it to a sink.
-- On the other side a client polls Kafka, spreads the messages over decoder threads by their keys,
-- decodes protobuf to tables and these to kdb+ messages, and queues events for q. All queues are
-- the one ring buffer of momo_common.
--
-- Base: numbers, lists, texts, bits and association lists. A double is its 64-bit pattern.
-- Ring: momo_common/include/SPSCQueue.hpp (make, try_push, try_pop, pop_many); Ring.Threads has its two
--   threads' atomic steps, Ring.Overflow what its callers do when it is full, Ring.Race two
--   consumers at once.
-- Downstream and Dispatcher: momo_feed/{include,src}/runtime/Dispatcher (QueuedDownstream; Dispatcher).
--   Each submit and each round of the worker is one step; at a full queue, where a submit is three queue
--   operations, the interleavings with the worker's pops are left out (Ring.Race has one of them).
-- Subscription: momo_feed/include/futu_quote/Subscription.hpp and SubscriptionTools.hpp.
-- Manager: momo_feed/{include,src}/futu_quote/SubscriptionManager: control_cycle is the first half of
--   run, Manager.Push.data_plane the second; the handlers are in Manager.Push, and Manager.Run has
--   the loop with what other threads do between its turns.
-- Schema and Qipc: momo_schema/include/schema.hpp, qcodec.hpp and momo_schema/src/qipc.cpp.
-- Decoders: momo_subpb/src/decoders.cpp and momo_subpb/include/parse_helpers.hpp.
-- Yaml: an interface of yaml-cpp. Loader: momo_feed/src/config/SubscriptionLoader.cpp (Loader.Names: what
--   a file names, read off its nodes). Config:
--   momo_feed/{include,src}/config (Config, ConfigError, ConfigLoader) and momo_common/include/config.
-- Logger: momo_common/include/JsonLogger.hpp (Logger.Settings: its options), with a reader of its lines.
-- RedPanda: momo_feed/{include,src}/sinks/RedPandaSink, a sink for Downstream. Program:
--   momo_feed/src/main.cpp up to the manager's loop. Session: momo_feed/{include,src}/futu_quote/
--   FutuQuoteSession, with the callbacks of main in Session.Wiring and the calls of the Futu API in
--   Session.Link. RedPanda.Report: what the sinks log, DemoLogSink.hpp included.
-- Kfkpb: momo_subpb/{include,src}/kfkpb_core (Kfkpb.Setup: the constructor; Kfkpb.Consumer: consumerLoop;
--   Kfkpb: pushRaw, decodeLoop; Kfkpb.Drain: drainTo; Kfkpb.Registry: the decoder of a type; Kfkpb.Wake:
--   popRaw, pushRaw and the destructor as interleaved threads) and the topic names of
--   momo_subpb/src/kfkpb.cpp.
-- Qapi: the functions of momo_subpb/src/kfkpb.cpp that q calls.
-- Pipeline: both programs, from a push of the API to a kdb+ message.
-- Tests: the theorems at concrete inputs.
--
-- Fuel: drain has the queue's 8192 slots for its rounds, and a queue holds fewer messages;
-- next_pow2_loop has the wanted capacity, and each round at least adds one to the power; to_string has
-- one more than the number for its digits; drain_queue has its queue's slots; a reader of log lines has
-- their number of members; the wait for an assignment has the code's 60 rounds. All are enough. The loops of threads are
-- given round by round.
--
-- Arguments of the model, being outside the repository: the Futu API and its serial numbers, protobuf
-- parsing and serialization, the names of markets, the clock, the file system, yaml-cpp, librdkafka, the
-- manager's loader, spdlog's level test and its start, the environment's variables, the hash of strings, and the time
-- zone. What other threads do while a lock is given up is an argument too. Not modelled: the
-- byte that notify sends, the printer and the demonstrations.
pub mod Base
pub mod Ring
pub mod Downstream
pub mod Dispatcher
pub mod Subscription
pub mod Manager
pub mod Schema
pub mod Qipc
pub mod Decoders
pub mod Kfkpb
pub mod Yaml
pub mod Loader
pub mod Config
pub mod Logger
pub mod Qapi
pub mod RedPanda
pub mod Program
pub mod Session
pub mod Pipeline
pub mod Tests
