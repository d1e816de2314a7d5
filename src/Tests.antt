-- ===== src/Tests.antt =====
-- The theorems at concrete inputs: the queue, the subscriptions, the message paths, the bytes of
-- messages, the configuration files, the log and the session.
mod Rings
mod Subscriptions
mod Streams
mod Messages
mod Loading
mod Logging
mod Kafka
mod Consumer
mod Feed
mod Sessions
mod Running
mod Journeys
mod Feeding
mod Decoding
mod Waking
