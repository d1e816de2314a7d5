-- ===== src/Pipeline.antt =====
-- The two programs together: a message that the API pushes to momo_feed, through Kafka, to an event of
-- momo_subpb and its kdb+ table.
pub mod Journey
pub mod Ticker
pub mod Feed
