-- ===== src/Consumer.antt =====
-- src/consumer/dedup_consumer.py: the consumer over any store, any broker client and any `handle`.
pub mod Message
pub mod Process
pub mod Handlers
pub mod Lifecycle
pub mod Main
