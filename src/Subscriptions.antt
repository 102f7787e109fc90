-- ===== src/Subscriptions.antt =====
-- pkg/eventsourcing/subscriptions: background subscribers over the global feed.
pub mod Checkpoint
pub mod Parking
pub mod Subscriber
