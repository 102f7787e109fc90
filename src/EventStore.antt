-- ===== src/EventStore.antt =====
-- pkg/eventsourcing/domain/eventstore.go and its implementations in
-- pkg/eventsourcing/infrastructure.
pub mod Contract
pub mod Memory
pub mod File
