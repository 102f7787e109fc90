-- ===== src/Tests.antt =====
-- Concrete inputs for the theorems, and small runs of the definitions.
mod Data
mod Entity
mod Store
mod Unit
mod Dispatch
mod Subscribe
mod Auth
mod Aggregates
mod Cqrs
mod Access
mod Files
mod Invites
