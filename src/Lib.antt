-- ===== src/Lib.antt =====
-- A verification library of pericarp, a Go library for event sourcing and domain-driven design.
--
-- The program. An aggregate embeds a BaseEntity (pkg/ddd/entity.go), which numbers the events that
-- RecordEvent makes and refuses what ApplyEvent may not apply. A SimpleUnitOfWork
-- (pkg/eventsourcing/application/unitofwork.go) tracks entities, appends their uncommitted events to
-- an event store under optimistic concurrency control, clears them, and hands the events to an
-- EventDispatcher (pkg/eventsourcing/domain/dispatcher.go). The store keeps one list of events for
-- an aggregate and one feed over all of them, in commit order; a Subscriber
-- (pkg/eventsourcing/subscriptions/subscriber.go) reads that feed in batches behind its checkpoint,
-- retries a handler that fails, and parks the events that it gives up on. Commands go through the
-- dispatchers of pkg/cqrs, which run the receivers of a command at once or one after the other and
-- give their results through a channel. pkg/auth builds on these: its aggregates are event-sourced,
-- a policy decision point answers whether an agent may act on a target, and the invite service moves
-- four aggregates at once when an invite is accepted.
--
-- The files.
--   Prelude: lists and tests over native numbers, int64 with its wrap-around (Prelude/Int), Go maps
--     with string keys as association lists (Prelude/Dict).
--   Event: EventEnvelope, NewEventEnvelope, ToAnyEnvelope, EventTypeFor, IsStandardEventType and the
--     store errors (pkg/eventsourcing/domain/event.go, event_types.go, eventstore.go).
--   Entity: BaseEntity. Entity/Apply is about ApplyEvent, Entity/Record about RecordEvent and its
--     replay, Entity/Numbered about sequence numbers.
--   EventStore/Contract: the part of the EventStore interface that its clients rely on, with laws.
--   EventStore/Memory: MemoryStore (pkg/eventsourcing/infrastructure/memory_store.go), all methods.
--     Memory/View has the log as the abstract view of the store, Append, Feed, ReadAfter,
--     Concurrency and Range what they name, and Implements the contract filled by MemoryStore.
--   EventStore/File: FileStore (file_store.go of the same folder), over a directory as a map from a
--     file's name to its text. File/Append and File/Durable are about Append, File/Shared about ids
--     that share a file, File/Feed has ReadAfter, with Feed/Loaded, Sorted and Returns about it.
--   UnitOfWork: Track, Commit and Rollback over any store of the contract. Tracked entities stand on
--     a heap, since the caller shares them. UnitOfWork/Persist, Batches, Commit and Outcome follow
--     Commit through its loops, Retry puts it on a MemoryStore.
--   Dispatcher: Subscribe, SubscribeWildcard, RegisterType and Dispatch; Dispatcher/Patterns has the
--     event type patterns.
--   Subscriptions/Checkpoint: MemoryCheckpointStore and its batches (memory_checkpoint.go);
--     Checkpoint/InFlight is about the calls made while a batch is in flight.
--   Subscriptions/Parking: MemoryParkingLot (parking.go, memory_parking.go).
--   Subscriptions/Subscriber: the checks of NewSubscriber, processEvent, backoffDelay and Lag, for any
--     handler, savepoints and parking lot; Subscriber/Cycles: processBatch and the cycles of Run on a
--     MemoryCheckpointStore. Subscriber/Attempts and Runs follow an event and a batch attempt by
--     attempt, Settle, Backoff and Batches are about their branches, Subscriber/Drain about the
--     cycles together, over any store of the contract; Subscriber/Parked has ResetCheckpoint,
--     ListParked and ReplayParked.
--   Cqrs: CommandEnvelope, the registry of receivers and executeReceiver
--     (pkg/cqrs/command_dispatcher.go), with the patterns in Cqrs/Patterns. Cqrs/Async has the
--     goroutines of AsyncCommandDispatcher.Dispatch and the caller of its Watchable as a step
--     relation, Async/Schedules and Async/Results what holds on every schedule; Cqrs/Queued has
--     QueuedCommandDispatcher.Dispatch, and Queued/Refines compares the two.
--   Auth/Aggregate: what the aggregates of pkg/auth/domain/entities share: checks, an event, the new
--     fields, Restore and ApplyEvent; Aggregate/Replay rebuilds one from its events.
--   Auth/Credential, Account, Agent, Policy, Role, PasswordCredential: the methods of each (entities/
--     credential.go and so on, with their event files) as decisions over its fields, and its type
--     switch as evolve; the Replay file of each is about rebuilding it.
--   Auth/Invite, Auth/AuthSession: the aggregates of entities/invite.go and auth_session.go, written
--     on BaseEntity directly. Invite/Steps has the calls in an invite's life, Invite/Replay is about
--     rebuilding an invite from its events, Invite/Restored about one from a database row.
--   Auth/Authorization: the PolicyDecisionPoint (pkg/auth/application/authorization_service.go) over
--     any PermissionStore. Authorization/Decides is about its answer, Accounts about accounts.
--   Auth/Rows: the GORM rows of Account, Agent, Credential and PasswordCredential and their
--     conversions (pkg/auth/infrastructure/models).
--   Auth/InviteService: the reads and writes of the invite service and AcceptInvite
--     (pkg/auth/application/invite_service.go), InviteService/Manage CreateInvite and RevokeInvite,
--     over any repositories and token service. InviteService/Changes, Checks, Accepts and
--     Manage/Admins are about when they go through.
--   Auth/Identity: the identity in a context, ResourceOwnership and SubscriptionClaim
--     (pkg/auth/identity.go, resource_ownership.go, subscription.go).
--   Tests: concrete inputs.
--
-- Conventions. A method that changes a receiver is a function that returns the new receiver, with an
-- error where the Go method returns one. A mutex makes a method one step; where a method gives its
-- lock up in between (Replay of the parking lot, Commit of the unit of work), the outer call is an
-- argument or the state between is explicit. `Any` is the type of payloads. The ids of ksuid.New(),
-- the times of time.Now(), cancelled contexts, the order in which a Go map is ranged over and the
-- order in which concurrent handlers answer are arguments. Go's int and int64 wrap at 2^63.
--
-- Bounds and fuel. A theorem on sequence numbers or positions asks that they stay below 2^63. The
-- cycles of Run take fuel; as many cycles as there are events behind the checkpoint are enough,
-- since a cycle that goes on has settled at least one event. Retries recurse on the retries left,
-- the backoff on the attempt.
-- A schedule of the asynchronous dispatcher is a list of steps, any interleaving of the goroutines;
-- no fuel is needed, since the steps left decrease.
--
-- A Commit runs without other goroutines on its unit of work and its entities: the code gives up
-- its lock while it persists.
--
-- Not modelled: stores and checkpoints in databases, the backfill of positions in a FileStore, JSON
-- of envelopes (UnmarshalEvent, MarshalJSON; the FileStore takes its codec as an argument), logging,
-- timers and wake signals of Run, panics of event handlers, the effects of a command's receivers
-- beside their results, and the other application services, repositories, providers, HTTP, JWT and
-- Casbin code of pkg/auth. Errors are values, mostly without their texts.
pub mod Prelude
pub mod Event
pub mod Entity
pub mod EventStore
pub mod UnitOfWork
pub mod Dispatcher
pub mod Subscriptions
pub mod Tests
pub mod Auth
pub mod Cqrs
