-- ===== src/UnitOfWork.antt =====
-- pkg/eventsourcing/application/unitofwork.go: SimpleUnitOfWork. The tracked entities are shared
-- with the caller, so they stand on a heap and the unit of work keeps their references. Go leaves
-- the order open in which a map is ranged over: Commit takes the order of its two loops over
-- eventsByAggregate as arguments.
pub mod Tracking
pub mod Persist
pub mod Batches
pub mod Commit
pub mod Outcome
pub mod Retry
use pericarp.Prelude.{
  String, ◌==◌, Bool, true, false, ℕ, Option, none, some, List, [], ◌∷◌, ◌++◌, map, contains,
  length, eqb, if◌then◌else◌,
}
use pericarp.Prelude.Int.{ℤ, pos, ◌-ℤ◌}
use pericarp.Prelude.Dict.{Dict, get, put, get_or}
use pericarp.Event.{Envelope, StoreError}
use pericarp.Entity.{BaseEntity, clear_uncommitted_events}
use pericarp.EventStore.Contract.{EventStore}

pub data UowError : Type 0 where
  nil_entity empty_aggregate_id already_tracked duplicate_in_batch : UowError
  failed_to_persist : String → StoreError → UowError

pub record UnitOfWork : Type 0 where
  pub entities : Dict ℕ
  pub expected_versions : Dict ℤ

-- Where the entities live: a reference is a number.
abbrev pub Heap : Type 0 → Type 0
Heap Any = ℕ → BaseEntity Any

-- NewSimpleUnitOfWork, and what Rollback leaves.
abbrev pub new_unit_of_work : UnitOfWork
new_unit_of_work = record { entities = []; expected_versions = [] }

-- Rollback
unfoldable pub rollback : UnitOfWork → UnitOfWork
rollback u = record u { entities = []; expected_versions = [] }

module _ {Any : Type 0} where
  -- The first loop of Track: the references of the batch, or the first refusal.
  unfoldable pub validate_all : Heap Any → UnitOfWork → List (Option ℕ) → List ℕ × Option UowError
  validate_all h u [] = ([], none)
  validate_all h u (none ∷ rest) = ([], some nil_entity)
  validate_all h u (some r ∷ rest) =
      let (refs, error) = validate_all h u rest in
      if (h r).aggregate_id == ""
      then ([], some empty_aggregate_id)
      else elim (get u.entities (h r).aggregate_id) [
        | some _ ↦ ([], some already_tracked)
        | none ↦ (r ∷ refs, error)
      ]

  -- The second loop of Track: an aggregate id that was seen before in the batch.
  unfoldable pub has_duplicate : Heap Any → List String → List ℕ → Bool
  has_duplicate h seen [] = false
  has_duplicate h seen (r ∷ rest) =
      let more = has_duplicate h ((h r).aggregate_id ∷ seen) rest in
      if contains seen (h r).aggregate_id then true else more

  -- The version before the uncommitted events.
  unfoldable pub expected_version : BaseEntity Any → ℤ
  expected_version e = e.sequence_no -ℤ pos (length e.uncommitted_events)

  -- The third loop of Track.
  unfoldable pub track_all : Heap Any → List ℕ → UnitOfWork → UnitOfWork
  track_all h [] u = u
  track_all h (r ∷ rest) u = track_all h rest (record u {
    entities = put u.entities (h r).aggregate_id r;
    expected_versions = put u.expected_versions (h r).aggregate_id (expected_version (h r));
  })

  -- Track
  unfoldable pub track : Heap Any → List (Option ℕ) → UnitOfWork → UnitOfWork × Option UowError
  track h entities u =
      let (refs, error) = validate_all h u entities in
      elim error [
        | some x ↦ (u, some x)
        | none ↦
            if has_duplicate h [] refs
            then (u, some duplicate_in_batch)
            else (track_all h refs u, none)
      ]

  -- The first loop of Commit: eventsByAggregate.
  unfoldable pub collect : Heap Any → Dict ℕ → Dict (List (Envelope Any Any))
  collect h [] = []
  collect h ((aggregate_id, r) ∷ rest) = elim (h r).uncommitted_events [
    | [] ↦ collect h rest
    | event ∷ events ↦ (aggregate_id, event ∷ events) ∷ collect h rest
  ]

  abbrev pub stamp : String → Envelope Any Any → Envelope Any Any
  stamp transaction_id event = record event { transaction_id = transaction_id }

  -- The stamping loop of Commit: every aggregate's events get the transaction id.
  abbrev pub stamp_all : String → Dict (List (Envelope Any Any)) → Dict (List (Envelope Any Any))
  stamp_all transaction_id [] = []
  stamp_all transaction_id ((aggregate_id, events) ∷ rest) =
      (aggregate_id, map (stamp transaction_id) events) ∷ stamp_all transaction_id rest

  -- allEvents: the events of a map, in the order of the visit.
  abbrev pub all_events : Dict (List (Envelope Any Any)) → List (Envelope Any Any)
  all_events [] = []
  all_events ((aggregate_id, events) ∷ rest) = events ++ all_events rest

  -- The last loop over the entities: ClearUncommittedEvents on each.
  unfoldable pub clear_all : Dict ℕ → Heap Any → Heap Any
  clear_all [] h = h
  clear_all ((aggregate_id, r) ∷ rest) h =
      clear_all rest (λ q. if eqb q r then clear_uncommitted_events (h q) else h q)

module _ {Any : Type 0} (S : EventStore Any) where
  -- The persisting loop of Commit. A failure ends it; what was appended before stays.
  unfoldable pub persist :
      Dict ℤ → Dict (List (Envelope Any Any)) → S.Store → S.Store × Option UowError
  persist versions [] s = (s, none)
  persist versions ((aggregate_id, events) ∷ rest) s =
      let (s', error) = S.append aggregate_id (get_or versions aggregate_id (pos 0)) events s in
      elim error [
        | some x ↦ (s', some (failed_to_persist aggregate_id x))
        | none ↦ persist versions rest s'
      ]

  -- What Commit leaves: the unit of work, the entities, the store, and the events that it hands to
  -- the dispatcher, one Dispatch call for each; the errors of those calls are dropped.
  pub record Committed : Type 0 where
    pub unit_of_work : UnitOfWork
    pub heap : Heap Any
    pub store : S.Store
    pub dispatched : List (Envelope Any Any)
    pub error : Option UowError

  -- Commit, for events that are not empty.
  unfoldable pub commit_events :
      Bool
      → Dict (List (Envelope Any Any))
      → Dict (List (Envelope Any Any))
      → UnitOfWork
      → Heap Any
      → S.Store
      → Committed
  unfolding rollback persist clear_all
  commit_events has_dispatcher stamping persisting u h s =
      let (s', error) = persist u.expected_versions persisting s in
      elim error [
        | some x ↦ record {
          unit_of_work = rollback u;
          heap = h;
          store = s';
          dispatched = [];
          error = some x;
        }
        | none ↦ record {
          unit_of_work = record u { entities = []; expected_versions = [] };
          heap = clear_all u.entities h;
          store = s';
          dispatched = if has_dispatcher then all_events stamping else [];
          error = none;
        }
      ]

  -- Commit. `visit` and `revisit` are the orders of the two loops over eventsByAggregate. Commit
  -- gives up its lock before it stamps and takes it again behind the persisting loop: this is a
  -- Commit during which no other goroutine tracks, commits or rolls back, or changes an entity.
  unfoldable pub commit :
      (Dict (List (Envelope Any Any)) → Dict (List (Envelope Any Any)))
      → (Dict (List (Envelope Any Any)) → Dict (List (Envelope Any Any)))
      → String
      → Bool
      → UnitOfWork
      → Heap Any
      → S.Store
      → Committed
  unfolding commit_events collect
  commit visit revisit transaction_id has_dispatcher u h s = elim (collect h u.entities) [
    | [] ↦ record {
      unit_of_work = record u { entities = []; expected_versions = [] };
      heap = h;
      store = s;
      dispatched = [];
      error = none;
    }
    | entry ∷ rest ↦
        let stamped = stamp_all transaction_id (entry ∷ rest) in
        commit_events has_dispatcher (visit stamped) (revisit stamped) u h s
  ]
