-- ===== src/Entity.antt =====
-- pkg/ddd/entity.go: BaseEntity, the event-tracking core that every aggregate embeds.
-- The mutex makes each method one atomic step, so a method is a function of the entity.
pub mod Apply
pub mod Record
pub mod Numbered
use pericarp.Prelude.{
  String, ◌==◌, Bool, true, false, not, ℕ, Option, none, some, List, [], ◌∷◌, ◌++◌, contains,
  if◌then◌else◌,
}
use pericarp.Prelude.Int.{ℤ, pos, eqb_ℤ, ◌+ℤ◌}
use pericarp.Event.{Envelope, new_event_envelope}

pub data EntityError : Type 0 where
  wrong_aggregate duplicate_event invalid_sequence_no context_error : EntityError

pub record BaseEntity (Any : Type 0) : Type 0 where
  pub aggregate_id : String
  pub sequence_no : ℤ
  pub uncommitted_events : List (Envelope Any Any)
  -- the keys of appliedEventIDs, whose values are all true
  pub applied_event_ids : List String

module _ {Any : Type 0} where
  -- RestoreBaseEntity
  abbrev pub restore_base_entity : String → ℤ → BaseEntity Any
  restore_base_entity aggregate_id sequence_no = record {
    aggregate_id = aggregate_id;
    sequence_no = sequence_no;
    uncommitted_events = [];
    applied_event_ids = [];
  }

  -- NewBaseEntity
  abbrev pub new_base_entity : String → BaseEntity Any
  new_base_entity aggregate_id = restore_base_entity aggregate_id (pos 0)

  -- ClearUncommittedEvents
  unfoldable pub clear_uncommitted_events : BaseEntity Any → BaseEntity Any
  clear_uncommitted_events e = record e { uncommitted_events = [] }

  unfoldable pub apply_event_internal :
      Envelope Any Any → BaseEntity Any → BaseEntity Any × Option EntityError
  apply_event_internal event e =
      if not (event.aggregate_id == e.aggregate_id)
      then (e, some wrong_aggregate)
      else if contains e.applied_event_ids event.id
      then (e, some duplicate_event)
      else if not (eqb_ℤ event.sequence_no (e.sequence_no +ℤ pos 1))
      then (e, some invalid_sequence_no)
      else (
        record e {
          applied_event_ids = event.id ∷ e.applied_event_ids;
          sequence_no = event.sequence_no;
        },
        none,
      )

  -- ApplyEvent; `cancelled` says that ctx.Err() is not nil.
  unfoldable pub apply_event :
      Bool → Envelope Any Any → BaseEntity Any → BaseEntity Any × Option EntityError
  unfolding apply_event_internal
  apply_event cancelled event e =
      if cancelled then (e, some context_error) else apply_event_internal event e

  -- RecordEvent, with the id and the time that the new envelope gets.
  unfoldable pub record_event :
      (Any → Option String)
      → String
      → ℕ
      → Any
      → String
      → BaseEntity Any
      → BaseEntity Any × Option EntityError
  unfolding new_event_envelope
  record_event owner id now payload event_type e =
      let next = e.sequence_no +ℤ pos 1 in
      let envelope = new_event_envelope owner id now payload e.aggregate_id event_type next in
      if contains e.applied_event_ids envelope.id then (e, some duplicate_event) else (
        record e {
          applied_event_ids = envelope.id ∷ e.applied_event_ids;
          sequence_no = next;
          uncommitted_events = e.uncommitted_events ++ envelope ∷ [];
        },
        none,
      )
