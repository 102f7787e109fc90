-- ===== src/Auth/Aggregate.antt =====
-- What the aggregates of pkg/auth/domain/entities have in common: a struct that embeds a
-- ddd.BaseEntity, whose methods check their arguments, change the fields and record an event.
-- `P` are the payloads of its events, `S` its own fields; the error of a check is its text.
pub mod Replay
use pericarp.Prelude.{String, Bool, false, ℕ, Option, none, some, List, [], ◌∷◌, if◌then◌else◌}
use pericarp.Event.{Envelope}
use pericarp.Entity.{
  BaseEntity, EntityError, new_base_entity, apply_event, record_event, clear_uncommitted_events,
}

pub record Aggregate (P S : Type 0) : Type 0 where
  pub base : BaseEntity P
  pub state : S

-- What a method answers, given the fields: an error of its checks, nothing to do, a change of the
-- fields with no event, or an event with the new fields.
pub data Decision (P S : Type 0) : Type 0 where
  refuse : String → Decision P S
  keep : Decision P S
  silent : S → Decision P S
  emit : P → S → Decision P S

-- The checks of a method, the first that fails being its error.
abbrev pub require : {P S : Type 0} → List (Bool × String) → Decision P S → Decision P S
require [] d = d
require ((wrong, error) ∷ checks) d = if wrong then refuse error else require checks d

pub data Failure : Type 0 where
  failed : String → Failure
  entity_failed : EntityError → Failure
  unknown_event_type : Failure

-- The payloads have no GetID.
abbrev pub no_owner : {P : Type 0} → P → Option String
no_owner payload = none

module _ {P S : Type 0} (event_type_of : P → String) where
  -- The fields are set first, and stay so if RecordEvent fails.
  unfoldable pub record_on : String → ℕ → P → S → Aggregate P S → Aggregate P S × Option Failure
  unfolding record_event
  record_on event_id now payload state a =
      let (base, error) =
        record_event no_owner event_id now payload (event_type_of payload) a.base in
      (
        record { base = base; state = state },
        elim error [ none ↦ none | some e ↦ some (entity_failed e) ],
      )

  -- A method: what it decides, done to the aggregate.
  unfoldable pub execute :
      Decision P S → String → ℕ → Aggregate P S → Aggregate P S × Option Failure
  unfolding record_on
  execute (refuse e) event_id now a = (a, some (failed e))
  execute keep event_id now a = (a, none)
  execute (silent state) event_id now a = (record a { state = state }, none)
  execute (emit payload state) event_id now a = record_on event_id now payload state a

  -- A With method, which starts from a new entity once its checks have passed.
  unfoldable pub create :
      String → Decision P S → String → ℕ → Aggregate P S → Aggregate P S × Option Failure
  unfolding execute
  create id (refuse e) event_id now a = (a, some (failed e))
  create id keep event_id now a = (a, none)
  create id (silent state) event_id now a =
      (record { base = new_base_entity id; state = state }, none)
  create id (emit payload state) event_id now a =
      record_on event_id now payload state (record a { base = new_base_entity id })

-- A Restore method: its checks, and the fields from the database.
unfoldable pub restore :
    {P S : Type 0} → String → Option String → S → Aggregate P S → Aggregate P S × Option Failure
restore id error state a = elim error [
  | some e ↦ (a, some (failed e))
  | none ↦ (record { base = new_base_entity id; state = state }, none)
]

-- An ApplyEvent method behind the answer of its entity; `evolve` is its type switch, and `none` the
-- default branch.
unfoldable pub applied_to :
    {P S : Type 0}
    → (P → S → Option S)
    → P
    → S
    → BaseEntity P × Option EntityError
    → Aggregate P S × Option Failure
applied_to evolve payload state (base, error) = elim error [
  | some e ↦ (record { base = base; state = state }, some (entity_failed e))
  | none ↦ elim (evolve payload state) [
    | some state' ↦ (record { base = base; state = state' }, none)
    | none ↦ (record { base = base; state = state }, some unknown_event_type)
  ]
]

unfoldable pub apply :
    {P S : Type 0}
    → (P → S → Option S)
    → Bool
    → Envelope P P
    → Aggregate P S
    → Aggregate P S × Option Failure
unfolding apply_event applied_to
apply evolve cancelled event a =
    applied_to evolve event.payload a.state (apply_event cancelled event a.base)
