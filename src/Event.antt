-- ===== src/Event.antt =====
-- pkg/eventsourcing/domain/event.go, event_types.go and the errors of eventstore.go.
-- `Any` stands for Go's `any`. What ksuid.New() and time.Now() return comes in as arguments.
use pericarp.Prelude.{String, ◌==◌, ◌||◌, Bool, ℕ, Option, none, some, [], if◌then◌else◌}
use pericarp.Prelude.Int.{ℤ, pos}
use pericarp.Prelude.Dict.{Dict}
use Prim.Native.String.{◌++◌}

-- EventEnvelope[T]; EventEnvelope[any] is `Envelope Any Any`.
pub record Envelope (Any T : Type 0) : Type 0 where
  pub id : String
  pub aggregate_id : String
  pub event_type : String
  pub payload : T
  pub created : ℕ
  pub sequence_no : ℤ
  pub transaction_id : String
  pub metadata : Dict Any
  pub position : ℤ

-- BasicTripleEvent
pub record BasicTripleEvent : Type 0 where
  pub subject : String
  pub predicate : String
  pub object : String
  pub original : ℤ

-- The errors of eventstore.go.
pub data StoreError : Type 0 where
  event_not_found concurrency_conflict invalid_event global_ordering_not_supported : StoreError

-- NewEventEnvelope. `owner` is the type assertion to Event: the payload's own GetID, if it has one.
unfoldable pub new_event_envelope :
    {Any T : Type 0} → (T → Option String) → String → ℕ → T → String → String → ℤ → Envelope Any T
new_event_envelope owner id now payload aggregate_id event_type sequence_no = record {
  id = id;
  aggregate_id = elim (owner payload) [ none ↦ aggregate_id | some own ↦ own ];
  event_type = event_type;
  payload = payload;
  created = now;
  sequence_no = sequence_no;
  transaction_id = "";
  metadata = [];
  position = pos 0;
}

-- ToAnyEnvelope; `inject` is the conversion of a T to `any`.
unfoldable pub to_any_envelope : {Any T : Type 0} → (T → Any) → Envelope Any T → Envelope Any Any
to_any_envelope inject envelope = record {
  id = envelope.id;
  aggregate_id = envelope.aggregate_id;
  event_type = envelope.event_type;
  payload = inject envelope.payload;
  created = envelope.created;
  sequence_no = envelope.sequence_no;
  transaction_id = envelope.transaction_id;
  metadata = envelope.metadata;
  position = envelope.position;
}

-- EventTypeFor
unfoldable pub event_type_for : String → String → String
event_type_for entity_type action =
    if entity_type == ""
    then action
    else if action == ""
    then entity_type
    else entity_type ++ ("." ++ action)

-- IsStandardEventType
unfoldable pub is_standard_event_type : String → Bool
is_standard_event_type event_type =
    event_type == "created"
    || event_type == "updated"
    || event_type == "deleted"
    || event_type == "triple"
