-- ===== src/Cqrs.antt =====
-- pkg/cqrs/command_dispatcher.go: envelopes, the registry of receivers and the results of one
-- receiver. A receiver is what it answers for an envelope; its effects are its own.
pub mod Patterns
pub mod Async
pub mod Queued
use pericarp.Prelude.{
  String, ◌==◌, Bool, true, false, ℕ, Option, none, some, List, [], ◌∷◌, ◌++◌, if◌then◌else◌,
}
use pericarp.Prelude.Dict.{Dict, get_or, put}
use pericarp.Cqrs.Patterns.{get_matching_patterns}

-- CommandEnvelope[T]; CommandEnvelope[any] is `CommandEnvelope Any Any`.
pub record CommandEnvelope (Any T : Type 0) : Type 0 where
  pub id : String
  pub command_type : String
  pub payload : T
  pub created : ℕ
  pub metadata : Dict Any

-- NewCommandEnvelope, with the id and the time that it gets.
abbrev pub new_command_envelope : {Any T : Type 0} → String → ℕ → T → String → CommandEnvelope Any T
new_command_envelope id now payload command_type = record {
  id = id;
  command_type = command_type;
  payload = payload;
  created = now;
  metadata = [];
}

-- ToAnyCommandEnvelope; `inject` is the conversion of a T to `any`.
unfoldable pub to_any_command_envelope :
    {Any T : Type 0} → (T → Any) → CommandEnvelope Any T → CommandEnvelope Any Any
to_any_command_envelope inject env = record {
  id = env.id;
  command_type = env.command_type;
  payload = inject env.payload;
  created = env.created;
  metadata = env.metadata;
}

-- How a call of a receiver ends: the pair that it returns, or a panic. A nil `any` is `none`.
pub data Outcome (Any E : Type 0) : Type 0 where
  returned : Option Any → Option E → Outcome Any E
  panicked : String → Outcome Any E

pub data CommandError (E : Type 0) : Type 0 where
  empty_command_type nil_receiver registration_not_supported : CommandError E
  type_assertion_failed : String → CommandError E
  receiver_failed : E → CommandError E
  receiver_panicked : String → CommandError E

pub record CommandResult (Any E : Type 0) : Type 0 where
  pub value : Option Any
  pub error : Option (CommandError E)
  pub command_type : String

-- receiverFunc
abbrev pub Receiver : Type 0 → Type 0 → Type 0
Receiver Any E = CommandEnvelope Any Any → Outcome Any (CommandError E)

pub record CommandRegistry (Any E : Type 0) : Type 0 where
  pub receivers : Dict (List (Receiver Any E))
  pub wildcard_receivers : List (Receiver Any E)

module _ {Any E : Type 0} where
  -- newCommandRegistry
  abbrev pub new_command_registry : CommandRegistry Any E
  new_command_registry = record { receivers = []; wildcard_receivers = [] }

  -- addReceiver
  unfoldable pub add_receiver :
      String → Receiver Any E → CommandRegistry Any E → CommandRegistry Any E
  add_receiver command_type fn r = record r {
    receivers = put r.receivers command_type (get_or r.receivers command_type [] ++ fn ∷ []);
  }

  -- RegisterWildcardReceiver; a nil receiver is `none`.
  unfoldable pub register_wildcard_receiver :
      Option (Receiver Any E)
      → CommandRegistry Any E
      → CommandRegistry Any E × Option (CommandError E)
  register_wildcard_receiver none r = (r, some nil_receiver)
  register_wildcard_receiver (some receiver) r =
      (record r { wildcard_receivers = r.wildcard_receivers ++ receiver ∷ [] }, none)

  -- The loop of resolveReceivers over the patterns.
  unfoldable pub receivers_of : CommandRegistry Any E → List String → List (Receiver Any E)
  receivers_of r [] = []
  receivers_of r (p ∷ patterns) = get_or r.receivers p [] ++ receivers_of r patterns

  -- resolveReceivers
  unfoldable pub resolve_receivers : CommandRegistry Any E → String → List (Receiver Any E)
  unfolding receivers_of
  resolve_receivers r command_type =
      receivers_of r (get_matching_patterns command_type) ++ r.wildcard_receivers

  -- The wrapper that RegisterReceiver builds. `assert` is the type assertion of the payload to T.
  unfoldable pub wrapped_receiver :
      {T : Type 0}
      → (Any → Option T)
      → String
      → (CommandEnvelope Any T → Outcome Any (CommandError E))
      → Receiver Any E
  wrapped_receiver assert command_type receiver env = elim (assert env.payload) [
    | none ↦ returned none (some (type_assertion_failed command_type))
    | some payload ↦ receiver (record {
      id = env.id;
      command_type = env.command_type;
      payload = payload;
      created = env.created;
      metadata = env.metadata;
    })
  ]

  -- RegisterReceiver; `supported` says that the dispatcher is a receiverRegistrar.
  unfoldable pub register_receiver :
      {T : Type 0}
      → (Any → Option T)
      → Bool
      → String
      → Option (CommandEnvelope Any T → Outcome Any (CommandError E))
      → CommandRegistry Any E
      → CommandRegistry Any E × Option (CommandError E)
  unfolding add_receiver wrapped_receiver
  register_receiver assert supported command_type none r =
      if command_type == "" then (r, some empty_command_type) else (r, some nil_receiver)
  register_receiver assert supported command_type (some receiver) r =
      if command_type == ""
      then (r, some empty_command_type)
      else if supported
      then (add_receiver command_type (wrapped_receiver assert command_type receiver) r, none)
      else (r, some registration_not_supported)

  -- executeReceiver: the result that it sends. An error drops the value, and a panic is a result too.
  unfoldable pub execute_receiver : CommandEnvelope Any Any → Receiver Any E → CommandResult Any E
  execute_receiver env fn = elim (fn env) [
    | panicked reason ↦ record {
      value = none;
      error = some (receiver_panicked reason);
      command_type = env.command_type;
    }
    | returned value error ↦ elim error [
      | some e ↦ record { value = none; error = some e; command_type = env.command_type }
      | none ↦ record { value = value; error = none; command_type = env.command_type }
    ]
  ]
