-- ===== src/Dispatcher.antt =====
-- pkg/eventsourcing/domain/dispatcher.go: EventDispatcher. A handler is what it answers for an
-- envelope, an error or none; its effects are its own. The handlers of one Dispatch run
-- concurrently, so the order in which their errors are collected is an argument.
pub mod Patterns
pub mod Handlers
use pericarp.Prelude.{
  String, ◌==◌, Bool, true, false, Option, none, some, List, [], ◌∷◌, ◌++◌, if◌then◌else◌,
}
use pericarp.Prelude.Int.{pos}
use pericarp.Prelude.Dict.{Dict, get, put, get_or}
use pericarp.Event.{Envelope}
use Patterns.{get_matching_patterns}

pub data DispatchError (E : Type 0) : Type 0 where
  empty_event_type nil_handler nil_factory : DispatchError E
  type_assertion_failed : String → DispatchError E
  handler_failed : E → DispatchError E

-- handlerFunc: the error that it returns, if any.
abbrev pub Handler : Type 0 → Type 0 → Type 0
Handler Any E = Envelope Any Any → Option (DispatchError E)

-- `F` is the type of the factories in the type registry.
pub record EventDispatcher (Any E F : Type 0) : Type 0 where
  pub handlers : Dict (List (Handler Any E))
  pub wildcard_handlers : List (Handler Any E)
  pub type_registry : Dict F

module _ {Any E : Type 0} where
  -- The wrapper that Subscribe builds. `assert` is the type assertion of the payload to T.
  unfoldable pub wrapped_handler :
      {T : Type 0} → (Any → Option T) → String → (Envelope Any T → Option E) → Handler Any E
  wrapped_handler assert event_type handler env = elim (assert env.payload) [
    | none ↦ some (type_assertion_failed event_type)
    | some payload ↦
        elim (handler (record {
          id = env.id;
          aggregate_id = env.aggregate_id;
          event_type = env.event_type;
          payload = payload;
          created = env.created;
          sequence_no = env.sequence_no;
          transaction_id = env.transaction_id;
          metadata = env.metadata;
          position = pos 0;
        })) [ none ↦ none | some e ↦ some (handler_failed e) ]
  ]

  -- Every handler runs, whatever the others return.
  unfoldable pub run_all : List (Handler Any E) → Envelope Any Any → List (DispatchError E)
  run_all [] env = []
  run_all (handler ∷ rest) env = elim (handler env) [
    | none ↦ run_all rest env
    | some e ↦ e ∷ run_all rest env
  ]

module _ {Any E F : Type 0} where
  -- NewEventDispatcher
  abbrev pub new_event_dispatcher : EventDispatcher Any E F
  new_event_dispatcher = record { handlers = []; wildcard_handlers = []; type_registry = [] }

  -- The two writes of Subscribe, under its lock.
  unfoldable pub add_handler :
      String → Handler Any E → F → EventDispatcher Any E F → EventDispatcher Any E F
  add_handler event_type handler factory d = record d {
    handlers = put d.handlers event_type (get_or d.handlers event_type [] ++ handler ∷ []);
    type_registry = elim (get d.type_registry event_type) [
      | none ↦ put d.type_registry event_type factory
      | some _ ↦ d.type_registry
    ];
  }

  -- Subscribe; `factory` is `func() any { return new(T) }`, and a nil handler is `none`.
  unfoldable pub subscribe :
      {T : Type 0}
      → (Any → Option T)
      → String
      → Option (Envelope Any T → Option E)
      → F
      → EventDispatcher Any E F
      → EventDispatcher Any E F × Option (DispatchError E)
  unfolding add_handler wrapped_handler
  subscribe assert event_type none factory d =
      if event_type == "" then (d, some empty_event_type) else (d, some nil_handler)
  subscribe assert event_type (some handler) factory d =
      if event_type == ""
      then (d, some empty_event_type)
      else (add_handler event_type (wrapped_handler assert event_type handler) factory d, none)

  -- SubscribeWildcard
  unfoldable pub subscribe_wildcard :
      Option (Handler Any E)
      → EventDispatcher Any E F
      → EventDispatcher Any E F × Option (DispatchError E)
  subscribe_wildcard none d = (d, some nil_handler)
  subscribe_wildcard (some handler) d =
      (record d { wildcard_handlers = d.wildcard_handlers ++ handler ∷ [] }, none)

  -- RegisterType
  unfoldable pub register_type :
      String
      → Option F
      → EventDispatcher Any E F
      → EventDispatcher Any E F × Option (DispatchError E)
  register_type event_type none d =
      if event_type == "" then (d, some empty_event_type) else (d, some nil_factory)
  register_type event_type (some factory) d =
      if event_type == ""
      then (d, some empty_event_type)
      else (record d { type_registry = put d.type_registry event_type factory }, none)

  -- The loop of Dispatch over the patterns.
  unfoldable pub handlers_of : EventDispatcher Any E F → List String → List (Handler Any E)
  handlers_of d [] = []
  handlers_of d (pattern' ∷ patterns) = get_or d.handlers pattern' [] ++ handlers_of d patterns

  -- allHandlers of Dispatch.
  unfoldable pub all_handlers : EventDispatcher Any E F → String → List (Handler Any E)
  unfolding handlers_of
  all_handlers d event_type =
      handlers_of d (get_matching_patterns event_type) ++ d.wildcard_handlers

  -- Dispatch: the collected errors, or `none`. `arrival` is the order in which they come in.
  unfoldable pub dispatch :
      (List (DispatchError E) → List (DispatchError E))
      → EventDispatcher Any E F
      → Envelope Any Any
      → Option (List (DispatchError E))
  unfolding all_handlers run_all
  dispatch arrival d env = elim (all_handlers d env.event_type) [
    | [] ↦ none
    | handler ∷ rest ↦ elim (arrival (run_all (handler ∷ rest) env)) [
      | [] ↦ none
      | e ∷ es ↦ some (e ∷ es)
    ]
  ]
