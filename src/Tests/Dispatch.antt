-- ===== src/Tests/Dispatch.antt =====
-- The dispatcher's theorems at concrete inputs.
use mathlib.Core.List.Perm
use mathlib.Core.List.{Perm}
use pericarp.Prelude.{String, ◌≡◌, refl, ℕ, Option, some, List, [], ◌∷◌}
use pericarp.Event.{Envelope}
use pericarp.Dispatcher.{DispatchError, handler_failed, Handler, EventDispatcher}
use pericarp.Dispatcher.Patterns.{get_matching_patterns}

abbrev fail : String → Handler ℕ String
fail e env = some (handler_failed e)

abbrev two_failing : EventDispatcher ℕ String ℕ
two_failing = record {
  handlers = ("order.*", fail "first" ∷ []) ∷ [];
  wildcard_handlers = fail "second" ∷ [];
  type_registry = [];
}

abbrev in_order : List (DispatchError String) → List (DispatchError String)
in_order es = es

patterns_of_two :
    get_matching_patterns "order.created" ≡ "order.created" ∷ "order.*" ∷ "*.created" ∷ "*.*" ∷ []
unfolding get_matching_patterns
patterns_of_two = refl

abbrev accepts : ℕ → Option ℕ
accepts n = some n

abbrev third : Envelope ℕ ℕ → Option String
third env = some "third"
