-- ===== src/Cqrs/Patterns/Same.antt =====
-- The patterns of a command type and those of an event type of the same name
-- (pkg/cqrs/command_dispatcher.go and pkg/eventsourcing/domain/dispatcher.go).
use Prim.Native.String.{◌++◌ as append_text}
use pericarp.Prelude.{String, ◌≡◌, refl, ap, List, [], ◌∷◌, ◌++◌, map}
use pericarp.Dispatcher.Patterns as EventPatterns
use pericarp.Dispatcher.Patterns.{
  one_wildcard, join_event_parts, join_rest, patterns_of_parts, split_event_type,
}
use pericarp.Cqrs.Patterns.{join_tail, join_parts, patterns_of, split_type, get_matching_patterns}

join_tail-eq : (parts : List String) → join_tail parts ≡ join_rest parts
unfolding join_tail join_rest
join_tail-eq [] = refl
join_tail-eq (part ∷ parts) =
    ap (λ rest. append_text "." (append_text part rest)) (join_tail-eq parts)

join_parts-eq : (parts : List String) → join_parts parts ≡ join_event_parts parts
unfolding join_parts join_event_parts
join_parts-eq [] = refl
join_parts-eq (part ∷ parts) = ap (append_text part) (join_tail-eq parts)

patterns_of-eq :
    (type_name : String) (parts : List String)
    → patterns_of type_name parts ≡ patterns_of_parts type_name parts
unfolding patterns_of patterns_of_parts
patterns_of-eq type_name [] = refl
patterns_of-eq type_name (a ∷ []) = refl
patterns_of-eq type_name (a ∷ b ∷ []) = refl
patterns_of-eq type_name (a ∷ b ∷ c ∷ rest) =
    let parts = a ∷ b ∷ c ∷ rest in
    ap (λ join. type_name ∷ (map join (one_wildcard parts) ++ join (map (λ _. "*") parts) ∷ []))
      (λ i l. join_parts-eq l i)

-- A command is matched against the same patterns, in the same order, as an event whose type has
-- the same name: the two copies of getMatchingPatterns agree on every name.
pub patterns-same :
    (type_name : String)
    → get_matching_patterns type_name ≡ EventPatterns.get_matching_patterns type_name
unfolding get_matching_patterns EventPatterns.get_matching_patterns split_type split_event_type
patterns-same type_name = patterns_of-eq type_name (split_type type_name)
