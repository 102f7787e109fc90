-- ===== src/Dispatcher/Patterns.antt =====
-- The event type patterns of pkg/eventsourcing/domain/dispatcher.go: splitEventType,
-- joinEventParts and getMatchingPatterns.
pub mod Split
use Prim.Native.Char.{Char, code}
use Prim.Native.String.{◌++◌ as append_text}
use pericarp.Prelude.{
  String, ◌==◌, Bool, not, ℕ, List, [], ◌∷◌, ◌++◌, map, select, eqb, if◌then◌else◌,
}

-- strings.Split by "."
unfoldable pub push : Char → List String → List String
push c [] = String.◌∷◌ c "" ∷ []
push c (part ∷ parts) = String.◌∷◌ c part ∷ parts

unfoldable pub split : String → List String
unfolding push
split String.[] = "" ∷ []
split (String.◌∷◌ c s) =
    let parts = split s in if eqb (code c) b'.' then "" ∷ parts else push c parts

-- splitEventType
unfoldable pub split_event_type : String → List String
unfolding split
split_event_type event_type =
    if event_type == "" then [] else select (λ part. not (part == "")) (split event_type)

-- The loop of joinEventParts, behind the first part.
unfoldable pub join_rest : List String → String
join_rest [] = ""
join_rest (part ∷ parts) = append_text "." (append_text part (join_rest parts))

-- joinEventParts
unfoldable pub join_event_parts : List String → String
unfolding join_rest
join_event_parts [] = ""
join_event_parts (part ∷ parts) = append_text part (join_rest parts)

-- The parts with a "*" in place of one of them, for each of them in order.
unfoldable pub one_wildcard : List String → List (List String)
one_wildcard [] = []
one_wildcard (part ∷ parts) = ("*" ∷ parts) ∷ map (λ rest. part ∷ rest) (one_wildcard parts)

-- getMatchingPatterns, by the number of parts.
unfoldable pub patterns_of_parts : String → List String → List String
unfolding one_wildcard join_event_parts
patterns_of_parts event_type [] = event_type ∷ []
patterns_of_parts event_type (a ∷ []) = event_type ∷ "*" ∷ []
patterns_of_parts event_type (a ∷ b ∷ []) =
    event_type ∷ append_text a ".*" ∷ append_text "*." b ∷ "*.*" ∷ []
patterns_of_parts event_type (a ∷ b ∷ c ∷ rest) =
    let parts = a ∷ b ∷ c ∷ rest in
    event_type
    ∷ (map join_event_parts (one_wildcard parts) ++ join_event_parts (map (λ _. "*") parts) ∷ [])

unfoldable pub get_matching_patterns : String → List String
unfolding split_event_type patterns_of_parts
get_matching_patterns event_type = patterns_of_parts event_type (split_event_type event_type)
