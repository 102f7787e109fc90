-- ===== src/Cqrs/Patterns.antt =====
-- The command type patterns of pkg/cqrs/command_dispatcher.go: splitType, joinParts and
-- getMatchingPatterns, the package's own copies of what the event dispatcher has.
pub mod Same
use Prim.Native.String.{◌++◌ as append_text}
use pericarp.Prelude.{
  String, ◌==◌, ◌≡◌, refl, Bool, not, List, [], ◌∷◌, ◌++◌, map, select, if◌then◌else◌,
}
use pericarp.Dispatcher.Patterns.{split, one_wildcard}

-- splitType
unfoldable pub split_type : String → List String
split_type type_name =
    if type_name == "" then [] else select (λ part. not (part == "")) (split type_name)

-- The loop of joinParts, behind the first part.
unfoldable pub join_tail : List String → String
join_tail [] = ""
join_tail (part ∷ parts) = append_text "." (append_text part (join_tail parts))

-- joinParts
unfoldable pub join_parts : List String → String
unfolding join_tail
join_parts [] = ""
join_parts (part ∷ parts) = append_text part (join_tail parts)

-- getMatchingPatterns, by the number of parts.
unfoldable pub patterns_of : String → List String → List String
unfolding one_wildcard join_parts
patterns_of type_name [] = type_name ∷ []
patterns_of type_name (a ∷ []) = type_name ∷ "*" ∷ []
patterns_of type_name (a ∷ b ∷ []) =
    type_name ∷ append_text a ".*" ∷ append_text "*." b ∷ "*.*" ∷ []
patterns_of type_name (a ∷ b ∷ c ∷ rest) =
    let parts = a ∷ b ∷ c ∷ rest in
    type_name ∷ (map join_parts (one_wildcard parts) ++ join_parts (map (λ _. "*") parts) ∷ [])

unfoldable pub get_matching_patterns : String → List String
unfolding split_type patterns_of
get_matching_patterns type_name = patterns_of type_name (split_type type_name)
