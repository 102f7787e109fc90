-- ===== src/Dispatcher/Patterns/Split.antt =====
-- Splitting undoes joining, for parts that are not empty and hold no dot (dispatcher.go).
use Prim.Native.Char.{Char, code}
use Prim.Native.String.{◌++◌ as append_text}
use text.Mathlib.TextLemmas.{nil-append, cons-append, append-nil, append-eq-nil_iff}
use pericarp.Prelude.{
  String, ◌==◌, eq_true, eq_false, Bool, true, false, not, ◌&&◌, ◌≡◌, refl, ap, sym, ◌∙◌, List, [],
  ◌∷◌, ◌++◌, map, select, eqb, arith, All,
}
use pericarp.Dispatcher.Patterns.{
  push, split, split_event_type, one_wildcard, join_rest, join_event_parts, patterns_of_parts,
  get_matching_patterns,
}

-- No character of the text is a dot.
abbrev pub has_no_dot : String → Bool
has_no_dot String.[] = true
has_no_dot (String.◌∷◌ c s) = not (eqb (code c) b'.') && has_no_dot s

-- A part that a name is made of: not empty, and without a dot.
abbrev pub is_part : String → Bool
is_part s = not (s == "") && has_no_dot s

-- Text in front of the first of some parts.
abbrev prepend : String → List String → List String
prepend s [] = s ∷ []
prepend s (part ∷ parts) = append_text s part ∷ parts

push-prepend :
    (c : Char) (s : String) (parts : List String)
    → push c (prepend s parts) ≡ prepend (String.◌∷◌ c s) parts
unfolding push
push-prepend c s [] = refl
push-prepend c s (part ∷ parts) = rw cons-append

prepend_nil : (p : String) (parts : List String) → prepend "" (p ∷ parts) ≡ p ∷ parts
prepend_nil p parts = rw nil-append

split_char :
    (c : Char) (s : String) → eqb (code c) b'.' ≡ false → split (String.◌∷◌ c s) ≡ push c (split s)
unfolding split
split_char c s h = rw h

-- A text without a dot joins the first part of what follows it.
split-append :
    (s t : String) (p : String) (parts : List String)
    → has_no_dot s ≡ true
    → split t ≡ p ∷ parts
    → split (append_text s t) ≡ prepend s (p ∷ parts)
split-append String.[] t p parts h e = ap split (nil-append t) ∙ e ∙ sym (prepend_nil p parts)
split-append (String.◌∷◌ c s) t p parts h e =
    ap split (cons-append c s t)
    ∙ split_char c (append_text s t) (ground arith)
    ∙ ap (push c) (split-append s t p parts (ground arith) e)
    ∙ push-prepend c s (p ∷ parts)

split_dot : (s : String) → split (append_text "." s) ≡ "" ∷ split s
unfolding split
split_dot s = rw (cons-append, nil-append)

split-join :
    (p : String) (ps : List String)
    → All (λ s. is_part s ≡ true) (p ∷ ps)
    → split (join_event_parts (p ∷ ps)) ≡ p ∷ ps
unfolding join_event_parts
split-join p [] h =
    split-append p "" "" [] (ground (arith, h.0)) (unfold split in refl)
    ∙ ap (λ s. s ∷ []) (append-nil p)
split-join p (q ∷ qs) h =
    split-append p (append_text "." (append_text q (join_rest qs))) "" (q ∷ qs)
      (ground (arith, h.0))
      (split_dot (append_text q (join_rest qs)) ∙ ap (λ l. "" ∷ l) (split-join q qs h.1))
    ∙ ap (λ s. s ∷ q ∷ qs) (append-nil p)

keep_parts :
    (ps : List String) → All (λ s. is_part s ≡ true) ps → select (λ part. not (part == "")) ps ≡ ps
keep_parts [] h = refl
keep_parts (p ∷ ps) h = ground (arith, keep_parts ps h.1, h.0)

join_ne_nil :
    (p : String) (ps : List String) → is_part p ≡ true → (join_event_parts (p ∷ ps) == "") ≡ false
unfolding join_event_parts
join_ne_nil p ps h =
    eq_false (join_event_parts (p ∷ ps)) ""
      (λ e. let empty : p ≡ "" = (append-eq-nil_iff.0 e).0 in ground (arith, eq_true p "" empty))

-- Splitting a name that was joined from parts, none of them empty or with a dot inside, gives the
-- parts back.
pub split_event_type-join :
    (ps : List String)
    → All (λ s. is_part s ≡ true) ps
    → split_event_type (join_event_parts ps) ≡ ps
unfolding split_event_type
split_event_type-join [] h = unfold join_event_parts in refl
split_event_type-join (p ∷ ps) h =
    rw (join_ne_nil p ps h.0)
      (ap (select (λ part. not (part == ""))) (split-join p ps h) ∙ keep_parts (p ∷ ps) h)

-- For a name of at least three parts, none of them empty or with a dot inside, the patterns are
-- the name itself, then the name with a "*" in place of one part, for each part in order, and then
-- as many "*" as there are parts.
pub get_matching_patterns-join :
    (a b c : String) (rest : List String)
    → let parts = a ∷ b ∷ c ∷ rest in
      All (λ s. is_part s ≡ true) parts
      → get_matching_patterns (join_event_parts parts)
        ≡ join_event_parts parts
          ∷ (map join_event_parts (one_wildcard parts)
              ++ join_event_parts (map (λ _. "*") parts) ∷ [])
unfolding get_matching_patterns
get_matching_patterns-join a b c rest h =
    let parts = a ∷ b ∷ c ∷ rest in
    ap (patterns_of_parts (join_event_parts parts)) (split_event_type-join parts h)
