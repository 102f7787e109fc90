-- ===== src/Tests/Entity.antt =====
-- The entity's theorems at concrete inputs.
use pericarp.Prelude.{String, ◌≡◌, refl, ℕ, Option, none, some, List, [], ◌∷◌, arith, inl}
use pericarp.Prelude.Int.{pos, ◌+ℤ◌}
use pericarp.Entity.{BaseEntity, restore_base_entity, clear_uncommitted_events, record_event}
use pericarp.Entity.Record.{Draft, replay, record_all, replay-record_all}
use pericarp.Entity.Numbered.{IsNumbered, record_all-numbers}

abbrev anonymous : ℕ → Option String
anonymous n = none

abbrev of_other : ℕ → Option String
of_other n = some "b"

abbrev first_draft : Draft ℕ
first_draft = record { id = "e1"; now = 7; payload = 1; event_type = "order.created" }

abbrev second_draft : Draft ℕ
second_draft = record { id = "e2"; now = 8; payload = 2; event_type = "order.updated" }

abbrev drafts : List (Draft ℕ)
drafts = first_draft ∷ second_draft ∷ []

abbrev recorded : BaseEntity ℕ
recorded = record_all anonymous drafts (restore_base_entity "a" (pos 5))

replay-record_all_example :
    replay recorded.uncommitted_events (restore_base_entity "a" (pos 5))
    ≡ (clear_uncommitted_events recorded, none)
replay-record_all_example =
    replay-record_all anonymous drafts "a" (pos 5) (inl refl, (inl refl, tt))

record_all-numbers_example : IsNumbered 5 recorded
record_all-numbers_example = record_all-numbers anonymous drafts "a" 5 (omega arith)

recorded_number : recorded.sequence_no ≡ pos 7
unfolding record_all record_event ◌+ℤ◌
recorded_number = refl
