-- ===== src/EventStore/Memory/Implements.antt =====
-- MemoryStore keeps the promises of the EventStore contract.
use mathlib.Core.List.{map-append}
use pericarp.Prelude.{String, ◌≡◌, refl, ap, ◌∙◌, ℕ, none, List, [], ◌∷◌, ◌++◌, map}
use pericarp.Prelude.Int.{ℤ, pos, ◌+ℤ◌}
use pericarp.Event.{Envelope}
use pericarp.EventStore.Contract.{EventStore, unplaced}
use pericarp.EventStore.Memory.{MemoryStore, append, read_after}
use pericarp.EventStore.Memory.View.{place}
use pericarp.EventStore.Memory.Append.{append_error_unchanged, log-append}
use pericarp.EventStore.Memory.Feed.{IsFeed}
use pericarp.EventStore.Memory.ReadAfter.{read_after_resumes, read_after_empty}

module _ {Any : Type 0} where
  unplaced-place :
      (p : ℤ) (es : List (Envelope Any Any)) → map unplaced (place p es) ≡ map unplaced es
  unplaced-place p [] = refl
  unplaced-place p (e ∷ es) = ap (λ l. unplaced e ∷ l) (unplaced-place (p +ℤ pos 1) es)

  pub contents-append :
      (a : String) (v : ℤ) (es : List (Envelope Any Any)) (m : MemoryStore Any)
      → (append a v es m).1 ≡ none
      → map unplaced (append a v es m).0.log ≡ map unplaced m.log ++ map unplaced es
  contents-append a v es m done =
      ap (map unplaced) (log-append a v es m done)
      ∙ map-append unplaced m.log (place m.last_pos es)
      ∙ ap (λ l. map unplaced m.log ++ l) (unplaced-place m.last_pos es)

  abbrev pub memory_event_store : EventStore Any
  memory_event_store = record {
    Store = MemoryStore Any;
    IsSound = λ m. (head : ℕ) × IsFeed head m;
    contents = λ m. m.log;
    append = append;
    read_after = read_after;
    append_failed = λ a v es m x. append_error_unchanged a v es m;
    append_stored = contents-append;
    read_resumes = λ p limit m x xs sound. read_after_resumes sound.0 p limit m x xs sound.1;
    read_empty = read_after_empty;
  }
