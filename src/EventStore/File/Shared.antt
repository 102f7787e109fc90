-- ===== src/EventStore/File/Shared.antt =====
-- Aggregates that share a file, since getFilePath keeps the last path element of an id
-- (file_store.go).
use pericarp.Prelude.{
  String, Bool, Bool-cases, true, ◌≡◌, ◌≢◌, refl, ap, ◌∙◌, inl, inr, Option, none, some, List, ◌∷◌,
}
use pericarp.Prelude.Int.{pos, eqb_ℤ, eqb_ℤ→eq}
use pericarp.Prelude.Dict.{get}
use pericarp.Event.{Envelope, concurrency_conflict}
use pericarp.EventStore.Memory.{is_valid_batch}
use pericarp.EventStore.File.{
  FileStore, refused, version_of, load_from_file, append_to, append_file,
}

-- Two aggregates whose ids end in the same path element share a file: when one of them is on disk
-- with a version other than 0, the first Append of the other, which expects version 0, is refused
-- with a conflict, as long as its events are valid and are not in the cache.
pub shared_file-conflicts :
    {Any : Type 0} (marshal : List (Envelope Any Any) → Option String)
    (unmarshal : String → Option (List (Envelope Any Any))) (base : String → String)
    (writable : Bool) (id other : String) (first : Envelope Any Any)
    (rest stored_events : List (Envelope Any Any)) (s : FileStore Any)
    → base other ≡ base id
    → load_from_file marshal unmarshal base true (base id) s.files ≡ some stored_events
    → version_of stored_events ≢ pos 0
    → get s.cache other ≡ none
    → is_valid_batch other (first ∷ rest) ≡ true
    → (append_file marshal unmarshal base true writable other (pos 0) (first ∷ rest) s).1
      ≡ some (refused concurrency_conflict)
unfolding append_file append_to
shared_file-conflicts marshal unmarshal base writable id other first rest stored_events s shared
      read version missing valid =
    let read_other =
      ap (λ name. load_from_file marshal unmarshal base true name s.files) shared ∙ read in
    elim (Bool-cases (eqb_ℤ (version_of stored_events) (pos 0))) [
      | inl same ↦ absurd (version (eqb_ℤ→eq (version_of stored_events) (pos 0) same))
      | inr differ ↦ rw (valid, missing, read_other, differ, append_file, append_to) refl
    ]
