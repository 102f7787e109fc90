-- ===== src/EventStore/File/Append.antt =====
-- What a refused Append of a FileStore leaves behind (file_store.go).
use pericarp.Prelude.{
  String, ◌==◌, eq_iff, eq_refl, Bool, Bool-cases, true, false, not, ◌&&◌, ◌≡◌, refl, sym, subst,
  ap, ◌⊎◌, inl, inr, Option, Option-cases, none, some, List,
}
use pericarp.Prelude.Int.{ℤ, negsuc, eqb_ℤ}
use pericarp.Prelude.Dict.{get, put, get-put}
use pericarp.Event.{Envelope, concurrency_conflict}
use pericarp.EventStore.File.{
  FileStore, FileError, refused, save_failed, version_of, place_events, load_from_file,
  save_to_file, finish_append, append_to,
}

module _ {Any : Type 0} (marshal : List (Envelope Any Any) → Option String)
    (unmarshal : String → Option (List (Envelope Any Any))) (base : String → String) where
  -- What GetEvents answers where files can be read.
  abbrev pub view : FileStore Any → String → Option (List (Envelope Any Any))
  view s j = elim (get s.cache j) [
    | some events ↦ some events
    | none ↦ load_from_file marshal unmarshal base true (base j) s.files
  ]

  -- A file that is only taken into the cache is seen as before.
  pub view-load :
      (s : FileStore Any) (id : String) (loaded : List (Envelope Any Any))
      → get s.cache id ≡ none
      → load_from_file marshal unmarshal base true (base id) s.files ≡ some loaded
      → (j : String) → view (record s { cache = put s.cache id loaded }) j ≡ view s j
  view-load s id loaded missing read j = elim (Bool-cases (id == j)) [
    | inl same ↦
        let here : j ≡ id = sym ((eq_iff id j).0 same) in
        subst (λ k. view (record s { cache = put s.cache id loaded }) k ≡ view s k) (sym here)
          (rw (missing, get-put s.cache id loaded id, eq_refl id, view) (sym read))
    | inr differ ↦ rw (get-put s.cache id loaded j, differ, view) refl
  ]

  module _ (writable : Bool) (id : String) (v : ℤ) (events current : List (Envelope Any Any))
      (s : FileStore Any) where
    -- The position and the events of the aggregate behind the loop of Append.
    abbrev pub placed : ℤ × List (Envelope Any Any)
    placed = place_events events s.last_pos current

    abbrev pub saved : String → FileStore Any
    saved text = record {
      files = put s.files (base id) text;
      cache = put s.cache id placed.1;
      last_pos = placed.0;
    }

    abbrev pub is_conflict : Bool
    is_conflict = not (eqb_ℤ v (negsuc 0)) && not (eqb_ℤ (version_of current) v)

    -- The ways in which Append ends once the events are in the cache.
    pub data Ending (r : FileStore Any × Option FileError) : Type 0 where
      conflicted : is_conflict ≡ true → r ≡ (s, some (refused concurrency_conflict)) → Ending r
      unsaved :
          is_conflict ≡ false → r ≡ (record s { last_pos = placed.0 }, some save_failed) → Ending r
      stored :
          is_conflict ≡ false
          → (text : String) → marshal placed.1 ≡ some text
          → r ≡ (saved text, none)
          → Ending r

    save_cases :
        let r = save_to_file marshal unmarshal base writable id placed.1 s.files in
        (r ≡ (s.files, some save_failed))
        ⊎ ((text : String) × (marshal placed.1 ≡ some text)
            × (r ≡ (put s.files (base id) text, none)))
    unfolding save_to_file
    save_cases = elim (Option-cases (marshal placed.1)) [
      | inl failed ↦ inl (rw (failed, save_to_file) refl)
      | inr (text, given) ↦ elim (Bool-cases writable) [
        | inl works ↦ inr (text, given, rw (given, works, save_to_file) refl)
        | inr broken ↦ inl (rw (given, broken, save_to_file) refl)
      ]
    ]

    pub append_to-Ending : Ending (append_to marshal unmarshal base writable id v events current s)
    unfolding append_to finish_append
    append_to-Ending =
        let finish = finish_append id placed.0 placed.1 s in
        elim (Bool-cases is_conflict) [
          | inl conflict ↦ conflicted conflict (rw (conflict, append_to) refl)
          | inr agrees ↦ elim save_cases [
            | inl failed ↦ unsaved agrees (rw (agrees, append_to) (ap finish failed))
            | inr (text, given, saves) ↦
                stored agrees text given (rw (agrees, append_to) (ap finish saves))
          ]
        ]
