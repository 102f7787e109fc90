-- ===== src/EventStore/File/Durable.antt =====
-- What Append of a FileStore changes and what it keeps, in the cache and on disk (file_store.go).
use pericarp.Prelude.{
  String, eq_refl, eq_false, Bool, Bool-cases, true, ◌≡◌, ◌≢◌, refl, sym, ap, subst, ◌∙◌, ◌⊎◌, inl,
  inr, Option, Option-cases, none, some, List, ◌∷◌, ◌++◌,
}
use pericarp.Prelude.Int.{ℤ}
use pericarp.Prelude.Dict.{Dict, get, put, get-put}
use pericarp.Event.{Envelope, invalid_event}
use pericarp.EventStore.Memory.{is_valid_batch}
use pericarp.EventStore.File.{
  FileStore, FileError, refused, load_failed, place_events, load_from_file, append_to, append_file,
  close_file,
}
use pericarp.EventStore.File.Placed.{numbered, counted, place_events-numbered}
use pericarp.EventStore.File.Append.{
  view, view-load, saved, conflicted, unsaved, stored, append_to-Ending,
}

module _ {Any : Type 0} (marshal : List (Envelope Any Any) → Option String)
    (unmarshal : String → Option (List (Envelope Any Any))) (base : String → String) where
  -- `t` is `s` with the events of an aggregate in the cache.
  record IsLoaded (s : FileStore Any) (id : String) (t : FileStore Any)
      (current : List (Envelope Any Any)) : Type 0 where
    same_files : t.files ≡ s.files
    same_pos : t.last_pos ≡ s.last_pos
    cached : get t.cache id ≡ some current
    same_view : (j : String) → view marshal unmarshal base t j ≡ view marshal unmarshal base s j

  -- An Append of events is refused at once, or goes on from the events in the cache.
  append_file-cases :
      (writable : Bool) (id : String) (v : ℤ) (first : Envelope Any Any)
      (rest : List (Envelope Any Any)) (s : FileStore Any)
      → let r = append_file marshal unmarshal base true writable id v (first ∷ rest) s in
        ((e : FileError) × (r ≡ (s, some e)))
        ⊎ ((t : FileStore Any) × (current : List (Envelope Any Any)) × IsLoaded s id t current
            × (r ≡ append_to marshal unmarshal base writable id v (first ∷ rest) current t))
  unfolding append_file
  append_file-cases writable id v first rest s =
      elim (Bool-cases (is_valid_batch id (first ∷ rest))) [
        | inr invalid ↦ inl (refused invalid_event, rw (invalid, append_file) refl)
        | inl valid ↦ elim (Option-cases (get s.cache id)) [
          | inr (current, hit) ↦ inr (
            s,
            current,
            record { same_files = refl; same_pos = refl; cached = hit; same_view = λ j. refl },
            rw (valid, hit, append_file) refl,
          )
          | inl missing ↦
              elim (Option-cases (load_from_file marshal unmarshal base true (base id) s.files)) [
                | inl failed ↦ inl (load_failed, rw (valid, missing, failed, append_file) refl)
                | inr (loaded, read) ↦
                    let t : FileStore Any = record s { cache = put s.cache id loaded } in
                    inr (
                      t,
                      loaded,
                      record {
                        same_files = refl;
                        same_pos = refl;
                        cached = rw (get-put s.cache id loaded id, eq_refl id) refl;
                        same_view = view-load marshal unmarshal base s id loaded missing read;
                      },
                      rw (valid, missing, read, append_file) refl,
                    )
              ]
        ]
      ]

  -- The files, and what GetEvents answers for every aggregate.
  abbrev pub IsUnchanged : FileStore Any → FileStore Any → Type 0
  IsUnchanged s s' =
      (s'.files ≡ s.files)
      × ((j : String) → view marshal unmarshal base s' j ≡ view marshal unmarshal base s j)

  -- Behind a successful Append of `events`, from the events `current` that the aggregate had.
  pub record IsStored (s : FileStore Any) (id : String) (events current : List (Envelope Any Any))
      (s' : FileStore Any) : Type 0 where
    pub had : view marshal unmarshal base s id ≡ some current
    pub has : view marshal unmarshal base s' id ≡ some (current ++ numbered s.last_pos events)
    pub has_on_disk :
        view marshal unmarshal base (close_file s') id
        ≡ some (current ++ numbered s.last_pos events)
    pub head : s'.last_pos ≡ counted s.last_pos events
    pub others :
        (j : String)
        → base j ≢ base id
        → view marshal unmarshal base s' j ≡ view marshal unmarshal base s j

  -- A loaded aggregate is seen from the cache.
  view-cached :
      (s : FileStore Any) (j : String) (events : List (Envelope Any Any))
      → get s.cache j ≡ some events
      → view marshal unmarshal base s j ≡ some events
  view-cached s j events hit = rw (hit, view) refl

  load-put :
      (files : Dict String) (name text : String) (events : List (Envelope Any Any))
      → text ≢ ""
      → unmarshal text ≡ some events
      → load_from_file marshal unmarshal base true name (put files name text) ≡ some events
  unfolding load_from_file
  load-put files name text events not_empty back =
      rw (get-put files name text name, eq_refl name, eq_false text "" not_empty, load_from_file)
        back

  -- An aggregate with another file does not see what is saved.
  view-saved_other :
      (s : FileStore Any) (id text : String) (events : List (Envelope Any Any)) (last_pos : ℤ)
      (j : String)
      → base j ≢ base id
      → view marshal unmarshal base
          (record {
            files = put s.files (base id) text;
            cache = put s.cache id events;
            last_pos = last_pos;
          })
          j
        ≡ view marshal unmarshal base s j
  unfolding load_from_file
  view-saved_other s id text events last_pos j apart =
      let other_file = eq_false (base id) (base j) (λ e. apart (sym e)) in
      let other = eq_false id j (λ e. apart (sym (ap base e))) in
      elim (Option-cases (get s.cache j)) [
        | inr (hit, found) ↦ rw (get-put s.cache id events j, other, found, view) refl
        | inl missing ↦
            rw
              (
                get-put s.cache id events j,
                other,
                missing,
                get-put s.files (base id) text (base j),
                other_file,
                view,
                load_from_file,
              )
              refl
      ]

  saved-IsStored :
      (writable : Bool) (id : String) (v : ℤ) (events current : List (Envelope Any Any))
      (s t : FileStore Any) (text : String)
      → IsLoaded s id t current
      → text ≢ ""
      → unmarshal text ≡ some (current ++ numbered s.last_pos events)
      → IsStored s id events current
          (saved marshal unmarshal base writable id v events current t text)
  unfolding close_file get
  saved-IsStored writable id v events current s t text loaded not_empty back =
      let longer = (place_events events t.last_pos current).1 in
      let places =
        ap (λ p. place_events events p current) loaded.same_pos
        ∙ place_events-numbered events s.last_pos current in
      record {
        had = sym (loaded.same_view id) ∙ view-cached t id current loaded.cached;
        has = rw (get-put t.cache id longer id, eq_refl id, view) (ap (λ p. some p.1) places);
        has_on_disk =
            load-put t.files (base id) text (current ++ numbered s.last_pos events) not_empty back;
        head = ap (λ p. p.0) places;
        others = λ j apart.
            view-saved_other t id text longer (place_events events t.last_pos current).0 j apart
            ∙ loaded.same_view j;
      }

  -- json.Unmarshal reads back the events of an aggregate behind an Append, and what json.Marshal
  -- makes of them is not empty.
  abbrev pub ReadsBack : FileStore Any → String → List (Envelope Any Any) → Type 0
  ReadsBack s id events =
      (current : List (Envelope Any Any))
      → view marshal unmarshal base s id ≡ some current
      → (text : String) → marshal (current ++ numbered s.last_pos events) ≡ some text
      → (text ≢ "") × (unmarshal text ≡ some (current ++ numbered s.last_pos events))

  -- A successful Append of a FileStore, of at least one event and where a file that exists can be
  -- read, is seen by GetEvents and is on disk: behind it the aggregate has its events from before
  -- and then the new ones, at the next positions one after the other, in memory and again when the
  -- cache is gone (Close), and the head is the position of the last of them; aggregates with another
  -- file are seen as before. This asks that json.Unmarshal reads back what json.Marshal makes of the
  -- aggregate's events.
  pub append_file-IsStored :
      (writable : Bool) (id : String) (v : ℤ) (first : Envelope Any Any)
      (rest : List (Envelope Any Any)) (s : FileStore Any)
      → ReadsBack s id (first ∷ rest)
      → let r = append_file marshal unmarshal base true writable id v (first ∷ rest) s in
        r.1 ≡ none → (current : List (Envelope Any Any)) × IsStored s id (first ∷ rest) current r.0
  append_file-IsStored writable id v first rest s codec works =
      elim (append_file-cases writable id v first rest s) [
        | inl (e, ends) ↦ absurd (cc (ap (λ r. r.1) ends, works))
        | inr (t, current, loaded, ends) ↦
            elim (append_to-Ending marshal unmarshal base writable id v (first ∷ rest) current t) [
              | conflicted _ stops ↦ absurd (cc (ap (λ r. r.1) (ends ∙ stops), works))
              | unsaved _ stops ↦ absurd (cc (ap (λ r. r.1) (ends ∙ stops), works))
              | stored _ text given saves ↦
                  let had = sym (loaded.same_view id) ∙ view-cached t id current loaded.cached in
                  let same =
                    ap (λ p. marshal (place_events (first ∷ rest) p current).1) loaded.same_pos
                    ∙ ap (λ p. marshal p.1)
                        (place_events-numbered (first ∷ rest) s.last_pos current) in
                  let (not_empty, back) = codec current had text (sym same ∙ given) in
                  (
                    current,
                    subst (λ r. IsStored s id (first ∷ rest) current r.0) (sym (ends ∙ saves))
                        (saved-IsStored writable id v (first ∷ rest) current s t text loaded
                          not_empty back),
                  )
            ]
      ]
