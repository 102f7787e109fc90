-- ===== src/EventStore/File/Feed/Loaded.antt =====
-- What is in the cache of a FileStore behind loadUncachedLocked (file_store.go).
use pericarp.Prelude.{
  String, ◌==◌, eq_iff, Bool, Bool-cases, ◌≡◌, refl, sym, subst, ap, ◌∙◌, inl, inr, Option,
  Option-cases, none, some, List, [], ◌∷◌, arith,
}
use pericarp.Prelude.Dict.{Dict, get, put, get-put}
use pericarp.Event.{Envelope}
use pericarp.EventStore.File.{FileStore, FileError, load_failed, load_from_file}
use pericarp.EventStore.File.Feed.{load_entries}

module _ {Any : Type 0} (marshal : List (Envelope Any Any) → Option String)
    (unmarshal : String → Option (List (Envelope Any Any))) (base : String → String)
    (readable : Bool) where
  -- What the cache holds for an aggregate, from the cache of `s` and the given files: the events
  -- that were cached, or those that its file reads as, or nothing.
  pub record IsCached (s : FileStore Any) (entries : Dict String) (s' : FileStore Any)
      (name : String) : Type 0 where
    pub kept :
        (events : List (Envelope Any Any))
        → get s.cache name ≡ some events
        → get s'.cache name ≡ some events
    pub loaded :
        (text : String)
        → get s.cache name ≡ none
        → get entries name ≡ some text
        → (events : List (Envelope Any Any)) × (load_from_file marshal unmarshal base readable name
              s.files
            ≡ some events)
          × (get s'.cache name ≡ some events)
    pub no_more : get s.cache name ≡ none → get entries name ≡ none → get s'.cache name ≡ none

  module _ (name : String) (n text : String) (entries : Dict String) (s : FileStore Any) where
    pub loads_hit :
        (events : List (Envelope Any Any))
        → get s.cache n ≡ some events
        → load_entries marshal unmarshal base readable ((n, text) ∷ entries) s
          ≡ load_entries marshal unmarshal base readable entries s
    unfolding load_entries
    loads_hit events hit = rw (hit, load_entries) refl

    pub loads_file :
        (events : List (Envelope Any Any))
        → get s.cache n ≡ none
        → load_from_file marshal unmarshal base readable n s.files ≡ some events
        → load_entries marshal unmarshal base readable ((n, text) ∷ entries) s
          ≡ load_entries marshal unmarshal base readable entries
              (record s { cache = put s.cache n events })
    unfolding load_entries
    loads_file events missing read = rw (missing, read, load_entries) refl

    loads_none :
        get s.cache n ≡ none
        → load_from_file marshal unmarshal base readable n s.files ≡ none
        → (load_entries marshal unmarshal base readable ((n, text) ∷ entries) s).1
          ≡ some load_failed
    unfolding load_entries
    loads_none missing failed = rw (missing, failed, load_entries) refl

    -- An entry whose aggregate is in the cache.
    hit-IsCached :
        (s' : FileStore Any) (events : List (Envelope Any Any))
        → get s.cache n ≡ some events
        → IsCached s entries s' name
        → IsCached s ((n, text) ∷ entries) s' name
    unfolding get
    hit-IsCached s' events hit rest = elim (Bool-cases (n == name)) [
      | inl same ↦
          let here = (eq_iff n name).0 same in
          record {
            kept = rest.kept;
            loaded = λ t missing _. absurd (cc (here, hit, missing));
            no_more = λ missing _. absurd (cc (here, hit, missing));
          }
      | inr differ ↦ record {
        kept = rest.kept;
        loaded = λ t missing h. rest.loaded t missing (ground (arith, differ, h));
        no_more = λ missing h. rest.no_more missing (ground (arith, differ, h));
      }
    ]

    -- An entry whose file is read.
    file-IsCached :
        (s' : FileStore Any) (events : List (Envelope Any Any))
        → get s.cache n ≡ none
        → load_from_file marshal unmarshal base readable n s.files ≡ some events
        → IsCached (record s { cache = put s.cache n events }) entries s' name
        → IsCached s ((n, text) ∷ entries) s' name
    unfolding get
    file-IsCached s' events missing read rest =
        let looked = get-put s.cache n events name in
        elim (Bool-cases (n == name)) [
          | inl same ↦
              let here = (eq_iff n name).0 same in
              record {
                kept = λ xs h. absurd (cc (here, h, missing));
                loaded = λ t _ h. (
                  events,
                  subst
                      (λ k. load_from_file marshal unmarshal base readable k s.files ≡ some events)
                      here read,
                  rest.kept events (ground (arith, looked, same)),
                );
                no_more = λ _ h. absurd (ground (arith, same, h));
              }
          | inr differ ↦
              let apart : get (put s.cache n events) name ≡ get s.cache name =
                ground (arith, looked, differ) in
              record {
                kept = λ xs h. rest.kept xs (apart ∙ h);
                loaded =
                    λ t none_yet h. rest.loaded t (apart ∙ none_yet) (ground (arith, differ, h));
                no_more = λ none_yet h. rest.no_more (apart ∙ none_yet) (ground (arith, differ, h));
              }
        ]

  pub load_entries-IsCached :
      (name : String) (entries : Dict String) (s : FileStore Any)
      → (load_entries marshal unmarshal base readable entries s).1 ≡ none
      → IsCached s entries (load_entries marshal unmarshal base readable entries s).0 name
  load_entries-IsCached name [] s works =
      unfold load_entries in
      unfold get in record { kept = λ xs h. h; loaded = λ t _ h. absurd (cc h); no_more = λ h _. h }
  load_entries-IsCached name ((n, text) ∷ entries) s works = elim (Option-cases (get s.cache n)) [
    | inr (events, hit) ↦
        let same = loads_hit name n text entries s events hit in
        subst (λ (p : FileStore Any × Option FileError). IsCached s ((n, text) ∷ entries) p.0 name)
          (sym same)
          (hit-IsCached name n text entries s
            (load_entries marshal unmarshal base readable entries s).0 events hit
            (load_entries-IsCached name entries s (ap (λ p. p.1) (sym same) ∙ works)))
    | inl missing ↦ elim (Option-cases (load_from_file marshal unmarshal base readable n s.files)) [
      | inl failed ↦ absurd (cc (works, loads_none name n text entries s missing failed))
      | inr (events, read) ↦
          let t : FileStore Any = record s { cache = put s.cache n events } in
          let same = loads_file name n text entries s events missing read in
          subst
            (λ (p : FileStore Any × Option FileError). IsCached s ((n, text) ∷ entries) p.0 name)
            (sym same)
            (file-IsCached name n text entries s
              (load_entries marshal unmarshal base readable entries t).0 events missing read
              (load_entries-IsCached name entries t (ap (λ p. p.1) (sym same) ∙ works)))
    ]
  ]
