-- ===== src/EventStore/File/Feed/Returns.antt =====
-- When ReadAfter of a FileStore returns events (file_store.go).
use pericarp.Prelude.{
  String, ◌==◌, eq_iff, eq_refl, Bool, Bool-cases, true, ◌≡◌, ◌↔◌, refl, ap, ◌∙◌, inl, inr, Option,
  Option-cases, none, some, List, [], ◌∷◌, arith, false,
}
use pericarp.Prelude.Int.{ℤ}
use pericarp.Prelude.Dict.{Dict, get, put, get-put}
use pericarp.Event.{Envelope}
use pericarp.EventStore.File.{FileStore, load_from_file}
use pericarp.EventStore.Memory.{sort_by}
use pericarp.EventStore.File.Feed.{
  compare_positions, collect_after, limited, load_entries, load_uncached, read_file_after,
}
use pericarp.EventStore.File.Feed.Loaded.{loads_hit, loads_file, load_entries-IsCached}

module _ {Any : Type 0} (marshal : List (Envelope Any Any) → Option String)
    (unmarshal : String → Option (List (Envelope Any Any))) (base : String → String)
    (readable : Bool) where
  -- Every one of the files whose aggregate is not in the cache can be loaded.
  abbrev pub AllLoad : Dict String → FileStore Any → Type 0
  AllLoad entries s =
      (name text : String)
      → get s.cache name ≡ none
      → get entries name ≡ some text
      → (events : List (Envelope Any Any)) × (load_from_file marshal unmarshal base readable name
            s.files
          ≡ some events)

  AllLoad-hit :
      (n text : String) (entries : Dict String) (s : FileStore Any)
      (events : List (Envelope Any Any))
      → get s.cache n ≡ some events
      → AllLoad ((n, text) ∷ entries) s
      → AllLoad entries s
  unfolding get
  AllLoad-hit n text entries s events hit all name t missing h = elim (Bool-cases (n == name)) [
    | inl same ↦ absurd (cc ((eq_iff n name).0 same, hit, missing))
    | inr differ ↦ all name t missing (ground (arith, differ, h))
  ]

  AllLoad-file :
      (n text : String) (entries : Dict String) (s : FileStore Any)
      (events : List (Envelope Any Any))
      → AllLoad ((n, text) ∷ entries) s
      → AllLoad entries (record s { cache = put s.cache n events })
  unfolding get
  AllLoad-file n text entries s events all name t missing h =
      let looked = get-put s.cache n events name in
      elim (Bool-cases (n == name)) [
        | inl same ↦ absurd (ground (arith, looked, same, missing))
        | inr differ ↦
            all name t (ground (arith, looked, differ, missing)) (ground (arith, differ, h))
      ]

  load_entries-none :
      (entries : Dict String) (s : FileStore Any)
      → AllLoad entries s
      → (load_entries marshal unmarshal base readable entries s).1 ≡ none
  load_entries-none [] s all = unfold load_entries in refl
  load_entries-none ((n, text) ∷ entries) s all = elim (Option-cases (get s.cache n)) [
    | inr (events, hit) ↦
        ap (λ p. p.1) (loads_hit marshal unmarshal base readable n n text entries s events hit)
        ∙ load_entries-none entries s (AllLoad-hit n text entries s events hit all)
    | inl missing ↦
        let (events, read) = all n text missing (first_entry n text entries) in
        ap (λ p. p.1)
          (loads_file marshal unmarshal base readable n n text entries s events missing read)
        ∙ load_entries-none entries (record s { cache = put s.cache n events })
            (AllLoad-file n text entries s events all)
  ]
    where
      first_entry :
          (n text : String) (entries : Dict String) → get ((n, text) ∷ entries) n ≡ some text
      first_entry n text entries = unfold get in rw (eq_refl n) refl

  -- ReadAfter of a FileStore returns events exactly when the directory can be listed and each file
  -- whose aggregate is not in the cache can be loaded: one that cannot fails the read for all.
  pub read_file_after-returns_iff :
      (listable : Bool) (after_position limit : ℤ) (s : FileStore Any)
      → let r = read_file_after marshal unmarshal base listable readable after_position limit s in
        ((l : List (Envelope Any Any)) × (r.1 ≡ some l)) ↔ ((listable ≡ true) × AllLoad s.files s)
  unfolding read_file_after load_uncached
  read_file_after-returns_iff false after_position limit s =
      (λ (l, given). absurd (cc given), λ (listed, _). absurd (cc listed))
  read_file_after-returns_iff true after_position limit s =
      let run = load_entries marshal unmarshal base readable s.files s in
      (
        λ (l, given). elim (Option-cases run.1) [
          | inr (e, failed) ↦ ground (arith, failed, given)
          | inl works ↦ (
            refl,
            λ name text missing h.
                let (events, read, _) =
                  (load_entries-IsCached marshal unmarshal base readable name s.files s
                      works).loaded
                    text missing h in
                (events, read),
          )
        ],
        λ (_, all). (
          limited limit (sort_by compare_positions (collect_after after_position run.0.cache)),
          rw (load_entries-none s.files s all, read_file_after) refl,
        ),
      )
