-- ===== src/EventStore/File/Feed/Sorted.antt =====
-- The order of what ReadAfter of a FileStore returns (file_store.go).
use Prim.Native.Nat.{Ordering}
use mathlib.Core.List.Perm
use mathlib.Core.List.{Perm}
use pericarp.Prelude.{
  String, Bool, Bool-cases, true, false, ◌&&◌, ◌≡◌, refl, ap, sym, subst, none, ◌++◌, select-append,
  ◌∙◌, inl, inr, ℕ, zero, suc, Option, Option-cases, some, List, [], ◌∷◌, All, All-append, select,
  take, length, arith,
}
use pericarp.Prelude.Int.{ℤ, pos, pos_part, ltb_ℤ, leb_ℤ}
use pericarp.Prelude.Dict.{Dict}
use pericarp.Event.{Envelope}
use pericarp.EventStore.Memory.{sort_by, insert_by}
use pericarp.EventStore.File.{FileStore}
use pericarp.EventStore.File.Feed.{
  compare_positions, collect_after, limited, load_entries, load_uncached, read_file_after,
}
use pericarp.EventStore.File.Feed.Loaded.{IsCached, load_entries-IsCached}

module _ {A : Type 0} (cmp : A → A → Ordering) where
  insert_by-Perm : (x : A) (l : List A) → Perm (insert_by cmp x l) (x ∷ l)
  unfolding insert_by
  insert_by-Perm x [] = Perm.refl _
  insert_by-Perm x (y ∷ ys) =
      elim (cmp x y)
        as (λ o.
          Perm
            (elim o [
              | Ordering.gt ↦ y ∷ insert_by cmp x ys
              | Ordering.lt ↦ x ∷ y ∷ ys
              | Ordering.eq ↦ x ∷ y ∷ ys
            ])
            (x ∷ y ∷ ys)) [
              | Ordering.gt ↦ Perm.trans (Perm.cons y (insert_by-Perm x ys)) (Perm.swap x y ys)
              | Ordering.lt ↦ Perm.refl _
              | Ordering.eq ↦ Perm.refl _
            ]

  pub sort_by-Perm : (l : List A) → Perm (sort_by cmp l) l
  unfolding sort_by
  sort_by-Perm [] = Perm.refl _
  sort_by-Perm (x ∷ xs) =
      Perm.trans (insert_by-Perm x (sort_by cmp xs)) (Perm.cons x (sort_by-Perm xs))

module _ {Any : Type 0} where
  abbrev pub IsAscending : List (Envelope Any Any) → Type 0
  IsAscending [] = Unit {0}
  IsAscending (e ∷ es) = All (λ later. leb_ℤ e.position later.position ≡ true) es × IsAscending es

  leb_trans :
      (a b c : Envelope Any Any)
      → leb_ℤ a.position b.position ≡ true
      → leb_ℤ b.position c.position ≡ true
      → leb_ℤ a.position c.position ≡ true
  leb_trans a b c h k = ground (arith, h, k)

  -- Not behind `e`.
  abbrev pub Behind : Envelope Any Any → Envelope Any Any → Type 0
  Behind e later = leb_ℤ e.position later.position ≡ true

  All-Behind :
      (x y : Envelope Any Any) (l : List (Envelope Any Any))
      → Behind x y
      → All (Behind y) l
      → All (Behind x) l
  All-Behind x y [] h rest = tt
  All-Behind x y (z ∷ l) h rest = (leb_trans x y z h rest.0, All-Behind x y l h rest.1)

  All-insert_by :
      (P : Envelope Any Any → Type 0) (x : Envelope Any Any) (l : List (Envelope Any Any))
      → P x
      → All P l
      → All P (insert_by compare_positions x l)
  unfolding insert_by
  All-insert_by P x [] here rest = (here, tt)
  All-insert_by P x (y ∷ ys) here rest =
      elim (compare_positions x y)
        as (λ o. All P (elim o [
          | Ordering.gt ↦ y ∷ insert_by compare_positions x ys
          | Ordering.lt ↦ x ∷ y ∷ ys
          | Ordering.eq ↦ x ∷ y ∷ ys
        ])) [
          | Ordering.gt ↦ (rest.0, All-insert_by P x ys here rest.1)
          | Ordering.lt ↦ (here, rest)
          | Ordering.eq ↦ (here, rest)
        ]

  All-sort_by :
      (P : Envelope Any Any → Type 0) (l : List (Envelope Any Any))
      → All P l
      → All P (sort_by compare_positions l)
  unfolding sort_by
  All-sort_by P [] h = tt
  All-sort_by P (x ∷ xs) h =
      All-insert_by P x (sort_by compare_positions xs) h.0 (All-sort_by P xs h.1)

  insert_by-IsAscending :
      (x : Envelope Any Any) (l : List (Envelope Any Any))
      → IsAscending l
      → IsAscending (insert_by compare_positions x l)
  unfolding insert_by
  insert_by-IsAscending x [] sorted = (tt, tt)
  insert_by-IsAscending x (y ∷ ys) sorted =
      let later = insert_by-IsAscending x ys sorted.1 in
      elim (Bool-cases (ltb_ℤ x.position y.position)) [
        | inl below ↦
            let h : Behind x y = ground (arith, below) in
            rw (below, insert_by, IsAscending) ((h, All-Behind x y ys h sorted.0), sorted)
        | inr not_below ↦ elim (Bool-cases (ltb_ℤ y.position x.position)) [
          | inl above ↦
              rw (not_below, above, insert_by, IsAscending)
                (All-insert_by (Behind y) x ys (ground (arith, above)) sorted.0, later)
          | inr level ↦
              let h : Behind x y = ground (arith, not_below, level) in
              rw (not_below, level, insert_by, IsAscending)
                ((h, All-Behind x y ys h sorted.0), sorted)
        ]
      ]

  sort_by-IsAscending : (l : List (Envelope Any Any)) → IsAscending (sort_by compare_positions l)
  unfolding sort_by
  sort_by-IsAscending [] = tt
  sort_by-IsAscending (x ∷ xs) =
      insert_by-IsAscending x (sort_by compare_positions xs) (sort_by-IsAscending xs)

  All-take :
      (P : Envelope Any Any → Type 0) (n : ℕ) (l : List (Envelope Any Any))
      → All P l
      → All P (take n l)
  All-take P zero l h = tt
  All-take P (suc n) [] h = tt
  All-take P (suc n) (x ∷ xs) h = (h.0, All-take P n xs h.1)

  take-IsAscending : (n : ℕ) (l : List (Envelope Any Any)) → IsAscending l → IsAscending (take n l)
  take-IsAscending zero l h = tt
  take-IsAscending (suc n) [] h = tt
  take-IsAscending (suc n) (x ∷ xs) h = (All-take (Behind x) n xs h.0, take-IsAscending n xs h.1)

  -- Behind the position that ReadAfter resumes from.
  abbrev pub IsAfter : ℤ → Envelope Any Any → Type 0
  IsAfter after_position e = ltb_ℤ after_position e.position ≡ true

  select-IsAfter :
      (after_position : ℤ) (l : List (Envelope Any Any))
      → All (IsAfter after_position) (select (λ e. ltb_ℤ after_position e.position) l)
  select-IsAfter after_position [] = tt
  select-IsAfter after_position (e ∷ es) =
      let later = select-IsAfter after_position es in
      elim (Bool-cases (ltb_ℤ after_position e.position)) [
        | inl after ↦ rw after (after, later)
        | inr before ↦ rw before later
      ]

  collect_after-IsAfter :
      (after_position : ℤ) (cache : Dict (List (Envelope Any Any)))
      → All (IsAfter after_position) (collect_after after_position cache)
  unfolding collect_after
  collect_after-IsAfter after_position [] = tt
  collect_after-IsAfter after_position ((id, events) ∷ rest) =
      All-append (IsAfter after_position) (select (λ e. ltb_ℤ after_position e.position) events)
        (collect_after after_position rest) (select-IsAfter after_position events)
        (collect_after-IsAfter after_position rest)

  limited-lem :
      (P : List (Envelope Any Any) → Type 0) (limit : ℤ) (l : List (Envelope Any Any))
      → P l
      → ((n : ℕ) → P (take n l))
      → P (limited limit l)
  limited-lem P limit l whole cut =
      elim (Bool-cases (ltb_ℤ (pos 0) limit && ltb_ℤ limit (pos (length l)))) [
        | inl longer ↦ rw longer (cut (pos_part limit))
        | inr fits ↦ rw fits whole
      ]

  -- No limit, which a limit that is not positive stands for.
  limited-none :
      (limit : ℤ) (l : List (Envelope Any Any)) → ltb_ℤ (pos 0) limit ≡ false → limited limit l ≡ l
  limited-none limit l none_set = ground (arith, none_set)

  -- All the events of the cache.
  abbrev pub cached_events : Dict (List (Envelope Any Any)) → List (Envelope Any Any)
  cached_events [] = []
  cached_events ((id, events) ∷ rest) = events ++ cached_events rest

  collect_after-select :
      (after_position : ℤ) (cache : Dict (List (Envelope Any Any)))
      → collect_after after_position cache
        ≡ select (λ e. ltb_ℤ after_position e.position) (cached_events cache)
  unfolding collect_after
  collect_after-select after_position [] = refl
  collect_after-select after_position ((id, events) ∷ rest) =
      ap (λ l. select (λ e. ltb_ℤ after_position e.position) events ++ l)
        (collect_after-select after_position rest)
      ∙ sym (select-append (λ e. ltb_ℤ after_position e.position) events (cached_events rest))

  -- A read that returns events has listed the directory and loaded its files.
  loads :
      (marshal : List (Envelope Any Any) → Option String)
      (unmarshal : String → Option (List (Envelope Any Any))) (base : String → String)
      (listable readable : Bool) (s : FileStore Any)
      → (load_uncached marshal unmarshal base listable readable s).1 ≡ none
      → load_uncached marshal unmarshal base listable readable s
        ≡ load_entries marshal unmarshal base readable s.files s
  unfolding load_uncached
  loads marshal unmarshal base true readable s works = refl
  loads marshal unmarshal base false readable s works = absurd (cc works)

  -- ReadAfter of a FileStore, when it returns events: they are in ascending order of their
  -- positions and all behind the given one; with a limit of zero or less they are all the events
  -- behind it in the cache, each as often as it is there. For every aggregate the cache holds what
  -- it held before or else what the aggregate's file reads as, if there is one, and nothing else.
  pub read_file_after-IsAscending :
      (marshal : List (Envelope Any Any) → Option String)
      (unmarshal : String → Option (List (Envelope Any Any))) (base : String → String)
      (listable readable : Bool) (after_position limit : ℤ) (s : FileStore Any)
      (l : List (Envelope Any Any))
      → let r = read_file_after marshal unmarshal base listable readable after_position limit s in
        r.1 ≡ some l
        → IsAscending l
          × All (IsAfter after_position) l
          × (ltb_ℤ (pos 0) limit ≡ false
              → Perm l (select (λ e. ltb_ℤ after_position e.position) (cached_events r.0.cache)))
          × ((name : String) → IsCached marshal unmarshal base readable s s.files r.0 name)
  unfolding read_file_after
  read_file_after-IsAscending marshal unmarshal base listable readable after_position limit s l
        given =
      let run = load_uncached marshal unmarshal base listable readable s in
      let found = collect_after after_position run.0.cache in
      let sorted = sort_by compare_positions found in
      elim (Option-cases run.1) [
        | inr (e, failed) ↦ ground (arith, failed, given)
        | inl works ↦
            let same : limited limit sorted ≡ l = ground (arith, works, given) in
            let listed = loads marshal unmarshal base listable readable s works in
            let ascending = sort_by-IsAscending found in
            let behind =
              All-sort_by (IsAfter after_position) found
                (collect_after-IsAfter after_position run.0.cache) in
            (
              subst IsAscending same (
                  limited-lem IsAscending limit sorted ascending
                    (λ n. take-IsAscending n sorted ascending)),
              subst (All (IsAfter after_position)) same (
                  limited-lem (All (IsAfter after_position)) limit sorted behind
                    (λ n. All-take (IsAfter after_position) n sorted behind)),
              λ none_set. subst (Perm l) (collect_after-select after_position run.0.cache) (
                  subst (λ k. Perm k found) (sym (limited-none limit sorted none_set) ∙ same)
                    (sort_by-Perm compare_positions found)),
              λ name.
                  subst (λ p. IsCached marshal unmarshal base readable s s.files p.0 name)
                    (sym listed)
                    (load_entries-IsCached marshal unmarshal base readable name s.files s
                      (ap (λ p. p.1) (sym listed) ∙ works)),
            )
      ]
