-- ===== src/EventStore/Memory/Append.antt =====
-- Append of a MemoryStore: what each outcome leaves behind.
use pericarp.Prelude.{
  String, ◌==◌, eq_iff, Bool, true, not, ◌||◌, ◌≡◌, refl, ap, sym, subst, ◌∙◌, none, some, List, [],
  ◌∷◌, ◌++◌, append-nil, arith, select-append, last_or, if◌then◌else◌, Option-cases, inl, inr,
}
use pericarp.Prelude.Int.{ℤ, pos, negsuc, ◌+ℤ◌, eqb_ℤ}
use pericarp.Prelude.Dict.{put, get-put, get_or}
use pericarp.Event.{Envelope, StoreError, concurrency_conflict, invalid_event}
use pericarp.EventStore.Memory.{MemoryStore, is_valid_batch, append_loop, append}
use pericarp.EventStore.Memory.View.{
  place, head_after, of_aggregate, last_version, version_in, IsView, log-append_loop,
  list-append_loop, head-append_loop, events-append_loop, versions-append_loop, by_id-append_loop,
}

-- The version check of Append: no check at -1, else the current version.
abbrev pub accepts : ℤ → ℤ → Bool
accepts expected current = eqb_ℤ expected (negsuc 0) || eqb_ℤ current expected

module _ {Any : Type 0} where
  -- A batch that passes the first loop is of one aggregate.
  batch_of_aggregate :
      (a b : String) (p : ℤ) (es : List (Envelope Any Any))
      → is_valid_batch a es ≡ true
      → of_aggregate b (place p es) ≡ (if a == b then place p es else [])
  unfolding is_valid_batch
  batch_of_aggregate a b p [] h = ground arith
  batch_of_aggregate a b p (e ∷ es) h = ground (
    arith,
    eq_iff e.aggregate_id a,
    eq_iff e.aggregate_id b,
    eq_iff a b,
    batch_of_aggregate a b (p +ℤ pos 1) es,
  )

  last_version-append :
      (v : ℤ) (xs ys : List (Envelope Any Any))
      → last_version v (xs ++ ys) ≡ last_version (last_version v xs) ys
  last_version-append v [] ys = refl
  last_version-append v (x ∷ xs) ys = last_version-append x.sequence_no xs ys

  last_version-place :
      (v p : ℤ) (e : Envelope Any Any) (es : List (Envelope Any Any))
      → last_version v (place p (e ∷ es)) ≡ (last_or e es).sequence_no
  last_version-place v p e [] = refl
  last_version-place v p e (x ∷ es) = last_version-place e.sequence_no (p +ℤ pos 1) x es

  -- The store after an append that is not refused.
  abbrev pub stored :
      String → Envelope Any Any → List (Envelope Any Any) → MemoryStore Any → MemoryStore Any
  stored a e es m =
      let m' = (append_loop (e ∷ es) m (get_or m.events a [])).0 in
      record m' {
        events = put m'.events a (append_loop (e ∷ es) m (get_or m.events a [])).1;
        versions = put m'.versions a (last_or e es).sequence_no;
      }

  -- The three outcomes of an append that has events.
  pub append_outcome :
      (a : String) (v : ℤ) (e : Envelope Any Any) (es : List (Envelope Any Any))
      (m : MemoryStore Any)
      → append a v (e ∷ es) m ≡ (
          if not (is_valid_batch a (e ∷ es))
          then (m, some invalid_event)
          else if accepts v (get_or m.versions a (pos 0))
          then (stored a e es m, none)
          else (m, some concurrency_conflict))
  unfolding append
  append_outcome a v e es m = ground arith

  -- A refused append leaves the store as it was.
  pub append_error_unchanged :
      (a : String) (v : ℤ) (es : List (Envelope Any Any)) (m : MemoryStore Any) {x : StoreError}
      → (append a v es m).1 ≡ some x
      → (append a v es m).0 ≡ m
  unfolding append
  append_error_unchanged a v [] m h = refl
  append_error_unchanged a v (e ∷ es) m h = ground (arith, append_outcome a v e es m)

  -- An append succeeds exactly when its batch is valid and the version check passes.
  pub accepted :
      (a : String) (v : ℤ) (e : Envelope Any Any) (es : List (Envelope Any Any))
      (m : MemoryStore Any)
      → (append a v (e ∷ es) m).1 ≡ none
      → (is_valid_batch a (e ∷ es) ≡ true)
        × (accepts v (get_or m.versions a (pos 0)) ≡ true)
        × ((append a v (e ∷ es) m).0 ≡ stored a e es m)
  accepted a v e es m h = ground (arith, append_outcome a v e es m)

  pub log-stored :
      (a : String) (e : Envelope Any Any) (es : List (Envelope Any Any)) (m : MemoryStore Any)
      → (stored a e es m).log ≡ m.log ++ place m.last_pos (e ∷ es)
  log-stored a e es m = log-append_loop (e ∷ es) m (get_or m.events a [])

  stored_by_aggregate :
      (a : String) (e : Envelope Any Any) (es : List (Envelope Any Any)) (m : MemoryStore Any)
      → is_valid_batch a (e ∷ es) ≡ true
      → IsView m
      → (b : String) → get_or (stored a e es m).events b [] ≡ of_aggregate b (stored a e es m).log
  stored_by_aggregate a e es m valid h b =
      let old = get_or m.events a [] in
      let (m', list) = append_loop (e ∷ es) m old in
      rw (log-stored a e es m) (
        rw select-append (
          rw (batch_of_aggregate a b m.last_pos (e ∷ es) valid) (
            ground (
              arith,
              get-put m'.events a list b,
              list-append_loop (e ∷ es) m old,
              events-append_loop (e ∷ es) m old,
              h.by_aggregate a,
              h.by_aggregate b,
              eq_iff a b,
              append-nil (of_aggregate b m.log),
            ))))

  stored_by_version :
      (a : String) (e : Envelope Any Any) (es : List (Envelope Any Any)) (m : MemoryStore Any)
      → is_valid_batch a (e ∷ es) ≡ true
      → IsView m
      → (b : String)
      → get_or (stored a e es m).versions b (pos 0) ≡ version_in b (stored a e es m).log
  stored_by_version a e es m valid h b =
      let old = get_or m.events a [] in
      let m' = (append_loop (e ∷ es) m old).0 in
      let before = of_aggregate b m.log in
      rw (log-stored a e es m) (
        rw select-append (
          rw (batch_of_aggregate a b m.last_pos (e ∷ es) valid) (
            ground (
              arith,
              get-put m'.versions a (last_or e es).sequence_no b,
              versions-append_loop (e ∷ es) m old,
              h.by_version b,
              eq_iff a b,
              append-nil (of_aggregate b m.log),
              last_version-append (pos 0) before (place m.last_pos (e ∷ es)),
              last_version-place (last_version (pos 0) before) m.last_pos e es,
            ))))

  stored-IsView :
      (a : String) (e : Envelope Any Any) (es : List (Envelope Any Any)) (m : MemoryStore Any)
      → is_valid_batch a (e ∷ es) ≡ true
      → IsView m
      → IsView (stored a e es m)
  stored-IsView a e es m valid h = record {
    by_aggregate = stored_by_aggregate a e es m valid h;
    by_version = stored_by_version a e es m valid h;
    by_id = by_id-append_loop (e ∷ es) m (get_or m.events a []) h.by_id;
  }

  -- Append, refused or not, keeps the per-aggregate lists, the versions and the index by id equal
  -- to the projections of the log.
  pub append-IsView :
      (a : String) (v : ℤ) (es : List (Envelope Any Any)) (m : MemoryStore Any)
      → IsView m
      → IsView (append a v es m).0
  append-IsView a v [] m h = unfold append in h
  append-IsView a v (e ∷ es) m h = elim (Option-cases (append a v (e ∷ es) m).1) [
    | inl done ↦
        let (valid, _, state) = accepted a v e es m done in
        subst IsView (sym state) (stored-IsView a e es m valid h)
    | inr (x, failed) ↦ subst IsView (sym (append_error_unchanged a v (e ∷ es) m failed)) h
  ]

  -- What a successful append adds to the log is its batch, each event at its position.
  pub log-append :
      (a : String) (v : ℤ) (es : List (Envelope Any Any)) (m : MemoryStore Any)
      → (append a v es m).1 ≡ none
      → (append a v es m).0.log ≡ m.log ++ place m.last_pos es
  log-append a v [] m h = unfold append in sym (append-nil m.log)
  log-append a v (e ∷ es) m h =
      ap (λ (t : MemoryStore Any). t.log) (accepted a v e es m h).2 ∙ log-stored a e es m

  pub head-append :
      (a : String) (v : ℤ) (es : List (Envelope Any Any)) (m : MemoryStore Any)
      → (append a v es m).1 ≡ none
      → (append a v es m).0.last_pos ≡ head_after m.last_pos es
  head-append a v [] m h = unfold append in refl
  head-append a v (e ∷ es) m h =
      ap (λ (t : MemoryStore Any). t.last_pos) (accepted a v e es m h).2
      ∙ head-append_loop (e ∷ es) m (get_or m.events a [])
