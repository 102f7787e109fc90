-- ===== src/UnitOfWork/Persist.antt =====
-- The persisting loop of a SimpleUnitOfWork's Commit, over any event store (unitofwork.go).
use mathlib.Core.List.{map-append}
use pericarp.Prelude.{
  String, ◌≡◌, refl, ap, sym, subst, ◌∙◌, Option, none, some, List, [], ◌∷◌, ◌++◌, append-nil,
  append_assoc, map, Option-cases, inl, inr,
}
use pericarp.Prelude.Int.{ℤ, pos}
use pericarp.Prelude.Dict.{Dict, get_or}
use pericarp.Event.{Envelope, StoreError}
use pericarp.EventStore.Contract.{EventStore, unplaced}
use pericarp.UnitOfWork.{UowError, failed_to_persist, all_events, persist}

module _ {Any : Type 0} (S : EventStore Any) where
  -- The store's log with what was appended, up to the positions.
  abbrev pub Grows : S.Store → List (Envelope Any Any) → S.Store → Type 0
  Grows s events s' =
      map unplaced (S.contents s') ≡ map unplaced (S.contents s) ++ map unplaced events

  Grows-append :
      (s t u : S.Store) (xs ys : List (Envelope Any Any))
      → Grows s xs t
      → Grows t ys u
      → Grows s (xs ++ ys) u
  Grows-append s t u xs ys h k =
      k
      ∙ ap (λ l. l ++ map unplaced ys) h
      ∙ append_assoc (map unplaced (S.contents s)) (map unplaced xs) (map unplaced ys)
      ∙ ap (λ l. map unplaced (S.contents s) ++ l) (sym (map-append unplaced xs ys))

  abbrev pub attempt :
      Dict ℤ → String → List (Envelope Any Any) → S.Store → S.Store × Option StoreError
  attempt versions a events s = S.append a (get_or versions a (pos 0)) events s

  pub persist_next :
      (versions : Dict ℤ) (a : String) (events : List (Envelope Any Any))
      (rest : Dict (List (Envelope Any Any))) (s : S.Store)
      → (attempt versions a events s).1 ≡ none
      → persist S versions ((a, events) ∷ rest) s
        ≡ persist S versions rest (attempt versions a events s).0
  unfolding persist
  persist_next versions a events rest s h = rw (h, persist)

  pub persist_stop :
      (versions : Dict ℤ) (a : String) (events : List (Envelope Any Any))
      (rest : Dict (List (Envelope Any Any))) (s : S.Store) (x : StoreError)
      → (attempt versions a events s).1 ≡ some x
      → persist S versions ((a, events) ∷ rest) s
        ≡ ((attempt versions a events s).0, some (failed_to_persist a x))
  unfolding persist
  persist_stop versions a events rest s x h = rw (h, persist)

  pub persist_stored :
      (versions : Dict ℤ) (batches : Dict (List (Envelope Any Any))) (s : S.Store)
      → (persist S versions batches s).1 ≡ none
      → Grows s (all_events batches) (persist S versions batches s).0
  persist_stored versions [] s h = unfold persist in sym (append-nil (map unplaced (S.contents s)))
  persist_stored versions ((a, events) ∷ rest) s h =
      elim (Option-cases (attempt versions a events s).1) [
        | inl done ↦
            let next = persist_next versions a events rest s done in
            let s' = (attempt versions a events s).0 in
            subst (λ (r : S.Store × Option UowError). Grows s (events ++ all_events rest) r.0)
              (sym next)
              (Grows-append s s' (persist S versions rest s').0 events (all_events rest)
                (S.append_stored a (get_or versions a (pos 0)) events s done)
                (persist_stored versions rest s'
                  (subst (λ (r : S.Store × Option UowError). r.1 ≡ none) next h)))
        | inr (x, failed) ↦ absurd (
            cc (
              h,
              ap (λ (r : S.Store × Option UowError). r.1)
                  (persist_stop versions a events rest s x failed),
            ))
      ]

  -- How a failed run of the persisting loop ended: the batches before the refused one are stored,
  -- which brought the store to `reached`, and there it refused the next one and added nothing.
  pub record Stopped (versions : Dict ℤ) (batches : Dict (List (Envelope Any Any))) (s s' : S.Store)
      (x : UowError) : Type 0 where
    pub before : Dict (List (Envelope Any Any))
    pub aggregate_id : String
    pub refused : List (Envelope Any Any)
    pub after : Dict (List (Envelope Any Any))
    pub reason : StoreError
    pub order : batches ≡ before ++ (aggregate_id, refused) ∷ after
    pub reached : S.Store
    pub stored : Grows s (all_events before) reached
    pub asked :
        S.append aggregate_id (get_or versions aggregate_id (pos 0)) refused reached
        ≡ (s', some reason)
    pub kept : Grows s (all_events before) s'
    pub error : x ≡ failed_to_persist aggregate_id reason

  pub persist-Stopped :
      (versions : Dict ℤ) (batches : Dict (List (Envelope Any Any))) (s : S.Store) (x : UowError)
      → (persist S versions batches s).1 ≡ some x
      → Stopped versions batches s (persist S versions batches s).0 x
  persist-Stopped versions [] s x h = absurd (unfold persist in cc)
  persist-Stopped versions ((a, events) ∷ rest) s x h =
      elim (Option-cases (attempt versions a events s).1) [
        | inl done ↦
            let next = persist_next versions a events rest s done in
            let s' = (attempt versions a events s).0 in
            let later =
              persist-Stopped versions rest s' x
                (subst (λ (r : S.Store × Option UowError). r.1 ≡ some x) next h) in
            subst (λ (r : S.Store × Option UowError). Stopped versions ((a, events) ∷ rest) s r.0 x)
              (sym next)
              (record {
                before = (a, events) ∷ later.before;
                aggregate_id = later.aggregate_id;
                refused = later.refused;
                after = later.after;
                reason = later.reason;
                order = ap (λ l. (a, events) ∷ l) later.order;
                reached = later.reached;
                stored =
                    Grows-append s s' later.reached events (all_events later.before)
                      (S.append_stored a (get_or versions a (pos 0)) events s done) later.stored;
                asked = later.asked;
                kept =
                    Grows-append s s' (persist S versions rest s').0 events
                      (all_events later.before)
                      (S.append_stored a (get_or versions a (pos 0)) events s done) later.kept;
                error = later.error;
              })
        | inr (y, failed) ↦
            let stop = persist_stop versions a events rest s y failed in
            subst (λ (r : S.Store × Option UowError). Stopped versions ((a, events) ∷ rest) s r.0 x)
              (sym stop)
              (record {
                before = [];
                aggregate_id = a;
                refused = events;
                after = rest;
                reason = y;
                order = refl;
                reached = s;
                stored = sym (append-nil (map unplaced (S.contents s)));
                asked = ap (λ e. ((attempt versions a events s).0, e)) failed;
                kept =
                    ap (λ t. map unplaced (S.contents t))
                      (S.append_failed a (get_or versions a (pos 0)) events s y failed)
                    ∙ sym (append-nil (map unplaced (S.contents s)));
                error = cc (h, ap (λ (r : S.Store × Option UowError). r.1) stop);
              })
      ]
