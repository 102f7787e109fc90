-- ===== src/UnitOfWork/Commit.antt =====
-- Commit of a SimpleUnitOfWork past its collecting loop (unitofwork.go).
use mathlib.Core.List.Perm
use mathlib.Core.List.{Perm}
use pericarp.Prelude.{
  String, Bool, true, false, ◌≡◌, refl, ap, sym, subst, ◌∙◌, ℕ, none, some, List, [], append-nil,
  if◌then◌else◌, Option-cases, inl, inr,
}
use pericarp.Prelude.Dict.{Dict}
use pericarp.Event.{Envelope}
use pericarp.Entity.{clear_uncommitted_events}
use pericarp.EventStore.Contract.{EventStore}
use pericarp.UnitOfWork.{
  UnitOfWork, UowError, Heap, collect, stamp_all, all_events, clear_all, persist, Committed,
  commit_events, new_unit_of_work,
}
use pericarp.UnitOfWork.Persist.{Grows, Stopped, persist_stored, persist-Stopped}
use pericarp.UnitOfWork.Batches.{
  is_listed, all_events-perm, clear_all-eq, nothing_collected, tracked_events, all_events-tracked,
  given, no_events, clear_nothing,
}

module _ {Any : Type 0} (S : EventStore Any) where
  -- What a Commit without error did.
  pub record Succeeded (transaction_id : String) (has_dispatcher : Bool) (u : UnitOfWork)
      (h : Heap Any) (s : S.Store) (c : Committed S) : Type 0 where
    pub appended : List (Envelope Any Any)
    pub stored : Grows S s appended c.store
    pub all_stored : Perm appended (tracked_events transaction_id h u.entities)
    pub heap :
        (r : ℕ)
        → c.heap r ≡ (if is_listed r u.entities then clear_uncommitted_events (h r) else h r)
    pub untracked : c.unit_of_work ≡ new_unit_of_work
    pub dispatched : Perm c.dispatched (if has_dispatcher then appended else [])

  -- What a Commit with an error did.
  pub record Failed (batches : Dict (List (Envelope Any Any))) (u : UnitOfWork) (h : Heap Any)
      (s : S.Store) (c : Committed S) (x : UowError) : Type 0 where
    pub stopped : Stopped S u.expected_versions batches s c.store x
    pub heap : (r : ℕ) → c.heap r ≡ h r
    pub untracked : c.unit_of_work ≡ new_unit_of_work
    pub dispatched : c.dispatched ≡ []

  -- The two results of Commit past the persisting loop.
  abbrev done :
      Bool → Dict (List (Envelope Any Any)) → UnitOfWork → Heap Any → S.Store → Committed S
  done d stamping u h s' = record {
    unit_of_work = new_unit_of_work;
    heap = clear_all u.entities h;
    store = s';
    dispatched = if d then all_events stamping else [];
    error = none;
  }

  abbrev given_up : Heap Any → S.Store → UowError → Committed S
  given_up h s' x = record {
    unit_of_work = new_unit_of_work;
    heap = h;
    store = s';
    dispatched = [];
    error = some x;
  }

  commit_events_done :
      (d : Bool) (stamping persisting : Dict (List (Envelope Any Any))) (u : UnitOfWork)
      (h : Heap Any) (s : S.Store)
      → (persist S u.expected_versions persisting s).1 ≡ none
      → commit_events S d stamping persisting u h s
        ≡ done d stamping u h (persist S u.expected_versions persisting s).0
  unfolding commit_events
  commit_events_done d stamping persisting u h s e = rw (e, commit_events)

  commit_events-given_up :
      (d : Bool) (stamping persisting : Dict (List (Envelope Any Any))) (u : UnitOfWork)
      (h : Heap Any) (s : S.Store) (x : UowError)
      → (persist S u.expected_versions persisting s).1 ≡ some x
      → commit_events S d stamping persisting u h s
        ≡ given_up h (persist S u.expected_versions persisting s).0 x
  unfolding commit_events
  commit_events-given_up d stamping persisting u h s x e = rw (e, commit_events)

  pub commit_events-Failed :
      (d : Bool) (stamping persisting : Dict (List (Envelope Any Any))) (u : UnitOfWork)
      (h : Heap Any) (s : S.Store) (x : UowError)
      → (commit_events S d stamping persisting u h s).error ≡ some x
      → Failed persisting u h s (commit_events S d stamping persisting u h s) x
  commit_events-Failed d stamping persisting u h s x e =
      elim (Option-cases (persist S u.expected_versions persisting s).1) [
        | inl stored ↦ absurd (
            cc (
              e,
              ap (λ (c : Committed S). c.error)
                  (commit_events_done d stamping persisting u h s stored),
            ))
        | inr (y, failed) ↦
            let result = commit_events-given_up d stamping persisting u h s y failed in
            let same : y ≡ x = cc (e, ap (λ (c : Committed S). c.error) result) in
            subst (λ c. Failed persisting u h s c x) (sym result)
              (record {
                stopped =
                    persist-Stopped S u.expected_versions persisting s x (failed ∙ ap some same);
                heap = λ r. refl;
                untracked = refl;
                dispatched = refl;
              })
      ]

  pub commit_events-Succeeded :
      (tx : String) (d : Bool) (stamping persisting : Dict (List (Envelope Any Any)))
      (u : UnitOfWork) (h : Heap Any) (s : S.Store)
      → Perm stamping (stamp_all tx (collect h u.entities))
      → Perm persisting (stamp_all tx (collect h u.entities))
      → (commit_events S d stamping persisting u h s).error ≡ none
      → Succeeded tx d u h s (commit_events S d stamping persisting u h s)
  commit_events-Succeeded tx d stamping persisting u h s p q e =
      elim (Option-cases (persist S u.expected_versions persisting s).1) [
        | inr (y, failed) ↦ absurd (
            cc (
              e,
              ap (λ (c : Committed S). c.error)
                  (commit_events-given_up d stamping persisting u h s y failed),
            ))
        | inl stored ↦
            subst (λ c. Succeeded tx d u h s c)
              (sym (commit_events_done d stamping persisting u h s stored))
              (record {
                appended = all_events persisting;
                stored = persist_stored S u.expected_versions persisting s stored;
                all_stored =
                    subst (Perm (all_events persisting)) (all_events-tracked tx h u.entities)
                      (all_events-perm q);
                heap = λ r. clear_all-eq u.entities h r;
                untracked = refl;
                dispatched =
                    given d (all_events stamping) (all_events persisting)
                      (all_events-perm (Perm.trans p (Perm.symm q)));
              })
      ]

  pub commit_nothing :
      (tx : String) (d : Bool) (u : UnitOfWork) (h : Heap Any) (s : S.Store)
      → collect h u.entities ≡ []
      → Succeeded tx d u h s (record {
        unit_of_work = new_unit_of_work;
        heap = h;
        store = s;
        dispatched = [];
        error = none;
      })
  commit_nothing tx d u h s e = record {
    appended = [];
    stored = sym (append-nil _);
    all_stored = subst (Perm []) (all_events-tracked tx h u.entities) (rw e (Perm.refl []));
    heap = λ r. untouched r (is_listed r u.entities) refl;
    untracked = refl;
    dispatched = no_events d;
  }
    where
      untouched :
          (r : ℕ) (listed : Bool)
          → is_listed r u.entities ≡ listed
          → h r ≡ (if is_listed r u.entities then clear_uncommitted_events (h r) else h r)
      untouched r true l = rw l (sym (clear_nothing (h r) (nothing_collected u.entities h r e l)))
      untouched r false l = rw l refl
