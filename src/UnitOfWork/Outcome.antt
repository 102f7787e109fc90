-- ===== src/UnitOfWork/Outcome.antt =====
-- Commit of a SimpleUnitOfWork as a whole (unitofwork.go), for every order in which its loops may
-- visit the aggregates.
use mathlib.Core.List.{Perm}
use pericarp.Prelude.{
  String, Bool, ◌≡◌, ap, sym, subst, none, some, List, [], ◌∷◌, List-cases, inl, inr,
}
use pericarp.Prelude.Dict.{Dict}
use pericarp.Event.{Envelope}
use pericarp.EventStore.Contract.{EventStore}
use pericarp.UnitOfWork.{
  UnitOfWork, UowError, Heap, collect, stamp_all, Committed, commit_events, commit,
  new_unit_of_work,
}
use pericarp.UnitOfWork.Batches.{tracked_batches, stamp_all-collect}
use pericarp.UnitOfWork.Commit.{
  Succeeded, Failed, commit_events-Failed, commit_events-Succeeded, commit_nothing,
}

module _ {Any : Type 0} (S : EventStore Any)
    (visit revisit : Dict (List (Envelope Any Any)) → Dict (List (Envelope Any Any))) (tx : String)
    (d : Bool) (u : UnitOfWork) (h : Heap Any) (s : S.Store) where
  commit_empty :
      collect h u.entities ≡ []
      → commit S visit revisit tx d u h s ≡ record {
        unit_of_work = new_unit_of_work;
        heap = h;
        store = s;
        dispatched = [];
        error = none;
      }
  unfolding commit
  commit_empty e = rw (e, commit)

  commit_some :
      (entry : String × List (Envelope Any Any)) (rest : Dict (List (Envelope Any Any)))
      → collect h u.entities ≡ entry ∷ rest
      → commit S visit revisit tx d u h s
        ≡ commit_events S d
            (visit (stamp_all tx (collect h u.entities)))
            (revisit (stamp_all tx (collect h u.entities)))
            u
            h
            s
  unfolding commit
  commit_some entry rest e = rw (e, commit)

  -- Whatever the orders in which its two loops visit the batches, each of them once, a
  -- Commit without error has appended exactly the uncommitted events of the tracked entities,
  -- all stamped with its transaction id, has cleared those entities and no others, has forgotten
  -- them, and has given the same events to the dispatcher, if there is one.
  pub commit-Succeeded :
      ((l : Dict (List (Envelope Any Any))) → Perm (visit l) l)
      → ((l : Dict (List (Envelope Any Any))) → Perm (revisit l) l)
      → (commit S visit revisit tx d u h s).error ≡ none
      → Succeeded S tx d u h s (commit S visit revisit tx d u h s)
  commit-Succeeded p q e = elim (List-cases (collect h u.entities)) [
    | inl empty ↦
        subst (Succeeded S tx d u h s) (sym (commit_empty empty))
          (commit_nothing S tx d u h s empty)
    | inr (entry, rest, some_events) ↦
        let result = commit_some entry rest some_events in
        let stamped = stamp_all tx (collect h u.entities) in
        subst (Succeeded S tx d u h s) (sym result) (
          commit_events-Succeeded S tx d (visit stamped) (revisit stamped) u h s (p stamped)
            (q stamped) (subst (λ (c : Committed S). c.error ≡ none) result e))
  ]

  -- A Commit with an error has visited the batches of the tracked entities' uncommitted events,
  -- stamped with its transaction id, up to the first one that the store refused, asked with the
  -- expected version of its Track; the error is the store's. The events of the aggregates visited
  -- before it stay in the store and no others are added, while no entity was cleared, nothing was
  -- dispatched and no entity is tracked any more.
  pub commit-Failed :
      (x : UowError)
      → (commit S visit revisit tx d u h s).error ≡ some x
      → Failed S
          (revisit (tracked_batches tx h u.entities))
          u
          h
          s
          (commit S visit revisit tx d u h s)
          x
  commit-Failed x e = elim (List-cases (collect h u.entities)) [
    | inl empty ↦ absurd (cc (e, ap (λ (c : Committed S). c.error) (commit_empty empty)))
    | inr (entry, rest, some_events) ↦
        let result = commit_some entry rest some_events in
        let stamped = stamp_all tx (collect h u.entities) in
        let batches = ap revisit (stamp_all-collect tx h u.entities) in
        subst (λ l. Failed S l u h s (commit S visit revisit tx d u h s) x) batches
          (subst (λ c. Failed S (revisit stamped) u h s c x) (sym result)
            (commit_events-Failed S d (visit stamped) (revisit stamped) u h s x
              (subst (λ (c : Committed S). c.error ≡ some x) result e)))
  ]
