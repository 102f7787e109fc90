-- ===== src/Dispatcher/Handlers.antt =====
-- Which handlers a Dispatch runs, and what it reports (dispatcher.go).
use mathlib.Core.List.Perm
use mathlib.Core.List.{Perm}
use pericarp.Prelude.{
  String, ◌==◌, eq_iff, eq_false, ◌≡◌, ◌≢◌, ◌↔◌, refl, ap, sym, subst, ◌∙◌, ℕ, ◌+◌, Option, none,
  some, List, [], ◌∷◌, ◌++◌, length, length-append, All, arith, if◌then◌else◌, List-cases, inl, inr,
}
use pericarp.Prelude.Dict.{put, get-put, get_or}
use pericarp.Event.{Envelope}
use pericarp.Dispatcher.{
  EventDispatcher, Handler, DispatchError, wrapped_handler, add_handler, subscribe, handlers_of,
  all_handlers, run_all, dispatch,
}
use pericarp.Dispatcher.Patterns.{get_matching_patterns}

-- How often a pattern stands in a list of patterns.
abbrev pub occurrences : String → List String → ℕ
occurrences p [] = 0
occurrences p (q ∷ qs) = (if p == q then 1 else 0) + occurrences p qs

-- The errors among the answers of the handlers.
abbrev pub failures : {E : Type 0} → List (Option (DispatchError E)) → List (DispatchError E)
failures [] = []
failures (none ∷ answers) = failures answers
failures (some e ∷ answers) = e ∷ failures answers

module _ {Any E : Type 0} where
  run_all-none :
      (handlers : List (Handler Any E)) (env : Envelope Any Any)
      → (run_all handlers env ≡ []) ↔ All (λ handler. handler env ≡ none) handlers
  unfolding run_all
  run_all-none [] env = (λ _. tt, λ _. refl)
  run_all-none (handler ∷ rest) env =
      let (silent, quiet) = run_all-none rest env in
      (λ h. (ground arith, silent (ground arith)), λ h. ground (arith, h.0, quiet h.1))

module _ {Any E F : Type 0} where
  length-handlers_of :
      (d : EventDispatcher Any E F) (p : String) (handler : Handler Any E) (factory : F)
      (patterns : List String)
      → length (handlers_of (add_handler p handler factory d) patterns)
        ≡ length (handlers_of d patterns) + occurrences p patterns
  unfolding handlers_of add_handler
  length-handlers_of d p handler factory [] = omega arith
  length-handlers_of d p handler factory (q ∷ patterns) =
      let old = get_or d.handlers p [] ++ handler ∷ [] in
      ground (
        arith,
        get-put d.handlers p old q,
        eq_iff p q,
        length-append (get_or (put d.handlers p old) q [])
            (handlers_of (add_handler p handler factory d) patterns),
        length-append (get_or d.handlers q []) (handlers_of d patterns),
        length-append (get_or d.handlers p []) (handler ∷ []),
        length-handlers_of d p handler factory patterns,
      )

  -- A handler that is subscribed without error is run by a Dispatch as many times more as its
  -- event type stands among the patterns of the dispatched event type.
  pub length-all_handlers-subscribe :
      {T : Type 0} (assert : Any → Option T) (p : String) (handler : Envelope Any T → Option E)
      (factory : F) (d : EventDispatcher Any E F) (event_type : String)
      → p ≢ ""
      → length (all_handlers (subscribe assert p (some handler) factory d).0 event_type)
        ≡ length (all_handlers d event_type) + occurrences p (get_matching_patterns event_type)
  unfolding all_handlers subscribe
  length-all_handlers-subscribe assert p handler factory d event_type ne =
      let wrapped = wrapped_handler assert p handler in
      let d' = add_handler p wrapped factory d in
      let patterns = get_matching_patterns event_type in
      rw (eq_false p "" ne) (
        ground (
          arith,
          length-append (handlers_of d' patterns) d.wildcard_handlers,
          length-append (handlers_of d patterns) d.wildcard_handlers,
          length-handlers_of d p wrapped factory patterns,
        ))

-- The error that Dispatch returns for the collected ones.
abbrev collected : {E : Type 0} → List (DispatchError E) → Option (List (DispatchError E))
collected [] = none
collected (e ∷ es) = some (e ∷ es)

collected-none : {E : Type 0} (l : List (DispatchError E)) → collected l ≡ none → l ≡ []
collected-none [] h = refl
collected-none (e ∷ es) h = cc

module _ {Any E F : Type 0} (arrival : List (DispatchError E) → List (DispatchError E))
    (perm : (l : List (DispatchError E)) → Perm (arrival l) l) (d : EventDispatcher Any E F)
    (env : Envelope Any Any) where
  abbrev pub outcomes : List (DispatchError E)
  outcomes = run_all (all_handlers d env.event_type) env

  dispatch-collected : dispatch arrival d env ≡ collected (arrival outcomes)
  unfolding dispatch
  dispatch-collected = elim (List-cases (all_handlers d env.event_type)) [
    | inl nobody ↦ rw (nobody, dispatch) (unfold run_all in rw (Perm.eq-nil (perm [])) refl)
    | inr (handler, rest, somebody) ↦
        rw (somebody, dispatch) (split (arrival (run_all (handler ∷ rest) env)))
  ]
    where
      split :
          (l : List (DispatchError E))
          → (elim l [ [] ↦ none | e ∷ es ↦ some (e ∷ es) ]) ≡ collected l
      split [] = refl
      split (e ∷ es) = refl

  -- Whatever the order in which the errors come in, Dispatch returns no error exactly when none of
  -- the handlers that it runs returns one: one handler's error hides no other's.
  pub dispatch-eq-none_iff :
      (dispatch arrival d env ≡ none)
      ↔ All (λ handler. handler env ≡ none) (all_handlers d env.event_type)
  dispatch-eq-none_iff =
      let all = run_all-none (all_handlers d env.event_type) env in
      (
        λ h. all.0 (
            sym (
              Perm.nil-eq (
                subst (λ l. Perm l outcomes)
                  (collected-none (arrival outcomes) (sym dispatch-collected ∙ h))
                  (perm outcomes)))),
        λ h. dispatch-collected ∙ ap collected (quiet (all.1 h)),
      )
    where
      quiet : outcomes ≡ [] → arrival outcomes ≡ []
      quiet h = subst (λ l. arrival l ≡ []) (sym h) (Perm.eq-nil (perm []))
