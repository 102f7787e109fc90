-- ===== src/Cqrs/Queued/Refines.antt =====
-- The queued dispatcher's order of results is one of the orders of the asynchronous one
-- (command_dispatcher.go).
use pericarp.Prelude.{
  Bool, true, false, ◌≡◌, refl, ap, sym, ◌∙◌, subst, inr, ℕ, suc, ◌+◌, ◌<◌, ◌≤◌, List, [], ◌∷◌,
  ◌++◌, map, length, take-length, length-append, append_assoc, append-nil, arith,
}
use pericarp.Cqrs.{
  CommandEnvelope, CommandResult, CommandRegistry, Receiver, execute_receiver, resolve_receivers,
}
use pericarp.Cqrs.Async.{
  Watch, started, dispatch_async, IsComplete, Step, send, receive, close, Steps, start, next,
}
use pericarp.Cqrs.Queued.{dispatch_queued, run_queued-take}

module _ {Any E : Type 0} (env : CommandEnvelope Any Any) where
  -- A schedule of some length.
  abbrev Reaches : Watch Any E → Watch Any E → Type 0
  Reaches v w = (n : ℕ) × Steps env v n w

  first :
      {v u : Watch Any E} {n : ℕ} {w : Watch Any E} → Step env v u → Steps env u n w → Reaches v w
  first step start = (1, next start step)
  first step (next {n} steps last) =
      let before = first step steps in (suc before.0, next before.1 last)

  abbrev open_watch : ℕ → List (Receiver Any E) → List (CommandResult Any E) → Watch Any E
  open_watch capacity fns sent = record {
    pending = fns;
    results = sent;
    capacity = capacity;
    closed = false;
    received = [];
  }

  abbrev closed_watch : ℕ → List (CommandResult Any E) → List (CommandResult Any E) → Watch Any E
  closed_watch capacity sent received = record {
    pending = [];
    results = sent;
    capacity = capacity;
    closed = true;
    received = received;
  }

  receive_all :
      (capacity : ℕ) (l received : List (CommandResult Any E))
      → Reaches (closed_watch capacity l received) (closed_watch capacity [] (received ++ l))
  receive_all capacity [] received = rw (append-nil received) (0, start)
  receive_all capacity (result ∷ rest) received =
      let later = receive_all capacity rest (received ++ result ∷ []) in
      let assoc = append_assoc received (result ∷ []) rest in
      first (receive (closed_watch capacity (result ∷ rest) received) result rest refl) (
        subst
          (λ l.
            Steps env (closed_watch capacity rest (received ++ result ∷ [])) later.0
              (closed_watch capacity [] l))
          assoc later.1)

  -- From a channel with room for the rest, in the order of the receivers: send, close, receive.
  in_order :
      (capacity : ℕ) (fns : List (Receiver Any E)) (sent : List (CommandResult Any E))
      → length sent + length fns ≤ capacity
      → Reaches
          (open_watch capacity fns sent)
          (closed_watch capacity [] (sent ++ map (execute_receiver env) fns))
  in_order capacity [] sent room =
      let later = receive_all capacity sent [] in
      rw (append-nil sent) (first (close (open_watch capacity [] sent) refl refl) later.1)
  in_order capacity (fn ∷ fns) sent room =
      let longer = length-append sent (execute_receiver env fn ∷ []) in
      let later =
        in_order capacity fns (sent ++ execute_receiver env fn ∷ []) (omega (arith, room)) in
      let assoc =
        append_assoc sent (execute_receiver env fn ∷ []) (map (execute_receiver env) fns) in
      first (send (open_watch capacity (fn ∷ fns) sent) [] fns fn refl (omega (arith, room))) (
        subst
          (λ l.
            Steps env (open_watch capacity fns (sent ++ execute_receiver env fn ∷ [])) later.0
              (closed_watch capacity [] l))
          assoc later.1)

  started-in_order :
      (fns : List (Receiver Any E))
      → (n : ℕ) × (w : Watch Any E) × Steps env (started fns) n w
        × IsComplete w
        × (w.received ≡ map (execute_receiver env) fns)
  unfolding started
  started-in_order [] =
      (0, started [], start, record { all_sent = refl; is_closed = refl; drained = refl }, refl)
  started-in_order (fn ∷ fns) =
      let schedule = in_order (length (fn ∷ fns)) (fn ∷ fns) [] (omega arith) in
      (
        schedule.0,
        _,
        schedule.1,
        record { all_sent = refl; is_closed = refl; drained = refl },
        refl,
      )

  -- QueuedCommandDispatcher.Dispatch refines AsyncCommandDispatcher.Dispatch: when the context is
  -- not cancelled, some schedule of the asynchronous dispatcher on the same receivers completes
  -- with the caller having received just the results of the queued one, in the same order.
  pub queued-refines-async :
      (cancelled : ℕ → Bool) (r : CommandRegistry Any E)
      → ((j : ℕ) → j < length (resolve_receivers r env.command_type) → cancelled j ≡ false)
      → (n : ℕ) × (w : Watch Any E) × Steps env (dispatch_async r env) n w
        × IsComplete w
        × (w.received ≡ (dispatch_queued cancelled r env).results)
  unfolding dispatch_async dispatch_queued
  queued-refines-async cancelled r live =
      let fns = resolve_receivers r env.command_type in
      let found = started-in_order fns in
      let all = run_queued-take cancelled env (length fns) fns live (inr (omega arith)) in
      (
        found.0,
        found.1,
        found.2,
        found.3,
        found.4 ∙ sym (all ∙ ap (map (execute_receiver env)) (take-length fns)),
      )
