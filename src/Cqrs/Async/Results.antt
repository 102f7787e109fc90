-- ===== src/Cqrs/Async/Results.antt =====
-- What the caller of a Watchable receives over any schedule (command_dispatcher.go).
use mathlib.Core.List.Perm
use mathlib.Core.List.{Perm, perm_middle, map-append}
use pericarp.Prelude.{◌≡◌, refl, subst, ℕ, List, [], ◌∷◌, ◌++◌, map, append-nil, append_assoc}
use pericarp.Cqrs.{
  CommandEnvelope, CommandResult, CommandRegistry, Receiver, resolve_receivers, execute_receiver,
}
use pericarp.Cqrs.Async.{
  Watch, started, dispatch_async, IsComplete, Step, send, receive, close, Steps, start, next,
}

module _ {Any E : Type 0} (env : CommandEnvelope Any Any) where
  -- Received, in the channel, or still to come.
  abbrev accounted : Watch Any E → List (CommandResult Any E)
  accounted w = w.received ++ (w.results ++ map (execute_receiver env) w.pending)

  accounted-map :
      (fns : List (Receiver Any E)) → accounted (started fns) ≡ map (execute_receiver env) fns
  unfolding started
  accounted-map [] = refl
  accounted-map (fn ∷ rest) = refl

  Step-Perm : {v w : Watch Any E} → Step env v w → Perm (accounted w) (accounted v)
  Step-Perm (send w before after fn waiting free) =
      let moved = Perm.symm (
        perm_middle {a = execute_receiver env fn} (map (execute_receiver env) before)
          (map (execute_receiver env) after)) in
      rw (waiting, map-append, map-append, append_assoc w.results)
        (Perm.append_left w.received (Perm.append_left w.results moved))
  Step-Perm (receive w result rest found) = rw (found, append_assoc w.received) (Perm.refl _)
  Step-Perm (close w nobody live) = Perm.refl _

  Steps-Perm :
      {v : Watch Any E} {n : ℕ} {w : Watch Any E}
      → Steps env v n w
      → Perm (accounted w) (accounted v)
  Steps-Perm start = Perm.refl _
  Steps-Perm (next steps step) = Perm.trans (Step-Perm step) (Steps-Perm steps)

  -- Wait after AsyncCommandDispatcher.Dispatch: in whatever order the goroutines send and the
  -- caller receives, once the Watchable is complete the caller has exactly the results of the
  -- receivers that the command resolves to, each once, a failed or panicked one included.
  pub wait-Perm :
      (r : CommandRegistry Any E) {n : ℕ} {w : Watch Any E}
      → Steps env (dispatch_async r env) n w
      → IsComplete w
      → Perm w.received (map (execute_receiver env) (resolve_receivers r env.command_type))
  unfolding dispatch_async
  wait-Perm r {w = w} steps h =
      let all = Steps-Perm steps in
      let given : accounted w ≡ w.received = rw (h.drained, h.all_sent) (append-nil w.received) in
      subst (λ l. Perm w.received l) (accounted-map (resolve_receivers r env.command_type))
        (subst (λ l. Perm l (accounted (started (resolve_receivers r env.command_type)))) given all)
