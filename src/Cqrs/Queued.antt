-- ===== src/Cqrs/Queued.antt =====
-- QueuedCommandDispatcher.Dispatch of pkg/cqrs/command_dispatcher.go: one goroutine runs the
-- receivers in their order and looks at the context before each.
pub mod Refines
use native.Mathlib.Numerals.{unary_clauses}
use pericarp.Prelude.{
  Bool, true, false, ◌⊎◌, inl, inr, ◌≡◌, refl, ap, ap₂, ℕ, zero, suc, ◌+◌, ◌<◌, ◌≤◌, List, [], ◌∷◌,
  ◌++◌, map, length, take, arith, if◌then◌else◌,
}
use pericarp.Cqrs.{
  CommandEnvelope, CommandResult, Receiver, CommandRegistry, execute_receiver, resolve_receivers,
}
use pericarp.Cqrs.Async.{Watch}

module _ {Any E : Type 0} where
  -- The loop of the goroutine; `cancelled i` is what its look number i at the context says.
  unfoldable pub run_queued :
      (ℕ → Bool) → CommandEnvelope Any Any → List (Receiver Any E) → List (CommandResult Any E)
  run_queued cancelled env [] = []
  run_queued cancelled env (fn ∷ fns) =
      let rest = run_queued (λ i. cancelled (suc i)) env fns in
      if cancelled 0 then [] else execute_receiver env fn ∷ rest

  -- Dispatch, once its goroutine has ended; the deferred calls have closed the channel.
  unfoldable pub dispatch_queued :
      (ℕ → Bool) → CommandRegistry Any E → CommandEnvelope Any Any → Watch Any E
  unfolding run_queued
  dispatch_queued cancelled r env =
      let fns = resolve_receivers r env.command_type in
      record {
        pending = [];
        results = run_queued cancelled env fns;
        capacity = length fns;
        closed = true;
        received = [];
      }

  run_queued-take :
      (cancelled : ℕ → Bool) (env : CommandEnvelope Any Any) (stop : ℕ)
      (fns : List (Receiver Any E))
      → ((j : ℕ) → j < stop → cancelled j ≡ false)
      → (cancelled stop ≡ true) ⊎ (length fns ≤ stop)
      → run_queued cancelled env fns ≡ map (execute_receiver env) (take stop fns)
  unfolding run_queued
  run_queued-take cancelled env zero [] live over = refl
  run_queued-take cancelled env (suc stop) [] live over = refl
  run_queued-take cancelled env zero (fn ∷ fns) live (inl over) = rw over refl
  run_queued-take cancelled env zero (fn ∷ fns) live (inr over) = absurd (omega (arith, over))
  run_queued-take cancelled env (suc stop) (fn ∷ fns) live over =
      let later_over : (cancelled (suc stop) ≡ true) ⊎ (length fns ≤ stop) = elim over [
        | inl seen ↦ inl seen
        | inr short ↦ inr (omega (arith, short))
      ] in
      let later =
        run_queued-take (λ i. cancelled (suc i)) env stop fns
          (λ j before. live (suc j) (omega (arith, before))) later_over in
      rw (live 0 (omega arith), later) refl

  length-run_queued :
      (cancelled : ℕ → Bool) (env : CommandEnvelope Any Any) (fns : List (Receiver Any E))
      → length (run_queued cancelled env fns) ≤ length fns
  unfolding run_queued
  length-run_queued cancelled env [] = omega arith
  length-run_queued cancelled env (fn ∷ fns) =
      let later = length-run_queued (λ i. cancelled (suc i)) env fns in ground (arith, later)

  -- QueuedCommandDispatcher.Dispatch: when the context is first seen cancelled before receiver
  -- number `stop` of those that the command resolves to, or never before the last, the caller
  -- gets the results of the receivers before it, in their order and no other; the channel is
  -- closed and no more results were sent than it holds.
  pub dispatch_queued-take :
      (cancelled : ℕ → Bool) (r : CommandRegistry Any E) (env : CommandEnvelope Any Any) (stop : ℕ)
      → ((j : ℕ) → j < stop → cancelled j ≡ false)
      → (cancelled stop ≡ true) ⊎ (length (resolve_receivers r env.command_type) ≤ stop)
      → let w = dispatch_queued cancelled r env in
        (w.results ≡ map (execute_receiver env) (take stop (resolve_receivers r env.command_type)))
        × (w.closed ≡ true)
        × (length w.results ≤ w.capacity)
  unfolding dispatch_queued
  dispatch_queued-take cancelled r env stop live over =
      let fns = resolve_receivers r env.command_type in
      (run_queued-take cancelled env stop fns live over, refl, length-run_queued cancelled env fns)
