-- ===== src/Tests/Cqrs.antt =====
-- The theorems on the command dispatchers at concrete inputs.
use mathlib.Core.List.{Perm}
use pericarp.Prelude.{
  sym, subst, String, Bool, true, false, ◌≡◌, refl, ◌⊎◌, inl, inr, ℕ, ◌<◌, ◌≤◌, ◌*◌, ◌+◌, none,
  some, List, [], ◌∷◌, map, length, take, arith, if◌then◌else◌, ltb,
}
use pericarp.Cqrs.{
  CommandEnvelope, CommandError, CommandResult, CommandRegistry, Receiver, returned, panicked,
  new_command_registry, new_command_envelope, add_receiver, register_wildcard_receiver,
  execute_receiver, resolve_receivers,
}
use pericarp.Cqrs.Async.{
  Watch, dispatch_async, started, IsComplete, Steps, start, next, send, receive, close,
}
use pericarp.Cqrs.Async.Schedules.{Enabled, schedule-ends, send-never_blocks}
use pericarp.Cqrs.Async.Results.{wait-Perm}
use pericarp.Cqrs.Queued.{dispatch_queued, dispatch_queued-take}
use pericarp.Cqrs.Queued.Refines.{queued-refines-async}

abbrev doubles : Receiver ℕ String
doubles env = returned (some (2 * env.payload)) none

abbrev panics : Receiver ℕ String
panics env = panicked "boom"

abbrev command : CommandEnvelope ℕ ℕ
command = new_command_envelope "1" 10 21 "order.place"

-- One receiver for the command, and a wildcard receiver.
abbrev registry : CommandRegistry ℕ String
registry =
    (register_wildcard_receiver (some panics)
      (add_receiver "order.place" doubles new_command_registry)).0

found : resolve_receivers registry "order.place" ≡ doubles ∷ panics ∷ []
unfolding resolve_receivers pericarp.Cqrs.Patterns.get_matching_patterns
    pericarp.Dispatcher.Patterns.split pericarp.Prelude.Dict.get register_wildcard_receiver
    add_receiver pericarp.Prelude.Dict.put
found = refl

abbrev doubled : CommandResult ℕ String
doubled = execute_receiver command doubles

abbrev failed : CommandResult ℕ String
failed = execute_receiver command panics

abbrev watch_at :
    List (Receiver ℕ String)
    → List (CommandResult ℕ String)
    → Bool
    → List (CommandResult ℕ String)
    → Watch ℕ String
watch_at pending results closed received = record {
  pending = pending;
  results = results;
  capacity = 2;
  closed = closed;
  received = received;
}

-- The caller receives after the wildcard receiver has panicked; then the other one sends.
two_steps :
    Steps command
      (started (doubles ∷ panics ∷ []))
      2
      (watch_at (doubles ∷ []) [] false (failed ∷ []))
unfolding started
two_steps =
    next
      (next start (
        send (watch_at (doubles ∷ panics ∷ []) [] false []) (doubles ∷ []) [] panics refl
          (omega arith)))
      (receive (watch_at (doubles ∷ []) (failed ∷ []) false []) failed [] refl)

five_steps :
    Steps command (started (doubles ∷ panics ∷ [])) 5 (watch_at [] [] true (failed ∷ doubled ∷ []))
five_steps =
    next
      (next
        (next two_steps
          (send (watch_at (doubles ∷ []) [] false (failed ∷ [])) [] [] doubles refl (omega arith)))
        (close (watch_at [] (doubled ∷ []) false (failed ∷ [])) refl refl))
      (receive (watch_at [] (doubled ∷ []) true (failed ∷ [])) doubled [] refl)

-- The same from the dispatcher.
dispatched :
    {n : ℕ} {w : Watch ℕ String}
    → Steps command (started (doubles ∷ panics ∷ [])) n w
    → Steps command (dispatch_async registry command) n w
unfolding dispatch_async
dispatched {n} {w} steps = subst (λ fns. Steps command (started fns) n w) (sym found) steps

wait-Perm_example :
    Perm
      (failed ∷ doubled ∷ [])
      (map (execute_receiver command) (resolve_receivers registry "order.place"))
wait-Perm_example =
    wait-Perm command registry (dispatched five_steps)
      (record { all_sent = refl; is_closed = refl; drained = refl })

schedule-ends_example :
    (2 ≤ 2 * length (resolve_receivers registry "order.place") + 1)
    × (Enabled command (watch_at (doubles ∷ []) [] false (failed ∷ []))
        ⊎ IsComplete (watch_at (doubles ∷ []) [] false (failed ∷ [])))
schedule-ends_example = schedule-ends command registry (dispatched two_steps)

send-never_blocks_example : (false ≡ false) × (0 < 2)
send-never_blocks_example = send-never_blocks command registry (dispatched two_steps) (λ e. cc e)

-- The context is cancelled before the second receiver.
abbrev cancelled : ℕ → Bool
cancelled i = ltb 0 i

dispatch_queued-take_example :
    let w = dispatch_queued cancelled registry command in
    (w.results ≡ map (execute_receiver command) (take 1 (resolve_receivers registry "order.place")))
    × (w.closed ≡ true)
    × (length w.results ≤ w.capacity)
dispatch_queued-take_example =
    dispatch_queued-take cancelled registry command 1 (λ j before. ground (arith, before))
      (inl refl)

queued-refines-async_example :
    (n : ℕ) × (w : Watch ℕ String) × Steps command (dispatch_async registry command) n w
    × IsComplete w
    × (w.received ≡ (dispatch_queued (λ _. false) registry command).results)
queued-refines-async_example = queued-refines-async command (λ _. false) registry (λ j before. refl)
