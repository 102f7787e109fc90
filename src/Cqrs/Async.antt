-- ===== src/Cqrs/Async.antt =====
-- AsyncCommandDispatcher.Dispatch of pkg/cqrs/command_dispatcher.go, with the Watchable that it
-- returns, as a step relation: one goroutine for each receiver, one that closes the channel, and
-- the caller that receives. The channel is a buffer with a capacity.
pub mod Schedules
pub mod Results
use pericarp.Prelude.{Bool, true, false, ◌≡◌, ℕ, suc, ◌<◌, List, [], ◌∷◌, ◌++◌, map, length}
use pericarp.Cqrs.{
  CommandEnvelope, CommandResult, Receiver, CommandRegistry, execute_receiver, resolve_receivers,
}

-- The goroutines that have not sent, the channel, and what the caller has received.
pub record Watch (Any E : Type 0) : Type 0 where
  pub pending : List (Receiver Any E)
  pub results : List (CommandResult Any E)
  pub capacity : ℕ
  pub closed : Bool
  pub received : List (CommandResult Any E)

module _ {Any E : Type 0} where
  -- newWatchable, for a size that is not negative.
  abbrev pub new_watchable : ℕ → Watch Any E
  new_watchable size = record {
    pending = [];
    results = [];
    capacity = size;
    closed = false;
    received = [];
  }

  -- Without receivers the channel is closed at once, else each has its goroutine.
  unfoldable pub started : List (Receiver Any E) → Watch Any E
  started [] = record (new_watchable 0) { closed = true }
  started (fn ∷ rest) = record (new_watchable (length (fn ∷ rest))) { pending = fn ∷ rest }

  -- Dispatch
  unfoldable pub dispatch_async : CommandRegistry Any E → CommandEnvelope Any Any → Watch Any E
  dispatch_async r env = started (resolve_receivers r env.command_type)

  -- All have sent, the channel is closed, and the caller has received what was in it: Wait and a
  -- loop over Results end here.
  pub record IsComplete (w : Watch Any E) : Type 0 where
    pub all_sent : w.pending ≡ []
    pub is_closed : w.closed ≡ true
    pub drained : w.results ≡ []

  -- What can happen next, in any order.
  pub data Step (env : CommandEnvelope Any Any) : Watch Any E → Watch Any E → Type 0 where
    -- one of the goroutines, `fn`, sends its result into a channel that has room
    send :
        (w : Watch Any E) (before after : List (Receiver Any E)) (fn : Receiver Any E)
        → w.pending ≡ before ++ fn ∷ after
        → length w.results < w.capacity
        → Step env w (record w {
          pending = before ++ after;
          results = w.results ++ execute_receiver env fn ∷ [];
        })
    -- the caller receives the oldest result
    receive :
        (w : Watch Any E) (result : CommandResult Any E) (rest : List (CommandResult Any E))
        → w.results ≡ result ∷ rest
        → Step env w (record w { results = rest; received = w.received ++ result ∷ [] })
    -- behind the last goroutine the channel is closed
    close :
        (w : Watch Any E)
        → w.pending ≡ []
        → w.closed ≡ false
        → Step env w (record w { closed = true })

  -- A schedule of so many steps.
  pub data Steps (env : CommandEnvelope Any Any) (w : Watch Any E) : ℕ → Watch Any E → Type 0 where
    start : Steps env w 0 w
    next : {n : ℕ} {v u : Watch Any E} → Steps env w n v → Step env v u → Steps env w (suc n) u
