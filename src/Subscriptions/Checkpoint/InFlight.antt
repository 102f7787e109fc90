-- ===== src/Subscriptions/Checkpoint/InFlight.antt =====
-- What other calls of a MemoryCheckpointStore can do while a batch is in flight
-- (memory_checkpoint.go). The mutex makes every call one step, so a sequence of calls is an order in
-- which the goroutines got it.
use pericarp.Prelude.{
  String, ◌==◌, eq_iff, eq_refl, eq_false, Bool-cases, true, ◌≡◌, ◌≢◌, sym, ◌⊎◌, inl, inr, none,
  some, List, [], ◌∷◌, All, arith,
}
use pericarp.Prelude.Int.{ℤ}
use pericarp.Prelude.Dict.{get-put, get-remove}
use pericarp.Subscriptions.Checkpoint.{
  MemoryCheckpointStore, MemoryBatch, batch_in_flight, acquire, position_of, reset, commit_batch,
  rollback_batch,
}
use pericarp.Subscriptions.Checkpoint.Laws.{is_held, acquire_taken, acquire_held}

-- A call of the store or of one of its batches.
pub data Call : Type 0 where
  acquires : String → Call
  resets : String → ℤ → Call
  commits : MemoryBatch → ℤ → Call
  rolls_back : MemoryBatch → Call

-- The store behind a call.
abbrev pub after_call : Call → MemoryCheckpointStore → MemoryCheckpointStore
after_call (acquires subscriber) m = (acquire subscriber m).0
after_call (resets subscriber position) m = (reset subscriber position m).0
after_call (commits b position) m = (commit_batch position b m).1
after_call (rolls_back b) m = (rollback_batch b m).1

abbrev pub after_calls : List Call → MemoryCheckpointStore → MemoryCheckpointStore
after_calls [] m = m
after_calls (call ∷ calls) m = after_calls calls (after_call call m)

-- The batch is over, or one of another subscriber.
abbrev pub IsOther : String → MemoryBatch → Type 0
IsOther name b = (b.done ≡ true) ⊎ (b.subscriber ≢ name)

-- The call does not end the batch of the subscriber that is in flight.
abbrev pub Spares : String → Call → Type 0
Spares name (acquires subscriber) = Unit {0}
Spares name (resets subscriber position) = Unit {0}
Spares name (commits b position) = IsOther name b
Spares name (rolls_back b) = IsOther name b

module _ (name : String) (position : ℤ) where
  -- A batch of the subscriber is in flight, and its checkpoint is `position`.
  abbrev InFlight : MemoryCheckpointStore → Type 0
  InFlight m = (is_held name m ≡ true) × (position_of name m ≡ position)

  call-InFlight :
      (call : Call) (m : MemoryCheckpointStore)
      → Spares name call
      → InFlight m
      → InFlight (after_call call m)
  unfolding acquire reset commit_batch rollback_batch position_of
  call-InFlight (acquires k) m spares (held, at) =
      (ground (arith, held, get-put m.held k true name), ground (arith, at))
  call-InFlight (resets k p) m spares (held, at) = elim (Bool-cases (k == name)) [
    | inl same ↦
        let here : k ≡ name = (eq_iff k name).0 same in
        (ground (arith, held, here), ground (arith, held, here, at))
    | inr differ ↦ (ground (arith, held), ground (arith, at, differ, get-put m.positions k p name))
  ]
  call-InFlight (commits b p) m (inl over) (held, at) =
      (ground (arith, over, held), ground (arith, over, at))
  call-InFlight (commits b p) m (inr other) (held, at) =
      let differ = eq_false b.subscriber name other in
      (
        ground (arith, held, differ, get-remove m.held b.subscriber name),
        ground (arith, at, differ, get-put m.positions b.subscriber p name),
      )
  call-InFlight (rolls_back b) m (inl over) (held, at) =
      (ground (arith, over, held), ground (arith, over, at))
  call-InFlight (rolls_back b) m (inr other) (held, at) =
      let differ = eq_false b.subscriber name other in
      (ground (arith, held, differ, get-remove m.held b.subscriber name), ground (arith, at))

  calls-InFlight :
      (calls : List Call) (m : MemoryCheckpointStore)
      → All (Spares name) calls
      → InFlight m
      → InFlight (after_calls calls m)
  calls-InFlight [] m spares flies = flies
  calls-InFlight (call ∷ calls) m spares flies =
      calls-InFlight calls (after_call call m) spares.1 (call-InFlight call m spares.0 flies)

-- From its Acquire on and whatever calls come between, of any subscribers, as long as none of them
-- commits or rolls back a batch of its subscriber that is not over, a batch excludes another one:
-- Acquire of its subscriber gets none and Reset of it fails, neither changing the store; the
-- subscriber's checkpoint is still the one that the batch carries, and a Commit of the batch
-- succeeds and moves it.
pub in_flight-excludes :
    (name : String) (m m₁ : MemoryCheckpointStore) (b : MemoryBatch) (calls : List Call)
    (position : ℤ)
    → acquire name m ≡ (m₁, some b)
    → All (Spares name) calls
    → let m₂ = after_calls calls m₁ in
      (acquire name m₂ ≡ (m₂, none))
      × (reset name position m₂ ≡ (m₂, some batch_in_flight))
      × (b.position ≡ position_of name m₂)
      × ((commit_batch position b m₂).2 ≡ none)
      × (position_of name (commit_batch position b m₂).1 ≡ position)
in_flight-excludes name m m₁ b calls position acquired spares =
    let (held, same, mine, at, open_batch) = acquire_taken name m m₁ b acquired in
    let m₂ = after_calls calls m₁ in
    let (held₂, at₂) =
      calls-InFlight name b.position calls m₁ spares
        (held, unfold position_of in ground (arith, same, at)) in
    (
      acquire_held name m₂ held₂,
      unfold reset in ground (arith, held₂),
      sym at₂,
      unfold commit_batch in ground (arith, open_batch),
      unfold commit_batch in
          unfold position_of in
          ground (arith, open_batch, mine, get-put m₂.positions name position name, eq_refl name),
    )
