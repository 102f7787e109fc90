-- ===== src/Subscriptions/Checkpoint/Laws.antt =====
-- Exclusion between batches and resets of one subscriber (memory_checkpoint.go).
use pericarp.Prelude.{String, eq_refl, Bool, true, false, ◌≡◌, none, some, arith}
use pericarp.Prelude.Int.{ℤ}
use pericarp.Prelude.Dict.{put, get_or, get-put, get-remove}
use pericarp.Subscriptions.Checkpoint.{
  MemoryCheckpointStore, MemoryBatch, batch_in_flight, already_finished, acquire, position_of,
  reset, commit_batch, rollback_batch,
}

-- A batch of the subscriber is in flight.
abbrev pub is_held : String → MemoryCheckpointStore → Bool
is_held subscriber m = get_or m.held subscriber false

pub acquire_held :
    (name : String) (m : MemoryCheckpointStore) → is_held name m ≡ true → acquire name m ≡ (m, none)
unfolding acquire
acquire_held name m h = ground (arith, h)

pub acquire_free :
    (name : String) (m : MemoryCheckpointStore)
    → is_held name m ≡ false
    → acquire name m ≡ (
      record m { held = put m.held name true },
      some (record { subscriber = name; position = position_of name m; done = false }),
    )
unfolding acquire position_of
acquire_free name m h = ground (arith, h)

module _ (name : String) (m m₁ : MemoryCheckpointStore) (b : MemoryBatch)
    (acquired : acquire name m ≡ (m₁, some b)) where
  -- The branch that Acquire took.
  pub acquire_taken :
      (is_held name m₁ ≡ true)
      × (m₁.positions ≡ m.positions)
      × (b.subscriber ≡ name)
      × (b.position ≡ position_of name m)
      × (b.done ≡ false)
  unfolding acquire position_of
  acquire_taken = (
    ground (arith, get-put m.held name true name, eq_refl name, acquired),
    ground (arith, acquired),
    ground (arith, acquired),
    ground (arith, acquired),
    ground (arith, acquired),
  )

  -- Right behind an Acquire that got a batch, a second Acquire of the subscriber gets none and a Reset of it
  -- fails, neither changing the store; and the batch carries the checkpoint of the acquisition.
  pub acquire_excludes :
      (position : ℤ)
      → (acquire name m₁ ≡ (m₁, none))
        × (reset name position m₁ ≡ (m₁, some batch_in_flight))
        × (b.position ≡ position_of name m)
  unfolding acquire reset
  acquire_excludes position =
      let (held, _, _, at, _) = acquire_taken in (ground (arith, held), ground (arith, held), at)

  -- Commit moves the checkpoint to the given position and ends the batch; a second Commit of the
  -- batch fails and changes nothing, and a Rollback after it changes nothing.
  pub commit_finishes :
      (position : ℤ)
      → let (b₂, m₂, error) = commit_batch position b m₁ in
        (error ≡ none)
        × (position_of name m₂ ≡ position)
        × (is_held name m₂ ≡ false)
        × ((q : ℤ) → commit_batch q b₂ m₂ ≡ (b₂, m₂, some already_finished))
        × (rollback_batch b₂ m₂ ≡ (b₂, m₂))
  unfolding commit_batch rollback_batch position_of
  commit_finishes position =
      let (_, _, mine, _, open_batch) = acquire_taken in
      (
        ground (arith, open_batch),
        ground (arith, open_batch, mine, get-put m₁.positions name position name, eq_refl name),
        ground (arith, open_batch, mine, get-remove m₁.held name name, eq_refl name),
        λ q. ground (arith, open_batch),
        ground (arith, open_batch),
      )

  -- Rollback ends the batch and leaves the checkpoint of every subscriber where it was.
  pub rollback_releases :
      (other : String)
      → let (b₂, m₂) = rollback_batch b m₁ in
        (is_held name m₂ ≡ false) × (position_of other m₂ ≡ position_of other m)
  unfolding rollback_batch position_of
  rollback_releases other =
      let (_, same, mine, _, open_batch) = acquire_taken in
      (
        ground (arith, open_batch, mine, get-remove m₁.held name name, eq_refl name),
        ground (arith, open_batch, same),
      )
