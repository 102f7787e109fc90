-- ===== src/Subscriptions/Checkpoint.antt =====
-- pkg/eventsourcing/subscriptions/memory_checkpoint.go: MemoryCheckpointStore and its batches. The
-- mutex makes each method one atomic step. A batch points to its store, so a method of the batch
-- takes the store and returns it.
pub mod Laws
pub mod InFlight
use pericarp.Prelude.{String, Bool, true, false, Option, none, some, [], if◌then◌else◌}
use pericarp.Prelude.Int.{ℤ, pos}
use pericarp.Prelude.Dict.{Dict, get, put, remove, get_or}

pub data CheckpointError : Type 0 where
  batch_in_flight already_finished : CheckpointError

pub record MemoryCheckpointStore : Type 0 where
  pub positions : Dict ℤ
  pub held : Dict Bool

pub record MemoryBatch : Type 0 where
  pub subscriber : String
  pub position : ℤ
  pub done : Bool

-- NewMemoryCheckpointStore
abbrev pub new_memory_checkpoint_store : MemoryCheckpointStore
new_memory_checkpoint_store = record { positions = []; held = [] }

-- Acquire; `none` is `acquired == false`.
unfoldable pub acquire : String → MemoryCheckpointStore → MemoryCheckpointStore × Option MemoryBatch
acquire subscriber m = if get_or m.held subscriber false then (m, none) else (
  record m { held = put m.held subscriber true },
  some (record {
    subscriber = subscriber;
    position = get_or m.positions subscriber (pos 0);
    done = false;
  }),
)

-- Position
unfoldable pub position_of : String → MemoryCheckpointStore → ℤ
position_of subscriber m = get_or m.positions subscriber (pos 0)

-- Reset
unfoldable pub reset :
    String → ℤ → MemoryCheckpointStore → MemoryCheckpointStore × Option CheckpointError
reset subscriber position m =
    if get_or m.held subscriber false
    then (m, some batch_in_flight)
    else (record m { positions = put m.positions subscriber position }, none)

-- memoryBatch.Commit
unfoldable pub commit_batch :
    ℤ
    → MemoryBatch
    → MemoryCheckpointStore
    → MemoryBatch × MemoryCheckpointStore × Option CheckpointError
commit_batch position b m = if b.done then (b, m, some already_finished) else (
  record b { done = true },
  record m { positions = put m.positions b.subscriber position; held = remove m.held b.subscriber },
  none,
)

-- memoryBatch.Rollback
unfoldable pub rollback_batch :
    MemoryBatch → MemoryCheckpointStore → MemoryBatch × MemoryCheckpointStore
rollback_batch b m =
    if b.done
    then (b, m)
    else (record b { done = true }, record m { held = remove m.held b.subscriber })
