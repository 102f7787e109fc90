-- ===== src/Subscriptions/Subscriber/Cycles.antt =====
-- The cycles of a Subscriber's Run: processBatch on a MemoryCheckpointStore (subscriber.go).
use pericarp.Prelude.{ℕ, zero, suc, Option, none, some, List, [], ◌∷◌, length, last_or}
use pericarp.Prelude.Int.{ℤ}
use pericarp.Event.{Envelope}
use pericarp.EventStore.Memory.{Reply, ok, err}
use pericarp.Subscriptions.Checkpoint.{
  MemoryCheckpointStore, MemoryBatch, acquire, commit_batch, rollback_batch,
}
use pericarp.Subscriptions.Subscriber.{
  Subscriber, SubscriberError, read_failed, commit_failed, Runtime, process_events,
}

-- What one cycle of Run leaves, with the number of events that processBatch returns and its error.
pub record Cycle (W L : Type 0) : Type 0 where
  pub checkpoints : MemoryCheckpointStore
  pub world : W
  pub lot : L
  pub processed : ℕ
  pub error : Option SubscriberError

module _ {Any W L : Type 0} (s : Subscriber) (r : Runtime Any W L) where
  -- processBatch past the reading, for events that are not empty.
  unfoldable pub handle_batch :
      Envelope Any Any
      → List (Envelope Any Any)
      → MemoryBatch
      → MemoryCheckpointStore
      → W
      → L
      → Cycle W L
  handle_batch first rest batch m w l =
      let (w', l', error) = process_events s r (first ∷ rest) w l in
      elim error [
        | some e ↦ record {
          checkpoints = (rollback_batch batch m).1;
          world = w';
          lot = l';
          processed = 0;
          error = some e;
        }
        | none ↦
            let (batch', m', failed) = commit_batch (last_or first rest).position batch m in
            elim failed [
              | some e ↦ record {
                checkpoints = m';
                world = w';
                lot = l';
                processed = 0;
                error = some (commit_failed e);
              }
              | none ↦ record {
                checkpoints = m';
                world = w';
                lot = l';
                processed = length (first ∷ rest);
                error = none;
              }
            ]
      ]

module _ {Any W L : Type 0} (s : Subscriber) (r : Runtime Any W L)
    (feed : ℤ → ℤ → Reply (List (Envelope Any Any))) where
  -- processBatch with its batch acquired: what is read, and the deferred rollback.
  unfoldable pub read_batch : MemoryBatch → MemoryCheckpointStore → W → L → Cycle W L
  unfolding handle_batch
  read_batch batch m w l = elim (feed batch.position s.batch_size) [
    | err e ↦ record {
      checkpoints = (rollback_batch batch m).1;
      world = w;
      lot = l;
      processed = 0;
      error = some (read_failed e);
    }
    | ok [] ↦ record {
      checkpoints = (rollback_batch batch m).1;
      world = w;
      lot = l;
      processed = 0;
      error = none;
    }
    | ok (first ∷ rest) ↦ handle_batch s r first rest batch m w l
  ]

  -- processBatch past Acquire.
  unfoldable pub run_acquired : MemoryCheckpointStore × Option MemoryBatch → W → L → Cycle W L
  unfolding read_batch
  run_acquired (m, none) w l = record {
    checkpoints = m;
    world = w;
    lot = l;
    processed = 0;
    error = none;
  }
  run_acquired (m, some batch) w l = read_batch batch m w l

  -- processBatch
  unfoldable pub process_batch : MemoryCheckpointStore → W → L → Cycle W L
  unfolding run_acquired
  process_batch m w l = run_acquired (acquire s.name m) w l

  -- The cycles that Run makes without a wait: as long as a cycle processed events without an error.
  unfoldable pub run_cycles : ℕ → MemoryCheckpointStore → W → L → Cycle W L
  run_cycles zero m w l = process_batch m w l
  run_cycles (suc fuel) m w l =
      let c = process_batch m w l in
      elim c.processed [
        | zero ↦ c
        | suc n ↦ elim c.error [ some e ↦ c | none ↦ run_cycles fuel c.checkpoints c.world c.lot ]
      ]
