-- ===== src/Tests/Subscribe.antt =====
-- The subscriptions' theorems at concrete inputs.
use Prim.Native.Nat.{min}
use pericarp.Prelude.{
  String, eq_true, inr, ◌≡◌, refl, ℕ, Option, none, some, List, [], ◌∷◌, ◌+◌, ◌*◌, ◌^◌, arith, true,
  false, if◌then◌else◌, ◌==◌, ◌&&◌,
}
use pericarp.Prelude.Int.{ℤ, pos}
use pericarp.Prelude.Dict.{get, put}
use pericarp.Event.{Envelope}
use pericarp.EventStore.Memory.{Reply, ok, read_after, get_event_by_id}
use pericarp.EventStore.Memory.Feed.{IsFeed}
use pericarp.EventStore.Memory.Implements.{memory_event_store}
use pericarp.Subscriptions.Checkpoint.{
  MemoryCheckpointStore, MemoryBatch, new_memory_checkpoint_store, acquire, position_of, reset,
  commit_batch, batch_in_flight,
}
use pericarp.Subscriptions.Checkpoint.InFlight.{
  Call, acquires, resets, commits, after_calls, in_flight-excludes,
}
use pericarp.Subscriptions.Parking.{
  ParkedEvent, MemoryParkingLot, new_memory_parking_lot, park, entry_of, replay_key,
}
use pericarp.Subscriptions.Subscriber.{Subscriber, Runtime, backoff_delay, process_event}
use pericarp.Subscriptions.Subscriber.Cycles.{process_batch, run_cycles}
use pericarp.Subscriptions.Subscriber.Parked.{replay_parked_event, entry_in, replay_undoes_park}
use pericarp.Subscriptions.Subscriber.Backoff.{backoff_delay-min}
use pericarp.Subscriptions.Subscriber.Settle.{IsSteady}
use pericarp.Subscriptions.Subscriber.Attempts.{Settles}
use pericarp.Subscriptions.Subscriber.Runs.{process_event-Settles}
use pericarp.Subscriptions.Subscriber.Batches.{BatchOutcome, process_batch-BatchOutcome}
use pericarp.Subscriptions.Subscriber.Drain.{feed, IsDrained, run_cycles-IsDrained}
use pericarp.Tests.Data.{at, a1, a2, two_aggregates}

abbrev checkpoints : MemoryCheckpointStore
checkpoints = new_memory_checkpoint_store

abbrev acquired : MemoryCheckpointStore
acquired = record { positions = []; held = ("orders", true) ∷ [] }

abbrev batch : MemoryBatch
batch = record { subscriber = "orders"; position = pos 0; done = false }

-- Another subscriber takes a batch and moves on, and this one asks twice.
abbrev between : List Call
between =
    acquires "billing"
    ∷ commits (record { subscriber = "billing"; position = pos 0; done = false }) (pos 4)
    ∷ acquires "orders"
    ∷ resets "orders" (pos 7)
    ∷ []

in_flight-excludes_example :
    let m₂ = after_calls between acquired in
    (acquire "orders" m₂ ≡ (m₂, none))
    × (reset "orders" (pos 9) m₂ ≡ (m₂, some batch_in_flight))
    × (batch.position ≡ position_of "orders" m₂)
    × ((commit_batch (pos 9) batch m₂).2 ≡ none)
    × (position_of "orders" (commit_batch (pos 9) batch m₂).1 ≡ pos 9)
unfolding acquire get put
in_flight-excludes_example =
    in_flight-excludes "orders" checkpoints acquired batch between (pos 9) refl
      (tt, (inr (λ e. ground (arith, eq_true "billing" "orders" e)), (tt, (tt, tt))))

abbrev poison : ParkedEvent
poison = record {
  subscriber = "orders";
  event_id = "e1";
  event_type = "order.created";
  position = pos 1;
  error = "no stock";
  attempts = pos 4;
  parked_at = 0;
}

abbrev lot : MemoryParkingLot
lot = record { parked = ("orders", ("e1", poison) ∷ []) ∷ []; replaying = [] }

abbrev started : MemoryParkingLot
started = record lot { replaying = (replay_key "orders" "e1", true) ∷ [] }

abbrev settling : MemoryParkingLot → MemoryParkingLot × Option String
settling m = (m, none)

abbrev refusing : MemoryParkingLot → MemoryParkingLot × Option String
refusing m = (m, some "no stock")

-- The defaults of NewSubscriber, with pages of two events.
abbrev orders : Subscriber
orders = record {
  name = "orders";
  batch_size = pos 2;
  poll_interval = pos 5000000000;
  max_retries = pos 1;
  retry_backoff = pos 250000000;
  max_backoff = pos 30000000000;
}

backoff_delay-min_example : backoff_delay orders 100 ≡ pos (min (250000000 * 2 ^ 100) 30000000000)
backoff_delay-min_example =
    backoff_delay-min orders 250000000 30000000000 100 (omega arith) refl refl

-- The world counts the events that were handled; the second event of an aggregate is refused.
abbrev refuses : Envelope ℕ ℕ → ℕ → ℕ × Option String
refuses event w = if event.id == "e2" then (w + 10, some "no stock") else (w + 1, none)

abbrev go_back : ℕ → ℕ → ℕ × Option String
go_back w w' = (w, none)

abbrev park_into : ParkedEvent → MemoryParkingLot → MemoryParkingLot × Option String
park_into e l = (park e l, none)

abbrev runtime : Runtime ℕ ℕ MemoryParkingLot
runtime = record {
  handler = refuses;
  savepoint = λ w. none;
  restore = go_back;
  park = some park_into;
  cancelled = λ n. false;
  now = 0;
}

abbrev runtime-IsSteady : IsSteady runtime
runtime-IsSteady = record {
  marks = λ w. refl;
  restores = λ w w'. refl;
  park = park_into;
  has_lot = refl;
  parks = λ e l. refl;
  runs_on = λ n. refl;
}

process_event-Settles_example :
    Settles orders runtime
      (pos 2)
      (at 2 a2)
      1
      0
      0
      new_memory_parking_lot
      (process_event orders runtime (at 2 a2) 0 new_memory_parking_lot)
process_event-Settles_example =
    process_event-Settles orders runtime 1 (at 2 a2) 0 new_memory_parking_lot refl (omega arith)

abbrev orders_feed : ℤ → ℤ → Reply (List (Envelope ℕ ℕ))
orders_feed p limit = ok (read_after p limit two_aggregates)

process_batch-BatchOutcome_example :
    BatchOutcome orders runtime orders_feed checkpoints 0 new_memory_parking_lot
      (process_batch orders runtime orders_feed checkpoints 0 new_memory_parking_lot)
process_batch-BatchOutcome_example =
    process_batch-BatchOutcome orders runtime orders_feed checkpoints 0 new_memory_parking_lot

abbrev two_aggregates-IsSound : (head : ℕ) × IsFeed head two_aggregates
two_aggregates-IsSound =
    (3, record { at_head = refl; rises = (omega arith, (omega arith, (omega arith, omega arith))) })

run_cycles-IsDrained_example :
    IsDrained memory_event_store two_aggregates two_aggregates-IsSound orders runtime
      runtime-IsSteady
      (position_of "orders" checkpoints)
      0
      new_memory_parking_lot
      (run_cycles orders runtime
        (feed memory_event_store two_aggregates two_aggregates-IsSound orders runtime
          runtime-IsSteady)
        3
        checkpoints
        0
        new_memory_parking_lot)
unfolding get read_after position_of
run_cycles-IsDrained_example =
    run_cycles-IsDrained memory_event_store two_aggregates two_aggregates-IsSound orders runtime
      runtime-IsSteady 3 checkpoints 0 new_memory_parking_lot refl (omega arith)

-- The handler takes the event now.
abbrev takes : Envelope ℕ ℕ → MemoryParkingLot → MemoryParkingLot × Option String
takes event m = (m, none)

replay_undoes_park_example :
    let result =
      replay_parked_event orders two_aggregates takes "e1"
        (some (park (record poison { subscriber = "orders" }) new_memory_parking_lot)) in
    (result.1 ≡ none)
    × ((subscriber event_id : String)
        → entry_in subscriber event_id result.0 ≡ (
            if "orders" == subscriber && "e1" == event_id
            then none
            else entry_of subscriber event_id new_memory_parking_lot))
unfolding get_event_by_id get
replay_undoes_park_example =
    replay_undoes_park orders two_aggregates takes poison (at 1 a1) new_memory_parking_lot refl refl
      (λ lot. refl)
