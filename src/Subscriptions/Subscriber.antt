-- ===== src/Subscriptions/Subscriber.antt =====
-- pkg/eventsourcing/subscriptions/subscriber.go: the settings of a Subscriber, one event
-- with its retries, and the lag.
-- The world `W` is what the handler acts on, and `L` the parking lot. A handler panic is left out.
pub mod Backoff
pub mod Attempts
pub mod Runs
pub mod Settle
pub mod Cycles
pub mod Batches
pub mod Drain
pub mod Parked
use pericarp.Prelude.{
  String, ◌==◌, Bool, true, false, not, ◌&&◌, ◌||◌, ℕ, zero, suc, ◌+◌, ◌/◌, Option, none, some,
  List, [], ◌∷◌, length, last_or, if◌then◌else◌,
}
use pericarp.Prelude.Int.{ℤ, pos, negsuc, pos_part, sub_ℕ, ltb_ℤ, leb_ℤ, ◌+ℤ◌, ◌-ℤ◌}
use pericarp.Event.{Envelope, StoreError}
use pericarp.EventStore.Memory.{Reply, ok, err}
use pericarp.Subscriptions.Checkpoint.{
  MemoryCheckpointStore, MemoryBatch, CheckpointError, acquire, position_of, commit_batch,
  rollback_batch,
}
use pericarp.Subscriptions.Parking.{ParkedEvent}

pub data SubscriberError : Type 0 where
  empty_name bad_batch_size bad_poll_interval bad_max_retries bad_backoff : SubscriberError
  savepoint_failed rollback_failed park_failed shut_down : String → SubscriberError
  handler_failed : String → SubscriberError
  read_failed : StoreError → SubscriberError
  commit_failed : CheckpointError → SubscriberError
  ahead_of_head : ℤ → ℤ → SubscriberError

-- The fields of a Subscriber that its options set. Durations are in nanoseconds.
pub record Subscriber : Type 0 where
  pub name : String
  pub batch_size : ℤ
  pub poll_interval : ℤ
  pub max_retries : ℤ
  pub retry_backoff : ℤ
  pub max_backoff : ℤ

-- The checks of NewSubscriber on the values that the options leave (the nil checks aside).
unfoldable pub check_subscriber : Subscriber → Option SubscriberError
check_subscriber s =
    if s.name == ""
    then some empty_name
    else if leb_ℤ s.batch_size (pos 0)
    then some bad_batch_size
    else if leb_ℤ s.poll_interval (pos 0)
    then some bad_poll_interval
    else if ltb_ℤ s.max_retries (pos 0)
    then some bad_max_retries
    else if leb_ℤ s.retry_backoff (pos 0) || ltb_ℤ s.max_backoff s.retry_backoff
    then some bad_backoff
    else none

-- `d / 2` on int64, which rounds towards zero.
abbrev pub half : ℤ → ℤ
half (pos n) = pos (n / 2)
half (negsuc n) = sub_ℕ 0 (suc n / 2)

-- The loop of backoffDelay: `none` past the last doubling, or the early return.
unfoldable pub backoff_loop : ℤ → ℕ → ℤ → ℤ
backoff_loop max_backoff zero delay = if ltb_ℤ delay max_backoff then delay else max_backoff
backoff_loop max_backoff (suc attempt) delay =
    let doubled = backoff_loop max_backoff attempt (delay +ℤ delay) in
    if ltb_ℤ (half max_backoff) delay then max_backoff else doubled

-- backoffDelay
unfoldable pub backoff_delay : Subscriber → ℕ → ℤ
unfolding backoff_loop ◌+ℤ◌
backoff_delay s attempt = backoff_loop s.max_backoff attempt s.retry_backoff

-- What the subscriber calls on behalf of one event. `savepoint` and `restore` are Savepoint and
-- RollbackToSavepoint of the batch: `restore w w'` is what is left of `w'` after going back to the
-- savepoint taken at `w`. Without a parking lot `park` is `none`. `cancelled n` says that the
-- context is cancelled during the backoff behind attempt `n`.
pub record Runtime (Any W L : Type 0) : Type 0 where
  pub handler : Envelope Any Any → W → W × Option String
  pub savepoint : W → Option String
  pub restore : W → W → W × Option String
  pub park : Option (ParkedEvent → L → L × Option String)
  pub cancelled : ℕ → Bool
  pub now : ℕ

module _ {Any W L : Type 0} (s : Subscriber) (r : Runtime Any W L) where
  -- The end of processEvent: without a parking lot the error, else the event is parked.
  unfoldable pub give_up : Envelope Any Any → String → W → L → W × L × Option SubscriberError
  give_up event error w l = elim r.park [
    | none ↦ (w, l, some (handler_failed error))
    | some park ↦
        let (l', failed) =
          park
            (record {
              subscriber = s.name;
              event_id = event.id;
              event_type = event.event_type;
              position = event.position;
              error = error;
              attempts = s.max_retries +ℤ pos 1;
              parked_at = r.now;
            })
            l in
        elim failed [ none ↦ (w, l', none) | some e ↦ (w, l', some (park_failed e)) ]
  ]

  -- The loop of processEvent: `left` is how many retries are left behind this attempt, so that
  -- `attempt >= s.maxRetries` is `left` being zero. What follows a failed handler is apart.
  unfoldable pub after_failure :
      (W → L → W × L × Option SubscriberError)
      → Bool
      → ℕ
      → Envelope Any Any
      → String
      → W
      → L
      → W × L × Option SubscriberError
  unfolding give_up
  after_failure again last_attempt attempt event error w l = elim r.park [
    | none ↦ give_up event error w l
    | some park ↦
        if last_attempt
        then give_up event error w l
        else if r.cancelled attempt
        then (w, l, some (shut_down error))
        else again w l
  ]

  -- One attempt, between its savepoint and the handler's answer.
  unfoldable pub attempt_event :
      (W → L → W × L × Option SubscriberError)
      → Bool
      → ℕ
      → Envelope Any Any
      → W
      → L
      → W × L × Option SubscriberError
  unfolding after_failure
  attempt_event again last_attempt attempt event w l = elim (r.savepoint w) [
    | some e ↦ (w, l, some (savepoint_failed e))
    | none ↦
        let (w₁, error) = r.handler event w in
        elim error [
          | none ↦ (w₁, l, none)
          | some e ↦
              let (w₂, undone) = r.restore w w₁ in
              elim undone [
                | some f ↦ (w₂, l, some (rollback_failed f))
                | none ↦ after_failure again last_attempt attempt event e w₂ l
              ]
        ]
  ]

  unfoldable pub attempts : ℕ → ℕ → Envelope Any Any → W → L → W × L × Option SubscriberError
  unfolding attempt_event
  attempts zero attempt event w l = attempt_event (λ w' l'. (w', l', none)) true attempt event w l
  attempts (suc left) attempt event w l =
      attempt_event (attempts left (suc attempt) event) false attempt event w l

  -- processEvent
  unfoldable pub process_event : Envelope Any Any → W → L → W × L × Option SubscriberError
  unfolding attempts
  process_event event w l = attempts (pos_part s.max_retries) 0 event w l

  -- The loop of processBatch.
  unfoldable pub process_events : List (Envelope Any Any) → W → L → W × L × Option SubscriberError
  process_events [] w l = (w, l, none)
  process_events (event ∷ events) w l =
      let (w', l', error) = process_event event w l in
      elim error [ none ↦ process_events events w' l' | some e ↦ (w', l', some e) ]

-- Lag, from the head of the feed: HeadPosition minus the committed checkpoint.
unfoldable pub lag : String → ℤ → MemoryCheckpointStore → ℤ × Option SubscriberError
lag name head m =
    let position = position_of name m in
    if ltb_ℤ head position
    then (pos 0, some (ahead_of_head position head))
    else (head -ℤ position, none)
