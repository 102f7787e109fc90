-- ===== src/Subscriptions/Subscriber/Batches.antt =====
-- What one cycle of a Subscriber leaves, on every branch (processBatch in subscriber.go).
use pericarp.Prelude.{
  true, false, ◌≡◌, refl, ap, sym, subst, ◌∙◌, none, some, List, [], ◌∷◌, Option-cases, Bool-cases,
  inl, inr, last_or, length,
}
use pericarp.Prelude.Int.{ℤ, pos}
use pericarp.Prelude.Dict.{put}
use pericarp.Event.{Envelope, StoreError}
use pericarp.EventStore.Memory.{Reply, ok, err}
use pericarp.Subscriptions.Checkpoint.{
  MemoryCheckpointStore, MemoryBatch, acquire, position_of, commit_batch, rollback_batch,
}
use pericarp.Subscriptions.Checkpoint.Laws.{
  is_held, acquire_held, acquire_free, acquire_excludes, commit_finishes, rollback_releases,
}
use pericarp.Subscriptions.Subscriber.{
  Subscriber, SubscriberError, read_failed, Runtime, process_events,
}
use pericarp.Subscriptions.Subscriber.Runs.{Ran, process_events-Ran}
use pericarp.Subscriptions.Subscriber.Cycles.{
  Cycle, handle_batch, read_batch, run_acquired, process_batch,
}

module _ {Any W L : Type 0} (s : Subscriber) (r : Runtime Any W L)
    (feed : ℤ → ℤ → Reply (List (Envelope Any Any))) where
  -- The batch is over, and the subscriber's checkpoint is `p`.
  pub record IsReleased (p : ℤ) (m : MemoryCheckpointStore) : Type 0 where
    pub released : is_held s.name m ≡ false
    pub position : position_of s.name m ≡ p

  -- How a cycle can end, from the checkpoints, the world and the lot that it found.
  pub data BatchOutcome (m : MemoryCheckpointStore) (w : W) (l : L) (c : Cycle W L) : Type 0 where
    -- another batch is in flight: nothing happens
    skipped :
        is_held s.name m ≡ true
        → c ≡ record { checkpoints = m; world = w; lot = l; processed = 0; error = none }
        → BatchOutcome m w l c
    -- the feed could not be read: the batch is given back
    unread :
        (checkpoints : MemoryCheckpointStore) (e : StoreError)
        → feed (position_of s.name m) s.batch_size ≡ err e
        → IsReleased (position_of s.name m) checkpoints
        → c ≡ record {
          checkpoints = checkpoints;
          world = w;
          lot = l;
          processed = 0;
          error = some (read_failed e);
        }
        → BatchOutcome m w l c
    -- there was no event: the batch is given back
    idle :
        (checkpoints : MemoryCheckpointStore)
        → feed (position_of s.name m) s.batch_size ≡ ok []
        → IsReleased (position_of s.name m) checkpoints
        → c ≡ record { checkpoints = checkpoints; world = w; lot = l; processed = 0; error = none }
        → BatchOutcome m w l c
    -- the events were settled up to one that returned an error: the checkpoint stays
    stopped :
        (first : Envelope Any Any) (rest : List (Envelope Any Any)) (error : SubscriberError)
        → feed (position_of s.name m) s.batch_size ≡ ok (first ∷ rest)
        → process_events s r (first ∷ rest) w l ≡ (c.world, c.lot, some error)
        → Ran s r (first ∷ rest) w l (c.world, c.lot, some error)
        → IsReleased (position_of s.name m) c.checkpoints
        → c.error ≡ some error
        → c.processed ≡ 0
        → BatchOutcome m w l c
    -- every event was settled: the checkpoint moves to the last one
    advanced :
        (first : Envelope Any Any) (rest : List (Envelope Any Any))
        → feed (position_of s.name m) s.batch_size ≡ ok (first ∷ rest)
        → process_events s r (first ∷ rest) w l ≡ (c.world, c.lot, none)
        → Ran s r (first ∷ rest) w l (c.world, c.lot, none)
        → IsReleased (last_or first rest).position c.checkpoints
        → c.error ≡ none
        → c.processed ≡ length (first ∷ rest)
        → BatchOutcome m w l c

  module _ (m m₁ : MemoryCheckpointStore) (b : MemoryBatch)
      (acquired : acquire s.name m ≡ (m₁, some b)) where
    given_back : IsReleased (position_of s.name m) (rollback_batch b m₁).1
    given_back =
        let (released, same) = rollback_releases s.name m m₁ b acquired s.name in
        record { released = released; position = same }

    handle_batch_stopped :
        (first : Envelope Any Any) (rest : List (Envelope Any Any)) (w : W) (l : L)
        (e : SubscriberError)
        → (process_events s r (first ∷ rest) w l).2 ≡ some e
        → handle_batch s r first rest b m₁ w l ≡ record {
          checkpoints = (rollback_batch b m₁).1;
          world = (process_events s r (first ∷ rest) w l).0;
          lot = (process_events s r (first ∷ rest) w l).1;
          processed = 0;
          error = some e;
        }
    unfolding handle_batch
    handle_batch_stopped first rest w l e failed = rw (failed, handle_batch)

    handle_batch_advanced :
        (first : Envelope Any Any) (rest : List (Envelope Any Any)) (w : W) (l : L)
        → (process_events s r (first ∷ rest) w l).2 ≡ none
        → handle_batch s r first rest b m₁ w l ≡ record {
          checkpoints = (commit_batch (last_or first rest).position b m₁).1;
          world = (process_events s r (first ∷ rest) w l).0;
          lot = (process_events s r (first ∷ rest) w l).1;
          processed = length (first ∷ rest);
          error = none;
        }
    unfolding handle_batch
    handle_batch_advanced first rest w l settled =
        let (committed, _, _, _, _) =
          commit_finishes s.name m m₁ b acquired (last_or first rest).position in
        rw (settled, handle_batch) (rw committed refl)

    handle_batch-Outcome :
        (first : Envelope Any Any) (rest : List (Envelope Any Any)) (w : W) (l : L)
        → feed (position_of s.name m) s.batch_size ≡ ok (first ∷ rest)
        → BatchOutcome m w l (handle_batch s r first rest b m₁ w l)
    handle_batch-Outcome first rest w l read =
        let settled = process_events s r (first ∷ rest) w l in
        let ran = process_events-Ran s r (first ∷ rest) w l in
        elim (Option-cases settled.2) [
          | inl done ↦
              let (_, moved, released, _, _) =
                commit_finishes s.name m m₁ b acquired (last_or first rest).position in
              subst (BatchOutcome m w l) (sym (handle_batch_advanced first rest w l done)) (
                advanced first rest read (ap (λ o. (settled.0, settled.1, o)) done)
                  (subst (λ o. Ran s r (first ∷ rest) w l (settled.0, settled.1, o)) done ran)
                  (record { released = released; position = moved }) refl refl)
          | inr (e, failed) ↦
              subst (BatchOutcome m w l) (sym (handle_batch_stopped first rest w l e failed)) (
                stopped first rest e read (ap (λ o. (settled.0, settled.1, o)) failed)
                  (subst (λ o. Ran s r (first ∷ rest) w l (settled.0, settled.1, o)) failed ran)
                  given_back refl refl)
        ]

    reads_at : (limit : ℤ) → feed b.position limit ≡ feed (position_of s.name m) limit
    reads_at limit =
        let (_, _, at) = acquire_excludes s.name m m₁ b acquired (pos 0) in
        ap (λ p. feed p limit) at

    read_batch-Outcome :
        (reply : Reply (List (Envelope Any Any))) (w : W) (l : L)
        → feed (position_of s.name m) s.batch_size ≡ reply
        → BatchOutcome m w l (read_batch s r feed b m₁ w l)
    unfolding read_batch
    read_batch-Outcome (err e) w l read =
        rw (reads_at s.batch_size ∙ read, read_batch)
          (unread (rollback_batch b m₁).1 e read given_back refl)
    read_batch-Outcome (ok []) w l read =
        rw (reads_at s.batch_size ∙ read, read_batch)
          (idle (rollback_batch b m₁).1 read given_back refl)
    read_batch-Outcome (ok (first ∷ rest)) w l read =
        rw (reads_at s.batch_size ∙ read, read_batch) (handle_batch-Outcome first rest w l read)

  -- Every cycle ends in one of five ways. A batch in flight elsewhere means that nothing happens;
  -- in the others the cycle's own batch is over. The checkpoint has moved to the last event if every
  -- event of the batch was handled or parked, attempt by attempt and in order, and stays where it was
  -- if there was no event, the read failed, or an event ended in an error, before which all were
  -- handled or parked.
  pub process_batch-BatchOutcome :
      (m : MemoryCheckpointStore) (w : W) (l : L)
      → BatchOutcome m w l (process_batch s r feed m w l)
  process_batch-BatchOutcome m w l = elim (Bool-cases (is_held s.name m)) [
    | inl held ↦
        skipped held (
          unfold process_batch in
          ap (λ t. run_acquired s r feed t w l) (acquire_held s.name m held))
    | inr free ↦
        let m₁ : MemoryCheckpointStore = record m { held = put m.held s.name true } in
        let b : MemoryBatch = record {
          subscriber = s.name;
          position = position_of s.name m;
          done = false;
        } in
        let acquired : acquire s.name m ≡ (m₁, some b) = acquire_free s.name m free in
        let whole : process_batch s r feed m w l ≡ read_batch s r feed b m₁ w l =
          unfold process_batch in ap (λ t. run_acquired s r feed t w l) acquired in
        subst (BatchOutcome m w l) (sym whole)
          (read_batch-Outcome m m₁ b acquired (feed (position_of s.name m) s.batch_size) w l refl)
  ]
