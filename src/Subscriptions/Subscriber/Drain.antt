-- ===== src/Subscriptions/Subscriber/Drain.antt =====
-- The cycles of a Subscriber's Run together, over any event store (subscriber.go).
use pericarp.Prelude.{
  false, ◌≡◌, refl, ap, sym, subst, ◌∙◌, ℕ, zero, suc, ◌≤◌, Option, none, some, List, [], ◌∷◌, ◌++◌,
  arith, last_or, length, length-append,
}
use pericarp.Prelude.Int.{ℤ, pos}
use pericarp.Event.{Envelope}
use pericarp.EventStore.Contract.{EventStore, last_position}
use pericarp.EventStore.Memory.{Reply, ok}
use pericarp.Subscriptions.Checkpoint.{MemoryCheckpointStore, position_of}
use pericarp.Subscriptions.Checkpoint.Laws.{is_held}
use pericarp.Subscriptions.Subscriber.{Subscriber, SubscriberError, Runtime, process_events}
use pericarp.Subscriptions.Subscriber.Cycles.{Cycle, process_batch, run_cycles}
use pericarp.Subscriptions.Subscriber.Runs.{Ran, through, process_events-Ran}
use pericarp.Subscriptions.Subscriber.Settle.{
  IsSteady, process_events_settle, process_events-append,
}
use pericarp.Subscriptions.Subscriber.Batches.{
  BatchOutcome, skipped, unread, idle, stopped, advanced, IsReleased, process_batch-BatchOutcome,
}

module _ {Any : Type 0} where
  last_position-last_or :
      (p : ℤ) (x : Envelope Any Any) (xs : List (Envelope Any Any))
      → last_position p (x ∷ xs) ≡ (last_or x xs).position
  last_position-last_or p x [] = refl
  last_position-last_or p x (y ∷ ys) = last_position-last_or x.position y ys

  last_position-append :
      (p : ℤ) (xs ys : List (Envelope Any Any))
      → last_position p (xs ++ ys) ≡ last_position (last_position p xs) ys
  last_position-append p [] ys = refl
  last_position-append p (x ∷ xs) ys = last_position-append x.position xs ys

module _ {Any W L : Type 0} (S : EventStore Any) (store : S.Store) (sound : S.IsSound store)
    (s : Subscriber) (r : Runtime Any W L) (steady : IsSteady r) where
  -- The store's feed, while nothing is appended.
  abbrev pub feed : ℤ → ℤ → Reply (List (Envelope Any Any))
  feed p limit = ok (S.read_after p limit store)

  -- Everything behind the position `p` was settled once, in the order of the feed, from `w` and `l`:
  -- `each` tells it attempt by attempt.
  pub record IsDrained (p : ℤ) (w : W) (l : L) (c : Cycle W L) : Type 0 where
    pub each : Ran s r (S.read_after p (pos 0) store) w l (c.world, c.lot, none)
    pub settled : process_events s r (S.read_after p (pos 0) store) w l ≡ (c.world, c.lot, none)
    pub position : position_of s.name c.checkpoints ≡ last_position p (S.read_after p (pos 0) store)
    pub released : is_held s.name c.checkpoints ≡ false
    pub finished : c.error ≡ none

  -- A cycle of Run, and what follows it.
  abbrev after : ℕ → Cycle W L → Cycle W L
  after fuel c = elim c.processed [
    | zero ↦ c
    | suc n ↦ elim c.error [
      | some e ↦ c
      | none ↦ run_cycles s r feed fuel c.checkpoints c.world c.lot
    ]
  ]

  idle-IsDrained :
      (m : MemoryCheckpointStore) (w : W) (l : L) (checkpoints : MemoryCheckpointStore)
      → S.read_after (position_of s.name m) s.batch_size store ≡ []
      → IsReleased s r feed (position_of s.name m) checkpoints
      → IsDrained
          (position_of s.name m)
          w
          l
          (record { checkpoints = checkpoints; world = w; lot = l; processed = 0; error = none })
  idle-IsDrained m w l checkpoints read back =
      let nothing = S.read_empty (position_of s.name m) s.batch_size store read in
      record {
        each = rw nothing (through w l);
        settled = rw nothing (unfold process_events in refl);
        position = rw nothing back.position;
        released = back.released;
        finished = refl;
      }

  read_whole :
      (p : ℤ) (x : Envelope Any Any) (xs : List (Envelope Any Any))
      → S.read_after p s.batch_size store ≡ x ∷ xs
      → (x ∷ xs) ++ S.read_after (last_or x xs).position (pos 0) store
        ≡ S.read_after p (pos 0) store
  read_whole p x xs read =
      subst (λ q. (x ∷ xs) ++ S.read_after q (pos 0) store ≡ S.read_after p (pos 0) store)
        (last_position-last_or p x xs) (S.read_resumes p s.batch_size store x xs sound read)

  -- What an advancing cycle leaves to read is behind the events that it settled.
  more-IsDrained :
      (p : ℤ) (x : Envelope Any Any) (xs : List (Envelope Any Any)) (w w' : W) (l l' : L)
      (c : Cycle W L)
      → S.read_after p s.batch_size store ≡ x ∷ xs
      → process_events s r (x ∷ xs) w l ≡ (w', l', none)
      → IsDrained (last_or x xs).position w' l' c
      → IsDrained p w l c
  more-IsDrained p x xs w w' l l' c read settled rest =
      let last = last_position-last_or p x xs in
      let ys = S.read_after (last_or x xs).position (pos 0) store in
      let whole = read_whole p x xs read in
      let all : process_events s r (S.read_after p (pos 0) store) w l ≡ (c.world, c.lot, none) =
        ap (λ es. process_events s r es w l) (sym whole)
        ∙ process_events-append s r steady (x ∷ xs) ys w l
        ∙ ap (λ (t : W × L × Option SubscriberError). process_events s r ys t.0 t.1) settled
        ∙ rest.settled in
      record {
        each =
            subst (Ran s r (S.read_after p (pos 0) store) w l) all
              (process_events-Ran s r (S.read_after p (pos 0) store) w l);
        settled = all;
        position =
            rest.position
            ∙ ap (λ q. last_position q ys) (sym last)
            ∙ sym (last_position-append p (x ∷ xs) ys)
            ∙ ap (last_position p) whole;
        released = rest.released;
        finished = rest.finished;
      }

  -- What is left to read, in length.
  abbrev left : ℤ → ℕ
  left p = length (S.read_after p (pos 0) store)

  left_more :
      (p : ℤ) (x : Envelope Any Any) (xs : List (Envelope Any Any)) (fuel : ℕ)
      → S.read_after p s.batch_size store ≡ x ∷ xs
      → left p ≤ suc fuel
      → left (last_or x xs).position ≤ fuel
  left_more p x xs fuel read bound =
      let ys = S.read_after (last_or x xs).position (pos 0) store in
      let counted = length-append xs ys in
      let same : suc (length (xs ++ ys)) ≡ left p = ap length (read_whole p x xs read) in
      omega arith

  read_list :
      {xs ys : List (Envelope Any Any)}
      → ◌≡◌ {A = Reply (List (Envelope Any Any))} (ok xs) (ok ys)
      → xs ≡ ys
  read_list e = cc e

  settled_world :
      (x : Envelope Any Any) (xs : List (Envelope Any Any)) (w : W) (l : L) (e : SubscriberError)
      → ¬ (process_events s r (x ∷ xs) w l).2 ≡ some e
  settled_world x xs w l e failed =
      let fine = process_events_settle s r steady (x ∷ xs) w l in ground arith

  -- The last cycle, when nothing is left.
  last_cycle :
      (m : MemoryCheckpointStore) (w : W) (l : L) (c : Cycle W L)
      → is_held s.name m ≡ false
      → left (position_of s.name m) ≤ 0
      → BatchOutcome s r feed m w l c
      → IsDrained (position_of s.name m) w l c
  last_cycle m w l c free bound (skipped held same) = absurd (cc (held, free))
  last_cycle m w l c free bound (unread checkpoints e read back same) = absurd (cc read)
  last_cycle m w l c free bound (idle checkpoints read back same) =
      subst (IsDrained (position_of s.name m) w l) (sym same)
        (idle-IsDrained m w l checkpoints (read_list read) back)
  last_cycle m w l c free bound (stopped first rest e read settled ran back failed none_done) =
      absurd (settled_world first rest w l e (ap (λ t. t.2) settled))
  last_cycle m w l c free bound (advanced first rest read settled ran back fine count) =
      let some_left : suc
            (length (rest ++ S.read_after (last_or first rest).position (pos 0) store))
          ≡ left (position_of s.name m) =
        ap length (read_whole (position_of s.name m) first rest (read_list read)) in
      absurd (omega arith)

  -- A cycle with fuel behind it, when what follows drains the rest.
  cycle-IsDrained :
      (fuel : ℕ) (m : MemoryCheckpointStore) (w : W) (l : L) (c : Cycle W L)
      → is_held s.name m ≡ false
      → left (position_of s.name m) ≤ suc fuel
      → BatchOutcome s r feed m w l c
      → (is_held s.name c.checkpoints ≡ false
          → left (position_of s.name c.checkpoints) ≤ fuel
          → IsDrained
              (position_of s.name c.checkpoints)
              c.world
              c.lot
              (run_cycles s r feed fuel c.checkpoints c.world c.lot))
      → IsDrained (position_of s.name m) w l (after fuel c)
  cycle-IsDrained fuel m w l c free bound (skipped held same) next = absurd (cc (held, free))
  cycle-IsDrained fuel m w l c free bound (unread checkpoints e read back same) next =
      absurd (cc read)
  cycle-IsDrained fuel m w l c free bound (idle checkpoints read back same) next =
      subst (λ k. IsDrained (position_of s.name m) w l (after fuel k)) (sym same)
        (idle-IsDrained m w l checkpoints (read_list read) back)
  cycle-IsDrained fuel m w l c free bound
        (stopped first rest e read settled ran back failed none_done) next =
      absurd (settled_world first rest w l e (ap (λ t. t.2) settled))
  cycle-IsDrained fuel m w l c free bound (advanced first rest read settled ran back fine count)
        next =
      let found = read_list read in
      let fits = left_more (position_of s.name m) first rest fuel found bound in
      let tail = next back.released (subst (λ p. left p ≤ fuel) (sym back.position) fits) in
      rw (count, fine)
        (more-IsDrained (position_of s.name m) first rest w c.world l c.lot
          (run_cycles s r feed fuel c.checkpoints c.world c.lot) found settled
          (subst
            (λ p. IsDrained p c.world c.lot (run_cycles s r feed fuel c.checkpoints c.world c.lot))
            back.position tail))

  -- A subscriber with a parking lot, where only handlers fail and no batch of it is in flight,
  -- drains the feed within as many cycles as there are events behind its checkpoint: every one of
  -- them is handled or, behind its last attempt, parked, once and in the order of the feed, the
  -- checkpoint ends at the last event, and no batch stays in flight.
  pub run_cycles-IsDrained :
      (fuel : ℕ) (m : MemoryCheckpointStore) (w : W) (l : L)
      → is_held s.name m ≡ false
      → length (S.read_after (position_of s.name m) (pos 0) store) ≤ fuel
      → IsDrained (position_of s.name m) w l (run_cycles s r feed fuel m w l)
  unfolding run_cycles
  run_cycles-IsDrained zero m w l free bound =
      last_cycle m w l (process_batch s r feed m w l) free bound
        (process_batch-BatchOutcome s r feed m w l)
  run_cycles-IsDrained (suc fuel) m w l free bound =
      cycle-IsDrained fuel m w l (process_batch s r feed m w l) free bound
        (process_batch-BatchOutcome s r feed m w l)
        (run_cycles-IsDrained fuel (process_batch s r feed m w l).checkpoints
          (process_batch s r feed m w l).world (process_batch s r feed m w l).lot)
