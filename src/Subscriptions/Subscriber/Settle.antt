-- ===== src/Subscriptions/Subscriber/Settle.antt =====
-- How a Subscriber with a parking lot settles every event (processEvent in subscriber.go).
use pericarp.Prelude.{
  String, Bool, true, false, ◌≡◌, refl, ap, sym, ◌∙◌, ℕ, zero, suc, Option, none, some, List, [],
  ◌∷◌, ◌++◌, Option-cases, inl, inr,
}
use pericarp.Prelude.Int.{pos, pos_part, ◌+ℤ◌}
use pericarp.Event.{Envelope}
use pericarp.Subscriptions.Parking.{ParkedEvent}
use pericarp.Subscriptions.Subscriber.{
  Subscriber, SubscriberError, Runtime, give_up, after_failure, attempt_event, attempts,
  process_event, process_events,
}

-- Nothing but the handler fails: savepoints work, there is a parking lot that takes every event,
-- and the context is not cancelled during a backoff.
pub record IsSteady {Any W L : Type 0} (r : Runtime Any W L) : Type 0 where
  pub marks : (w : W) → r.savepoint w ≡ none
  pub restores : (w w' : W) → (r.restore w w').1 ≡ none
  pub park : ParkedEvent → L → L × Option String
  pub has_lot : r.park ≡ some park
  pub parks : (e : ParkedEvent) (l : L) → (park e l).1 ≡ none
  pub runs_on : (n : ℕ) → r.cancelled n ≡ false

module _ {Any W L : Type 0} (s : Subscriber) (r : Runtime Any W L) (steady : IsSteady r) where
  -- The record of an event that the subscriber gives up on.
  abbrev pub entry : Envelope Any Any → String → ParkedEvent
  entry event error = record {
    subscriber = s.name;
    event_id = event.id;
    event_type = event.event_type;
    position = event.position;
    error = error;
    attempts = s.max_retries +ℤ pos 1;
    parked_at = r.now;
  }

  give_up_parks :
      (event : Envelope Any Any) (error : String) (w : W) (l : L)
      → give_up s r event error w l ≡ (w, (steady.park (entry event error) l).0, none)
  unfolding give_up
  give_up_parks event error w l =
      rw (steady.has_lot, give_up) (rw (steady.parks (entry event error) l) refl)

  after_failure-none :
      (again : W → L → W × L × Option SubscriberError) (last : Bool) (n : ℕ)
      (event : Envelope Any Any) (error : String) (w : W) (l : L)
      → ((w' : W) (l' : L) → (again w' l').2 ≡ none)
      → (after_failure s r again last n event error w l).2 ≡ none
  unfolding after_failure
  after_failure-none again true n event error w l h =
      rw (steady.has_lot, after_failure) (ap (λ t. t.2) (give_up_parks event error w l))
  after_failure-none again false n event error w l h =
      rw (steady.has_lot, after_failure) (rw (steady.runs_on n) (h w l))

  attempt_event-none :
      (again : W → L → W × L × Option SubscriberError) (last : Bool) (n : ℕ)
      (event : Envelope Any Any) (w : W) (l : L)
      → ((w' : W) (l' : L) → (again w' l').2 ≡ none)
      → (attempt_event s r again last n event w l).2 ≡ none
  unfolding attempt_event
  attempt_event-none again last n event w l h =
      rw (steady.marks w, attempt_event)
        (elim (Option-cases (r.handler event w).1) [
          | inl handled ↦ rw handled refl
          | inr (e, failed) ↦
              let w' = (r.handler event w).0 in
              rw failed (
                rw (steady.restores w w')
                  (after_failure-none again last n event e (r.restore w w').0 l h))
        ])

  attempts_none :
      (left n : ℕ) (event : Envelope Any Any) (w : W) (l : L)
      → (attempts s r left n event w l).2 ≡ none
  unfolding attempts
  attempts_none zero n event w l =
      attempt_event-none (λ w' l'. (w', l', none)) true n event w l (λ w' l'. refl)
  attempts_none (suc left) n event w l =
      attempt_event-none (attempts s r left (suc n) event) false n event w l
        (attempts_none left (suc n) event)

  -- With a parking lot, and where only handlers fail, processEvent returns no error for any event,
  -- whatever the handler answers: no event stops its batch.
  pub process_event_settles :
      (event : Envelope Any Any) (w : W) (l : L) → (process_event s r event w l).2 ≡ none
  unfolding process_event
  process_event_settles event w l = attempts_none (pos_part s.max_retries) 0 event w l

  process_events_step :
      (event : Envelope Any Any) (events : List (Envelope Any Any)) (w : W) (l : L)
      → process_events s r (event ∷ events) w l
        ≡ process_events s r events (process_event s r event w l).0 (process_event s r event w l).1
  unfolding process_events
  process_events_step event events w l = rw (process_event_settles event w l, process_events)

  pub process_events_settle :
      (events : List (Envelope Any Any)) (w : W) (l : L) → (process_events s r events w l).2 ≡ none
  process_events_settle [] w l = unfold process_events in refl
  process_events_settle (event ∷ events) w l =
      ap (λ t. t.2) (process_events_step event events w l)
      ∙ process_events_settle events (process_event s r event w l).0 (process_event s r event w l).1

  -- A batch that is cut in two is processed like the two one after the other.
  pub process_events-append :
      (xs ys : List (Envelope Any Any)) (w : W) (l : L)
      → process_events s r (xs ++ ys) w l
        ≡ process_events s r ys (process_events s r xs w l).0 (process_events s r xs w l).1
  process_events-append [] ys w l = unfold process_events in refl
  process_events-append (event ∷ xs) ys w l =
      let w' = (process_event s r event w l).0 in
      let l' = (process_event s r event w l).1 in
      process_events_step event (xs ++ ys) w l
      ∙ process_events-append xs ys w' l'
      ∙ ap (λ (t : W × L × Option SubscriberError). process_events s r ys t.0 t.1)
          (sym (process_events_step event xs w l))
