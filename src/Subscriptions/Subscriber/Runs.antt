-- ===== src/Subscriptions/Subscriber/Runs.antt =====
-- What processEvent and the loop of processBatch do with each event (subscriber.go).
use pericarp.Prelude.{
  ◌≡◌, ◌∙◌, ap, subst, ℕ, ◌+◌, ◌<◌, ◌^◌, Option, none, some, List, [], ◌∷◌, Option-cases, inl, inr,
}
use pericarp.Prelude.Int.{pos, pos_part, ◌+ℤ◌, step_pos}
use pericarp.Event.{Envelope}
use pericarp.Subscriptions.Subscriber.{
  Subscriber, SubscriberError, Runtime, attempts, process_event, process_events,
}
use pericarp.Subscriptions.Subscriber.Attempts.{Settles, attempts-Settles}

module _ {Any W L : Type 0} (s : Subscriber) (r : Runtime Any W L) where
  -- An event as processBatch settles it.
  abbrev pub SettlesEvent : Envelope Any Any → W → L → W × L × Option SubscriberError → Type 0
  SettlesEvent event w l result =
      Settles s r (s.max_retries +ℤ pos 1) event (pos_part s.max_retries) 0 w l result

  -- processEvent with `k` retries, k + 1 below 2^63, makes attempts until the handler takes the
  -- event, and at most k + 1 of them: each starts at a savepoint that it goes back to when the handler fails. Behind
  -- attempt k + 1 and no earlier the event is parked, with the last error and the count k + 1.
  -- Without a parking lot the first refusal is returned as an error, as is a failed savepoint,
  -- rollback or park, or a cancellation during a backoff.
  pub process_event-Settles :
      (k : ℕ) (event : Envelope Any Any) (w : W) (l : L)
      → s.max_retries ≡ pos k
      → k + 1 < 2 ^ 63
      → Settles s r (pos (k + 1)) event k 0 w l (process_event s r event w l)
  unfolding process_event
  process_event-Settles k event w l retries bound =
      subst (λ c. Settles s r c event k 0 w l (attempts s r (pos_part s.max_retries) 0 event w l))
        (ap (λ m. m +ℤ pos 1) retries ∙ step_pos k bound)
        (subst
          (λ j.
            Settles s r (s.max_retries +ℤ pos 1) event j 0 w l
              (attempts s r (pos_part s.max_retries) 0 event w l))
          (ap pos_part retries) (attempts-Settles s r (pos_part s.max_retries) 0 event w l))

  -- The events of a batch, each settled once and in order, up to one that returns an error.
  pub data Ran : List (Envelope Any Any) → W → L → W × L × Option SubscriberError → Type 0 where
    through : (w : W) (l : L) → Ran [] w l (w, l, none)
    next :
        (event : Envelope Any Any) (events : List (Envelope Any Any)) (w w' : W) (l l' : L)
        (result : W × L × Option SubscriberError)
        → SettlesEvent event w l (w', l', none)
        → Ran events w' l' result
        → Ran (event ∷ events) w l result
    stop :
        (event : Envelope Any Any) (events : List (Envelope Any Any)) (w w' : W) (l l' : L)
        (e : SubscriberError)
        → SettlesEvent event w l (w', l', some e)
        → Ran (event ∷ events) w l (w', l', some e)

  pub process_events-Ran :
      (events : List (Envelope Any Any)) (w : W) (l : L)
      → Ran events w l (process_events s r events w l)
  unfolding process_events process_event
  process_events-Ran [] w l = through w l
  process_events-Ran (event ∷ events) w l =
      let (w', l', error) = process_event s r event w l in
      let settles = attempts-Settles s r (pos_part s.max_retries) 0 event w l in
      elim (Option-cases error) [
        | inl fine ↦
            rw (fine, process_events)
              (next event events w w' l l' (process_events s r events w' l')
                (subst (λ x. SettlesEvent event w l (w', l', x)) fine settles)
                (process_events-Ran events w' l'))
        | inr (e, failed) ↦
            rw (failed, process_events)
              (stop event events w w' l l' e
                (subst (λ x. SettlesEvent event w l (w', l', x)) failed settles))
      ]
