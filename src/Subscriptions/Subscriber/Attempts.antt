-- ===== src/Subscriptions/Subscriber/Attempts.antt =====
-- The attempts of processEvent (subscriber.go), told from what the handler, the savepoints and the
-- parking lot answer.
use pericarp.Prelude.{
  String, Bool, true, false, ◌≡◌, ap, sym, subst, ℕ, zero, suc, Option, none, some, Option-cases,
  Bool-cases, inl, inr, arith,
}
use pericarp.Prelude.Int.{ℤ, pos, ◌+ℤ◌}
use pericarp.Event.{Envelope}
use pericarp.Subscriptions.Parking.{ParkedEvent}
use pericarp.Subscriptions.Subscriber.{
  Subscriber, SubscriberError, handler_failed, park_failed, shut_down, savepoint_failed,
  rollback_failed, Runtime, give_up, after_failure, attempt_event, attempts,
}

module _ {Any W L : Type 0} (s : Subscriber) (r : Runtime Any W L) where
  -- The record of an event that was given up after `count` attempts.
  abbrev pub parked_after : ℤ → Envelope Any Any → String → ParkedEvent
  parked_after count event error = record {
    subscriber = s.name;
    event_id = event.id;
    event_type = event.event_type;
    position = event.position;
    error = error;
    attempts = count;
    parked_at = r.now;
  }

  -- An attempt that the handler refused, and whose savepoint was gone back to.
  pub record Refused (event : Envelope Any Any) (w : W) (error : String) (w₂ : W) : Type 0 where
    pub left_by_handler : W
    pub marked : r.savepoint w ≡ none
    pub failed : r.handler event w ≡ (left_by_handler, some error)
    pub undone : r.restore w left_by_handler ≡ (w₂, none)

  -- What becomes of an event at attempt `n` with `left` retries behind it. An event is parked only
  -- behind its last attempt, and a handler that takes it ends its attempts.
  pub data Settles (count : ℤ) (event : Envelope Any Any)
      : ℕ → ℕ → W → L → W × L × Option SubscriberError → Type 0 where
    unmarked :
        (left n : ℕ) (w : W) (l : L) (e : String)
        → r.savepoint w ≡ some e
        → Settles count event left n w l (w, l, some (savepoint_failed e))
    handled :
        (left n : ℕ) (w w₁ : W) (l : L)
        → r.savepoint w ≡ none
        → r.handler event w ≡ (w₁, none)
        → Settles count event left n w l (w₁, l, none)
    unrestored :
        (left n : ℕ) (w w₁ w₂ : W) (l : L) (e f : String)
        → r.savepoint w ≡ none
        → r.handler event w ≡ (w₁, some e)
        → r.restore w w₁ ≡ (w₂, some f)
        → Settles count event left n w l (w₂, l, some (rollback_failed f))
    unparked :
        (left n : ℕ) (w w₂ : W) (l : L) (e : String)
        → Refused event w e w₂
        → r.park ≡ none
        → Settles count event left n w l (w₂, l, some (handler_failed e))
    parked :
        (n : ℕ) (w w₂ : W) (l l' : L) (e : String) (park : ParkedEvent → L → L × Option String)
        → Refused event w e w₂
        → r.park ≡ some park
        → park (parked_after count event e) l ≡ (l', none)
        → Settles count event zero n w l (w₂, l', none)
    lot_failed :
        (n : ℕ) (w w₂ : W) (l l' : L) (e f : String) (park : ParkedEvent → L → L × Option String)
        → Refused event w e w₂
        → r.park ≡ some park
        → park (parked_after count event e) l ≡ (l', some f)
        → Settles count event zero n w l (w₂, l', some (park_failed f))
    ended :
        (left n : ℕ) (w w₂ : W) (l : L) (e : String) (park : ParkedEvent → L → L × Option String)
        → Refused event w e w₂
        → r.park ≡ some park
        → r.cancelled n ≡ true
        → Settles count event (suc left) n w l (w₂, l, some (shut_down e))
    retried :
        (left n : ℕ) (w w₂ : W) (l : L) (e : String) (park : ParkedEvent → L → L × Option String)
        (result : W × L × Option SubscriberError)
        → Refused event w e w₂
        → r.park ≡ some park
        → r.cancelled n ≡ false
        → Settles count event left (suc n) w₂ l result
        → Settles count event (suc left) n w l result

  attempt_event-Settles :
      (count : ℤ) (again : W → L → W × L × Option SubscriberError) (last : Bool) (left n : ℕ)
      (event : Envelope Any Any) (w : W) (l : L)
      → ((e : String) (w₂ : W)
          → Refused event w e w₂
          → Settles count event left n w l (after_failure s r again last n event e w₂ l))
      → Settles count event left n w l (attempt_event s r again last n event w l)
  unfolding attempt_event
  attempt_event-Settles count again last left n event w l next =
      elim (Option-cases (r.savepoint w)) [
        | inr (e, failed) ↦ rw (failed, attempt_event) (unmarked left n w l e failed)
        | inl marked ↦
            let w₁ = (r.handler event w).0 in
            elim (Option-cases (r.handler event w).1) [
              | inl took ↦
                  rw (marked, attempt_event)
                    (rw took (handled left n w w₁ l marked (ap (λ x. (w₁, x)) took)))
              | inr (e, refused) ↦
                  let w₂ = (r.restore w w₁).0 in
                  let answer = ap (λ x. (w₁, x)) refused in
                  elim (Option-cases (r.restore w w₁).1) [
                    | inr (f, broken) ↦
                        rw (marked, attempt_event)
                          (rw refused (
                            rw broken (
                              unrestored left n w w₁ w₂ l e f marked answer
                                (ap (λ x. (w₂, x)) broken))))
                    | inl undone ↦
                        rw (marked, attempt_event)
                          (rw refused (
                            rw undone (
                              next e w₂ (record {
                                left_by_handler = w₁;
                                marked = marked;
                                failed = answer;
                                undone = ap (λ x. (w₂, x)) undone;
                              }))))
                  ]
            ]
      ]

  module _ (again : W → L → W × L × Option SubscriberError) (n : ℕ) (event : Envelope Any Any)
      (e : String) (w : W) (l : L) where
    fails_unparked :
        (last : Bool)
        → r.park ≡ none
        → after_failure s r again last n event e w l ≡ (w, l, some (handler_failed e))
    unfolding after_failure give_up
    fails_unparked last no_lot = ground (arith, no_lot)

    module _ (park : ParkedEvent → L → L × Option String) (lot : r.park ≡ some park) where
      fails_ended :
          r.cancelled n ≡ true
          → after_failure s r again false n event e w l ≡ (w, l, some (shut_down e))
      unfolding after_failure give_up
      fails_ended stops = ground (arith, lot, stops)

      fails_retried :
          r.cancelled n ≡ false → after_failure s r again false n event e w l ≡ again w l
      unfolding after_failure give_up
      fails_retried goes_on = ground (arith, lot, goes_on)

      fails_parked :
          (l' : L)
          → park (parked_after (s.max_retries +ℤ pos 1) event e) l ≡ (l', none)
          → after_failure s r again true n event e w l ≡ (w, l', none)
      unfolding after_failure give_up
      fails_parked l' fine = ground (arith, lot, fine)

      fails_broken :
          (l' : L) (f : String)
          → park (parked_after (s.max_retries +ℤ pos 1) event e) l ≡ (l', some f)
          → after_failure s r again true n event e w l ≡ (w, l', some (park_failed f))
      unfolding after_failure give_up
      fails_broken l' f broken = ground (arith, lot, broken)

  last_failure-Settles :
      (again : W → L → W × L × Option SubscriberError) (n : ℕ) (event : Envelope Any Any) (w : W)
      (l : L) (e : String) (w₂ : W)
      → Refused event w e w₂
      → Settles
          (s.max_retries +ℤ pos 1)
          event
          zero
          n
          w
          l
          (after_failure s r again true n event e w₂ l)
  last_failure-Settles again n event w l e w₂ refused = elim (Option-cases r.park) [
    | inl no_lot ↦
        subst (Settles (s.max_retries +ℤ pos 1) event zero n w l)
          (sym (fails_unparked again n event e w₂ l true no_lot))
          (unparked zero n w w₂ l e refused no_lot)
    | inr (park, lot) ↦
        let (l', error) = park (parked_after (s.max_retries +ℤ pos 1) event e) l in
        elim (Option-cases error) [
          | inl fine ↦
              let parks = ap (λ x. (l', x)) fine in
              subst (Settles (s.max_retries +ℤ pos 1) event zero n w l)
                (sym (fails_parked again n event e w₂ l park lot l' parks))
                (parked n w w₂ l l' e park refused lot parks)
          | inr (f, broken) ↦
              let fails = ap (λ x. (l', x)) broken in
              subst (Settles (s.max_retries +ℤ pos 1) event zero n w l)
                (sym (fails_broken again n event e w₂ l park lot l' f fails))
                (lot_failed n w w₂ l l' e f park refused lot fails)
        ]
  ]

  failure-Settles :
      (again : W → L → W × L × Option SubscriberError) (count : ℤ) (left n : ℕ)
      (event : Envelope Any Any) (w : W) (l : L) (e : String) (w₂ : W)
      → Settles count event left (suc n) w₂ l (again w₂ l)
      → Refused event w e w₂
      → Settles count event (suc left) n w l (after_failure s r again false n event e w₂ l)
  failure-Settles again count left n event w l e w₂ next refused = elim (Option-cases r.park) [
    | inl no_lot ↦
        subst (Settles count event (suc left) n w l)
          (sym (fails_unparked again n event e w₂ l false no_lot))
          (unparked (suc left) n w w₂ l e refused no_lot)
    | inr (park, lot) ↦ elim (Bool-cases (r.cancelled n)) [
      | inl stops ↦
          subst (Settles count event (suc left) n w l)
            (sym (fails_ended again n event e w₂ l park lot stops))
            (ended left n w w₂ l e park refused lot stops)
      | inr goes_on ↦
          subst (Settles count event (suc left) n w l)
            (sym (fails_retried again n event e w₂ l park lot goes_on))
            (retried left n w w₂ l e park (again w₂ l) refused lot goes_on next)
    ]
  ]

  pub attempts-Settles :
      (left n : ℕ) (event : Envelope Any Any) (w : W) (l : L)
      → Settles (s.max_retries +ℤ pos 1) event left n w l (attempts s r left n event w l)
  unfolding attempts
  attempts-Settles zero n event w l =
      attempt_event-Settles (s.max_retries +ℤ pos 1) (λ w' l'. (w', l', none)) true zero n event w l
        (last_failure-Settles (λ w' l'. (w', l', none)) n event w l)
  attempts-Settles (suc left) n event w l =
      let again = attempts s r left (suc n) event in
      let count = s.max_retries +ℤ pos 1 in
      attempt_event-Settles count again false (suc left) n event w l (λ e w₂.
        failure-Settles again count left n event w l e w₂
          (attempts-Settles left (suc n) event w₂ l))
