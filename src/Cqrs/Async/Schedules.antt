-- ===== src/Cqrs/Async/Schedules.antt =====
-- Schedules of a command's receivers: none blocks, and each ends (command_dispatcher.go).
use pericarp.Prelude.{
  true, false, ◌≡◌, refl, ap, sym, ◌∙◌, ◌⊎◌, inl, inr, ℕ, ◌+◌, ◌*◌, ◌<◌, ◌≤◌, List, [], ◌∷◌, ◌++◌,
  length, length-append, arith, List-cases, Bool-cases, if◌then◌else◌,
}
use pericarp.Cqrs.{CommandEnvelope, CommandRegistry, Receiver, resolve_receivers, execute_receiver}
use pericarp.Cqrs.Async.{
  Watch, started, dispatch_async, IsComplete, Step, send, receive, close, Steps, start, next,
}

cons_in_middle : {A : Type 0} (xs : List A) (x : A) (ys : List A) → ¬ (xs ++ x ∷ ys) ≡ []
cons_in_middle [] x ys h = cc h
cons_in_middle (y ∷ xs) x ys h = cc h

module _ {Any E : Type 0} where
  -- The channel has room for every goroutine that has not sent.
  pub record HasRoom (w : Watch Any E) : Type 0 where
    pub room : length w.results + length w.pending ≤ w.capacity
    pub done : w.closed ≡ true → w.pending ≡ []

  -- How many steps are left.
  abbrev pub left : Watch Any E → ℕ
  left w = length w.pending + length w.pending + length w.results + (if w.closed then 0 else 1)

module _ {Any E : Type 0} (env : CommandEnvelope Any Any) where
  Step-HasRoom : {v w : Watch Any E} → Step env v w → HasRoom v → HasRoom w
  Step-HasRoom (send w before after fn waiting free) h =
      let sent = length-append w.results (execute_receiver env fn ∷ []) in
      let all = ap length waiting in
      let parts = length-append before (fn ∷ after) in
      let rest = length-append before after in
      record {
        room = omega (arith, h.room);
        done = λ closed. absurd (cons_in_middle before fn after (sym waiting ∙ h.done closed));
      }
  Step-HasRoom (receive w result rest found) h =
      let had = ap length found in record { room = omega (arith, h.room); done = h.done }
  Step-HasRoom (close w nobody live) h = record { room = h.room; done = λ _. nobody }

  Steps-HasRoom :
      {v : Watch Any E} {n : ℕ} {w : Watch Any E} → Steps env v n w → HasRoom v → HasRoom w
  Steps-HasRoom start h = h
  Steps-HasRoom (next steps step) h = Step-HasRoom step (Steps-HasRoom steps h)

  Step-left : {v w : Watch Any E} → Step env v w → left w + 1 ≡ left v
  Step-left (send w before after fn waiting free) =
      let sent = length-append w.results (execute_receiver env fn ∷ []) in
      let all = ap length waiting in
      let parts = length-append before (fn ∷ after) in
      let rest = length-append before after in omega arith
  Step-left (receive w result rest found) = let had = ap length found in omega arith
  Step-left (close w nobody live) = ground (arith, live)

  Steps-left : {v : Watch Any E} {n : ℕ} {w : Watch Any E} → Steps env v n w → n + left w ≡ left v
  Steps-left start = omega arith
  Steps-left (next steps step) =
      let one = Step-left step in let more = Steps-left steps in omega arith

  -- A step that can be taken.
  abbrev pub Enabled : Watch Any E → Type 0
  Enabled v = (w : Watch Any E) × Step env v w

  -- While a goroutine has not sent, the next one in line can.
  waiting-Enabled : (w : Watch Any E) → HasRoom w → ¬ w.pending ≡ [] → Enabled w
  waiting-Enabled w h some_wait = elim (List-cases w.pending) [
    | inl none_waits ↦ absurd (some_wait none_waits)
    | inr (fn, rest, waiting) ↦
        let all = ap length waiting in
        let room = h.room in (_, send w [] rest fn waiting (omega (arith, room)))
  ]

  started-HasRoom : (fns : List (Receiver Any E)) → HasRoom (started fns)
  unfolding started
  started-HasRoom [] = record { room = omega arith; done = λ _. refl }
  started-HasRoom (fn ∷ rest) = record { room = omega arith; done = λ closed. cc closed }

  left-started : (fns : List (Receiver Any E)) → left (started fns) ≤ 2 * length fns + 1
  unfolding started
  left-started [] = omega arith
  left-started (fn ∷ rest) = omega arith

  Enabled-or-IsComplete : (w : Watch Any E) → HasRoom w → Enabled w ⊎ IsComplete w
  Enabled-or-IsComplete w h = elim (List-cases w.results) [
    | inr (result, rest, found) ↦ inl (_, receive w result rest found)
    | inl drained ↦ elim (List-cases w.pending) [
      | inr (fn, rest, waiting) ↦ inl (waiting-Enabled w h (λ none_waits. cc (none_waits, waiting)))
      | inl all_sent ↦ elim (Bool-cases w.closed) [
        | inl is_closed ↦
            inr (record { all_sent = all_sent; is_closed = is_closed; drained = drained })
        | inr live ↦ inl (_, close w all_sent live)
      ]
    ]
  ]

  -- AsyncCommandDispatcher.Dispatch ends under every schedule: with m receivers no schedule has
  -- more than 2 * m + 1 steps, and where none is left to take, all receivers have sent, the
  -- channel is closed and the caller has every result.
  pub schedule-ends :
      (r : CommandRegistry Any E) {n : ℕ} {w : Watch Any E}
      → Steps env (dispatch_async r env) n w
      → (n ≤ 2 * length (resolve_receivers r env.command_type) + 1) × (Enabled w ⊎ IsComplete w)
  unfolding dispatch_async
  schedule-ends r {n} {w} steps =
      let fns = resolve_receivers r env.command_type in
      let count = Steps-left steps in
      let most = left-started fns in
      (omega arith, Enabled-or-IsComplete w (Steps-HasRoom steps (started-HasRoom fns)))

  -- No receiver of AsyncCommandDispatcher.Dispatch blocks on its result, whether or not the
  -- caller receives (First may leave results behind): at every point of every schedule the
  -- channel is open and has room for a receiver that has not sent.
  pub send-never_blocks :
      (r : CommandRegistry Any E) {n : ℕ} {w : Watch Any E}
      → Steps env (dispatch_async r env) n w
      → ¬ w.pending ≡ []
      → (w.closed ≡ false) × (length w.results < w.capacity)
  unfolding dispatch_async
  send-never_blocks r {w = w} steps some_wait =
      let h = Steps-HasRoom steps (started-HasRoom (resolve_receivers r env.command_type)) in
      elim (List-cases w.pending) [
        | inl none_waits ↦ absurd (some_wait none_waits)
        | inr (fn, rest, waiting) ↦
            let all = ap length waiting in
            let room = h.room in
            (
              elim (Bool-cases w.closed) [
                | inl closed ↦ absurd (some_wait (h.done closed))
                | inr live ↦ live
              ],
              omega arith,
            )
      ]
