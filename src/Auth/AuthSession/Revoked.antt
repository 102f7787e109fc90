-- ===== src/Auth/AuthSession/Revoked.antt =====
-- A revoked AuthSession (auth_session.go).
use pericarp.Prelude.{String, false, ◌≡◌, refl, ℕ, Option, none, List, [], ◌∷◌, arith}
use pericarp.Auth.AuthSession.{
  AuthSession, SessionError, record_on, touch, revoke, scope_to_account,
}

-- A call of one of the session's methods.
pub data SessionStep : Type 0 where
  touch_step : ℕ → ℕ → String → ℕ → SessionStep
  revoke_step : ℕ → String → ℕ → SessionStep
  scope_step : String → ℕ → String → ℕ → SessionStep

unfoldable pub take_step : SessionStep → AuthSession → AuthSession × Option SessionError
unfolding touch revoke scope_to_account
take_step (touch_step accessed at event_id now) s = touch accessed at event_id now s
take_step (revoke_step at event_id now) s = revoke at event_id now s
take_step (scope_step account_id at event_id now) s = scope_to_account account_id at event_id now s

-- The calls one after the other, whether they fail or not.
unfoldable pub take_steps : List SessionStep → AuthSession → AuthSession
take_steps [] s = s
take_steps (step ∷ steps) s = take_steps steps (take_step step s).0

take_step-inactive :
    (step : SessionStep) (s : AuthSession) → s.active ≡ false → (take_step step s).0.active ≡ false
unfolding take_step record_on
take_step-inactive (touch_step accessed at event_id now) s h = h
take_step-inactive (revoke_step at event_id now) s h = ground arith
take_step-inactive (scope_step account_id at event_id now) s h = ground arith

take_steps-inactive :
    (steps : List SessionStep) (s : AuthSession)
    → s.active ≡ false
    → (take_steps steps s).active ≡ false
unfolding take_steps
take_steps-inactive [] s h = h
take_steps-inactive (step ∷ steps) s h =
    take_steps-inactive steps (take_step step s).0 (take_step-inactive step s h)

active-revoke :
    (at : ℕ) (event_id : String) (now : ℕ) (s : AuthSession)
    → (revoke at event_id now s).0.active ≡ false
unfolding revoke record_on
active-revoke at event_id now s = ground arith

-- After Revoke, failed or not, the session is inactive, and no Touch, Revoke or ScopeToAccount
-- makes it active again; a second Revoke records no event and changes nothing.
pub revoke_for_good :
    (at : ℕ) (event_id : String) (now : ℕ) (s : AuthSession) (steps : List SessionStep) (at' : ℕ)
    (event_id' : String) (now' : ℕ)
    → let left = take_steps steps (revoke at event_id now s).0 in
      (left.active ≡ false) × (revoke at' event_id' now' left ≡ (left, none))
unfolding revoke
revoke_for_good at event_id now s steps at' event_id' now' =
    let over =
      take_steps-inactive steps (revoke at event_id now s).0 (active-revoke at event_id now s) in
    (over, rw (over, revoke) refl)
