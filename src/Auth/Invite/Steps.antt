-- ===== src/Auth/Invite/Steps.antt =====
-- The calls of Accept and Revoke in an Invite's life (invite.go).
use pericarp.Prelude.{
  String, ◌==◌, false, ◌≡◌, refl, ℕ, Option, none, some, List, [], ◌∷◌, arith, contains,
}
use pericarp.Auth.Invite.{Invite, InviteError, not_pending, record_on, accept, revoke}

-- A step in an invite's life.
pub data InviteStep : Type 0 where
  accept_step : ℕ → ℕ → String → ℕ → InviteStep
  revoke_step : ℕ → String → ℕ → InviteStep

abbrev pub id_of_step : InviteStep → String
id_of_step (accept_step checked at event_id now) = event_id
id_of_step (revoke_step at event_id now) = event_id

unfoldable pub take_step : InviteStep → Invite → Invite × Option InviteError
unfolding accept revoke
take_step (accept_step checked at event_id now) i = accept checked at event_id now i
take_step (revoke_step at event_id now) i = revoke at event_id now i

-- The id of each step's event is a new one.
abbrev pub AllFresh : List InviteStep → Invite → Type 0
AllFresh [] i = Unit
AllFresh (step ∷ steps) i =
    (contains i.base.applied_event_ids (id_of_step step) ≡ false)
    × AllFresh steps (take_step step i).0

-- The steps one after the other, whether they are refused or not.
unfoldable pub take_steps : List InviteStep → Invite → Invite
take_steps [] i = i
take_steps (step ∷ steps) i = take_steps steps (take_step step i).0

status-accept :
    (checked at : ℕ) (event_id : String) (now : ℕ) (i : Invite)
    → (accept checked at event_id now i).1 ≡ none
    → (accept checked at event_id now i).0.status ≡ "accepted"
unfolding accept record_on
status-accept checked at event_id now i done = ground arith

settled_step :
    (step : InviteStep) (i : Invite)
    → (i.status == "pending") ≡ false
    → take_step step i ≡ (i, some not_pending)
unfolding take_step
settled_step (accept_step checked at event_id now) i over = rw (over, take_step) refl
settled_step (revoke_step at event_id now) i over = rw (over, take_step) refl

-- Once Accept has answered without an error, every further Accept and Revoke is refused and
-- changes nothing.
pub accept_settles :
    (checked at : ℕ) (event_id : String) (now : ℕ) (i : Invite) (step : InviteStep)
    → (accept checked at event_id now i).1 ≡ none
    → take_step step (accept checked at event_id now i).0
      ≡ ((accept checked at event_id now i).0, some not_pending)
accept_settles checked at event_id now i step done =
    settled_step step (accept checked at event_id now i).0
      (rw (status-accept checked at event_id now i done) refl)
