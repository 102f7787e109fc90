-- ===== src/Tests/Auth.antt =====
-- The theorems on invites and sessions at concrete inputs.
use pericarp.Prelude.{eq_true, arith, ◌≡◌, refl, true, none, some, List, [], ◌∷◌}
use pericarp.Entity.{new_base_entity}
use pericarp.Prelude.Dict.{get, put}
use pericarp.Prelude.Int.{pos, ◌+ℤ◌}
use pericarp.Event.{concurrency_conflict}
use pericarp.EventStore.Memory.{MemoryStore, new_memory_store, append, get_current_version}
use pericarp.UnitOfWork.{expected_version}
use pericarp.Auth.Invite.Restored.{restored_accept_conflicts}
use pericarp.Auth.Invite.{
  Invite, InvitePayload, restore_invite, InviteCreated, blank, with_invite, accept, clear_invite,
}
use pericarp.Auth.Invite.Steps.{InviteStep, accept_step, revoke_step, take_steps, take_step}
use pericarp.Auth.Invite.Replay.{replay_invite, replay_invite-take_steps}
use pericarp.Auth.AuthSession.{AuthSession}
use pericarp.Auth.AuthSession.Revoked.{SessionStep, touch_step, scope_step}

abbrev invitation : InviteCreated
invitation = record {
  account_id = "acc";
  email = "ann@example.org";
  role_id = "member";
  inviter_agent_id = "bob";
  invitee_agent_id = "ann";
  expires_at = 100;
  timestamp = 10;
}

abbrev made : Invite
made = (with_invite "inv" invitation "e1" 10 (blank "inv")).0

-- An Accept in time, and a Revoke behind it that is refused.
abbrev life : List InviteStep
life = accept_step 50 51 "e2" 51 ∷ revoke_step 60 "e3" 60 ∷ []

replay_invite-take_steps_example :
    replay_invite (take_steps life made).base.uncommitted_events (blank "inv")
    ≡ (clear_invite (take_steps life made), none)
unfolding with_invite take_step take_steps
replay_invite-take_steps_example =
    replay_invite-take_steps "inv" invitation "e1" 10 life refl (refl, (refl, tt))

-- A store that holds the invite's first event.
abbrev with_first_event : MemoryStore InvitePayload
with_first_event = (append "inv" (pos 0) made.base.uncommitted_events new_memory_store).0

abbrev accepted_again : Invite
accepted_again =
    (accept 50 51 "e2" 51 (restore_invite "inv" invitation "pending" 0 (blank "inv")).0).0

restored_accept_conflicts_example :
    append "inv"
      (expected_version accepted_again.base)
      accepted_again.base.uncommitted_events
      with_first_event
    ≡ (with_first_event, some concurrency_conflict)
unfolding with_invite accept restore_invite append get_current_version get put ◌+ℤ◌
restored_accept_conflicts_example =
    restored_accept_conflicts "inv" invitation "pending" 0 (blank "inv") 50 51 "e2" 51
      with_first_event refl refl (λ e. ground (arith, eq_true "e2" "" e)) (λ e. ground (arith, e))

abbrev session : AuthSession
session = record {
  base = new_base_entity "s1";
  agent_id = "ann";
  account_id = "";
  credential_id = "password";
  active = true;
  created_at = 1;
  expires_at = 100;
  last_accessed_at = 1;
  ip_address = "127.0.0.1";
  user_agent = "curl";
}

abbrev later_calls : List SessionStep
later_calls = touch_step 30 31 "e2" 31 ∷ scope_step "acc" 40 "e3" 40 ∷ []
