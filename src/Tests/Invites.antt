-- ===== src/Tests/Invites.antt =====
-- The theorems on the invite service at concrete inputs.
use Prim.Native.String.{◌++◌ as append_text}
use pericarp.Prelude.{String, true, ◌≡◌, refl, ℕ, zero, suc, Option, none, some, [], ◌∷◌, ◌++◌}
use pericarp.Entity.{new_base_entity}
use pericarp.Auth.Credential.Replay.{blank}
use pericarp.Auth.Invite.{Invite}
use pericarp.Auth.Authorization.{Answer, ok, err}
use pericarp.Auth.InviteService.{
  UserInfo, AgentAggregate, AccountAggregate, CredentialAggregate, Repositories, Accepted, Write,
  save_account, accept_invite,
}
use pericarp.Auth.InviteService.Checks.{IsAccepted}
use pericarp.Auth.InviteService.Accepts.{commit_then_saves, accept_invite-IsAccepted}
use pericarp.Auth.InviteService.Manage.{Revoked, revoke_invite}
use pericarp.Auth.InviteService.Manage.Admins.{revoking, IsRevoked, revoke_invite-IsRevoked}

abbrev invite : Invite
invite = record {
  base = new_base_entity "inv";
  account_id = "acc";
  email = "ann@example.org";
  role_id = "member";
  inviter_agent_id = "bob";
  invitee_agent_id = "ann";
  status = "pending";
  expires_at = 100;
  accepted_at = 0;
  created_at = 1;
}

abbrev skeleton : AgentAggregate
skeleton = record {
  base = new_base_entity "ann";
  state = record {
    name = "ann@example.org";
    agent_type = "foaf:Person";
    status = "invited";
    created_at = 1;
  };
}

abbrev home : AccountAggregate
home = record {
  base = new_base_entity "acc";
  state = record { name = "Home"; account_type = "personal"; active = true; created_at = 1 };
}

abbrev repositories : Repositories String
repositories = record {
  validate_invite_token = λ token. ok "inv";
  find_invite = λ id. ok (some invite);
  find_agent = λ id. ok (some skeleton);
  find_account = λ id. ok (some home);
  find_member_role = λ account agent. ok "owner";
  find_pending_by_email = λ email. ok (invite ∷ []);
  issue_invite_token = λ id duration. ok "token";
}

-- Distinct ids, and a clock before and one behind the end of the invite.
abbrev fresh : ℕ → String
fresh zero = "k"
fresh (suc n) = append_text "k" (fresh n)

abbrev early : ℕ → ℕ
early n = 50

abbrev late : ℕ → ℕ
late n = 150

abbrev user : UserInfo
user = record {
  provider = "google";
  provider_user_id = "u1";
  email = "ann@example.org";
  display_name = "Ann";
  avatar_url = "";
}

abbrev working : Write → Option String
working w = none

-- The account cannot be saved.
abbrev failing : Write → Option String
failing save_account = some "disk"
failing w = none

-- The value of an answer that has one.
abbrev value : {E A : Type 0} → A → Answer E A → A
value d (ok a) = a
value d (err e) = d

abbrev no_credential : CredentialAggregate
no_credential = record { base = new_base_entity ""; state = blank }

-- What the calls return.
abbrev accepted : Accepted
accepted =
    value (record { agent = skeleton; credential = no_credential; account = home; invite = invite })
      (accept_invite repositories fresh early true working "token" user).1

accept_invite-IsAccepted_example :
    IsAccepted repositories fresh early "token" user accepted
    × ((accept_invite repositories fresh early true working "token" user).0
        ≡ commit_then_saves true)
unfolding accept_invite
accept_invite-IsAccepted_example =
    accept_invite-IsAccepted repositories fresh early true working "token" user accepted refl

abbrev revoked : Revoked
revoked =
    value (record { agent = none; invite = invite })
      (revoke_invite repositories fresh early true working "inv" "bob").1

revoke_invite-IsRevoked_example :
    IsRevoked repositories fresh early "inv" "bob" revoked
    × ((revoke_invite repositories fresh early true working "inv" "bob").0
        ≡ revoking true revoked.agent)
unfolding revoke_invite
revoke_invite-IsRevoked_example =
    revoke_invite-IsRevoked repositories fresh early true working "inv" "bob" revoked refl
