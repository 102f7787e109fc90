-- ===== src/Auth/InviteService/Manage.antt =====
-- CreateInvite, RevokeInvite and validateAdminOrOwner of pkg/auth/application/invite_service.go.
pub mod Admins
use pericarp.Prelude.{
  String, ◌==◌, Bool, true, false, not, ◌||◌, ℕ, ◌+◌, Option, none, some, List, [], ◌∷◌,
  if◌then◌else◌,
}
use pericarp.Prelude.Int.{ℤ, pos, sub_ℕ}
use pericarp.Entity.{new_base_entity}
use pericarp.Auth.Aggregate.{execute, create}
use pericarp.Auth.Agent
use pericarp.Auth.Agent.Replay
use pericarp.Auth.Invite.{Invite, with_invite, revoke, blank}
use pericarp.Auth.Authorization.{Answer, ok, err}
use pericarp.Auth.InviteService.{
  AgentAggregate, Repositories, ServiceError, lookup_failed, write_failed, token_failed,
  invite_not_found, invite_not_pending, not_account_admin, aggregate_failed, invite_failed, ◌>>=◌,
  ◌>>◌, refuse_if, wrapped, present, settled, Write, commit, save_agent, save_invite, run_writes,
}

-- defaultInviteExpiry, seven days in nanoseconds.
abbrev pub default_invite_expiry : ℕ
default_invite_expiry = 604800000000000

-- What CreateInvite makes or finds.
pub data Prepared : Type 0 where
  existing : Invite → Prepared
  prepared : AgentAggregate → Invite → Prepared

-- What RevokeInvite changes; the agent may be missing.
pub record Revoked : Type 0 where
  pub agent : Option AgentAggregate
  pub invite : Invite

abbrev pub revoke_writes : Bool → Revoked → List Write
revoke_writes has_store done =
    let saves : List Write = elim done.agent [
      | none ↦ save_invite ∷ []
      | some _ ↦ save_agent ∷ save_invite ∷ []
    ] in
    if has_store then commit ∷ saves else saves

abbrev pub create_writes : Bool → List Write
create_writes has_store =
    let saves = save_agent ∷ save_invite ∷ [] in if has_store then commit ∷ saves else saves

-- The loop of CreateInvite over the pending invites.
unfoldable pub for_account : String → List Invite → Option Invite
for_account account_id [] = none
for_account account_id (p ∷ pending) =
    let rest = for_account account_id pending in if p.account_id == account_id then some p else rest

module _ {E : Type 0} (r : Repositories E) (fresh : ℕ → String) (clock : ℕ → ℕ) where
  -- validateAdminOrOwner
  unfoldable pub validate_admin_or_owner : String → String → Answer (ServiceError E) (Unit {0})
  validate_admin_or_owner account_id agent_id = do
    role_id ← wrapped lookup_failed (r.find_member_role account_id agent_id)
    refuse_if (not ((role_id == "owner") || (role_id == "admin"))) not_account_admin

  -- CreateInvite where no invite is pending: the skeleton agent and the invite.
  unfoldable pub new_invite : String → String → String → String → Answer (ServiceError E) Prepared
  unfolding Agent.with_invited create with_invite
  new_invite account_id email role_id inviter_agent_id = do
    agent ← settled aggregate_failed (
        create Agent.event_type_of (fresh 0)
          (Agent.with_invited (fresh 0) email (clock 0) (clock 1) Replay.blank) (fresh 1) (clock 2)
          (record { base = new_base_entity ""; state = Replay.blank }))
    invite ← settled invite_failed (
        with_invite (fresh 2)
          (record {
            account_id = account_id;
            email = email;
            role_id = role_id;
            inviter_agent_id = inviter_agent_id;
            invitee_agent_id = fresh 0;
            expires_at = clock 3 + default_invite_expiry;
            timestamp = clock 4;
          })
          (fresh 3) (clock 5) (blank ""))
    ok (prepared agent invite)

  -- CreateInvite up to its writes.
  unfoldable pub create_plan : String → String → String → String → Answer (ServiceError E) Prepared
  unfolding validate_admin_or_owner for_account new_invite
  create_plan account_id email role_id inviter_agent_id = do
    validate_admin_or_owner account_id inviter_agent_id
    pending ← wrapped lookup_failed (r.find_pending_by_email email)
    elim (for_account account_id pending) [
      | some p ↦ ok (existing p)
      | none ↦ new_invite account_id email role_id inviter_agent_id
    ]

  -- The end of CreateInvite: the writes, where there are any, and the token.
  unfoldable pub finish_create :
      Bool → (Write → Option E) → Prepared → List Write × Answer (ServiceError E) (Invite × String)
  unfolding run_writes
  finish_create has_store write (existing p) = (
    [],
    do
      token ←
          wrapped token_failed
            (r.issue_invite_token p.base.aggregate_id (sub_ℕ p.expires_at (clock 6)))
      ok (p, token),
  )
  finish_create has_store write (prepared agent invite) =
      let (done, error) = run_writes write (create_writes has_store) in
      (
        done,
        elim error [
          | some e ↦ err (write_failed e)
          | none ↦ do
            token ←
                wrapped token_failed (r.issue_invite_token (fresh 2) (pos default_invite_expiry))
            ok (invite, token)
        ],
      )

  -- CreateInvite
  unfoldable pub create_invite :
      Bool
      → (Write → Option E)
      → String
      → String
      → String
      → String
      → List Write × Answer (ServiceError E) (Invite × String)
  unfolding create_plan finish_create
  create_invite has_store write account_id email role_id inviter_agent_id =
      elim (create_plan account_id email role_id inviter_agent_id) [
        | err e ↦ ([], err e)
        | ok made ↦ finish_create has_store write made
      ]

  -- The agent of RevokeInvite, deactivated if it is found.
  unfoldable pub deactivated_agent :
      Option AgentAggregate → Answer (ServiceError E) (Option AgentAggregate)
  unfolding Agent.deactivate execute
  deactivated_agent none = ok none
  deactivated_agent (some agent) = do
    done ← settled aggregate_failed (
        execute Agent.event_type_of (Agent.deactivate (clock 2) agent.state) (fresh 1) (clock 3)
          agent)
    ok (some done)

  -- RevokeInvite up to its writes.
  unfoldable pub revoke_plan : String → String → Answer (ServiceError E) Revoked
  unfolding validate_admin_or_owner revoke deactivated_agent
  revoke_plan invite_id revoker_agent_id = do
    found ← wrapped lookup_failed (r.find_invite invite_id)
    invite ← present invite_not_found found
    validate_admin_or_owner invite.account_id revoker_agent_id
    refuse_if (not (invite.status == "pending")) invite_not_pending
    closed ← settled invite_failed (revoke (clock 0) (fresh 0) (clock 1) invite)
    agent ← wrapped lookup_failed (r.find_agent invite.invitee_agent_id)
    done ← deactivated_agent agent
    ok (record { agent = done; invite = closed })

  -- RevokeInvite
  unfoldable pub revoke_invite :
      Bool → (Write → Option E) → String → String → List Write × Answer (ServiceError E) Revoked
  unfolding revoke_plan run_writes
  revoke_invite has_store write invite_id revoker_agent_id =
      elim (revoke_plan invite_id revoker_agent_id) [
        | err e ↦ ([], err e)
        | ok made ↦
            let (done, error) = run_writes write (revoke_writes has_store made) in
            (done, elim error [ some e ↦ err (write_failed e) | none ↦ ok made ])
      ]
