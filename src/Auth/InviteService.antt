-- ===== src/Auth/InviteService.antt =====
-- pkg/auth/application/invite_service.go: the reads and writes of the service and AcceptInvite, over
-- any repositories. What the service reads comes from `Repositories`; its commit and its saves are
-- writes in an order, each of which may fail. `fresh i` is the ksuid and `clock i` the time that call
-- number i draws.
pub mod Chain
pub mod Changes
pub mod Checks
pub mod Accepts
pub mod Manage
use pericarp.Prelude.{
  String, ◌==◌, Bool, true, false, not, ◌||◌, ℕ, Option, none, some, List, [], ◌∷◌, ◌++◌,
  if◌then◌else◌,
}
use pericarp.Prelude.Int.{ℤ}
use pericarp.Entity.{new_base_entity}
use pericarp.Auth.Aggregate.{Aggregate, Decision, Failure, execute, create}
use pericarp.Auth.Agent
use pericarp.Auth.Agent.{AgentPayload}
use pericarp.Auth.Account
use pericarp.Auth.Account.{AccountPayload}
use pericarp.Auth.Credential
use pericarp.Auth.Credential.{CredentialPayload, with_credential}
use pericarp.Auth.Credential.Replay.{blank}
use pericarp.Auth.Invite.{Invite, InviteError, is_expired, accept, revoke}
use pericarp.Auth.Authorization.{Answer, ok, err}

pub record UserInfo : Type 0 where
  pub provider : String
  pub provider_user_id : String
  pub email : String
  pub display_name : String
  pub avatar_url : String

abbrev pub AgentAggregate : Type 0
AgentAggregate = Aggregate AgentPayload Agent.Agent

abbrev pub AccountAggregate : Type 0
AccountAggregate = Aggregate AccountPayload Account.Account

abbrev pub CredentialAggregate : Type 0
CredentialAggregate = Aggregate CredentialPayload Credential.Credential

-- What the service reads. A nil entity without an error is `none`; the token service gives the id
-- of the invite in the claims.
pub record Repositories (E : Type 0) : Type 0 where
  pub validate_invite_token : String → Answer E String
  pub find_invite : String → Answer E (Option Invite)
  pub find_agent : String → Answer E (Option AgentAggregate)
  pub find_account : String → Answer E (Option AccountAggregate)
  pub find_member_role : String → String → Answer E String
  pub find_pending_by_email : String → Answer E (List Invite)
  -- the token of an invite, valid for a duration
  pub issue_invite_token : String → ℤ → Answer E String

pub data ServiceError (E : Type 0) : Type 0 where
  token_invalid lookup_failed write_failed : E → ServiceError E
  invite_not_found invite_not_pending invite_expired email_mismatch : ServiceError E
  token_failed : E → ServiceError E
  invitee_agent_missing account_not_found not_account_admin : ServiceError E
  aggregate_failed : Failure → ServiceError E
  invite_failed : InviteError → ServiceError E

-- `if err != nil { return err }` between two calls.
infixl 5 ◌>>=◌ ◌>>◌
abbrev pub ◌>>=◌ : {E A B : Type 0} → Answer E A → (A → Answer E B) → Answer E B
err failure >>= later = err failure
ok value >>= later = later value

abbrev pub ◌>>◌ : {E B : Type 0} → Answer E (Unit {0}) → Answer E B → Answer E B
call >> later = call >>= λ _. later

-- Stops with the error if the condition holds.
abbrev pub refuse_if : {E : Type 0} → Bool → E → Answer E (Unit {0})
refuse_if true e = err e
refuse_if false e = ok tt

abbrev pub wrapped : {E F A : Type 0} → (F → E) → Answer F A → Answer E A
wrapped wrap (ok a) = ok a
wrapped wrap (err e) = err (wrap e)

abbrev pub present : {E A : Type 0} → E → Option A → Answer E A
present missing none = err missing
present missing (some a) = ok a

-- A method of an aggregate that returned no error.
abbrev pub settled : {E F A : Type 0} → (F → E) → A × Option F → Answer E A
settled wrap (a, none) = ok a
settled wrap (a, some e) = err (wrap e)

-- What AcceptInvite changes.
pub record Accepted : Type 0 where
  pub agent : AgentAggregate
  pub credential : CredentialAggregate
  pub account : AccountAggregate
  pub invite : Invite

-- The writes behind the checks; a commit is Track and Commit of a unit of work; one
-- that fails may have stored the events of some of the aggregates (UnitOfWork).
pub data Write : Type 0 where
  commit save_agent save_credential save_account save_member save_invite : Write

-- The writes in their order, up to one that fails.
unfoldable pub run_writes : {E : Type 0} → (Write → Option E) → List Write → List Write × Option E
run_writes write [] = ([], none)
run_writes write (w ∷ ws) =
    let (later, error) = run_writes write ws in
    elim (write w) [ some e ↦ ([], some e) | none ↦ (w ∷ later, error) ]

-- The writes of AcceptInvite; `has_store` says that there is an event store.
abbrev pub accept_writes : Bool → List Write
accept_writes has_store =
    let saves = save_agent ∷ save_credential ∷ save_account ∷ save_member ∷ save_invite ∷ [] in
    if has_store then commit ∷ saves else saves

module _ {E : Type 0} (r : Repositories E) (fresh : ℕ → String) (clock : ℕ → ℕ) where
  -- The invite of AcceptInvite, past its checks.
  unfoldable pub checked_invite : String → UserInfo → Answer (ServiceError E) Invite
  checked_invite token user = do
    id ← wrapped token_invalid (r.validate_invite_token token)
    found ← wrapped lookup_failed (r.find_invite id)
    invite ← present invite_not_found found
    refuse_if (not (invite.status == "pending")) invite_not_pending
    refuse_if (is_expired (clock 0) invite) invite_expired
    refuse_if (not (user.email == invite.email)) email_mismatch
    ok invite

  -- The invitee of AcceptInvite, renamed and activated.
  unfoldable pub activated_agent : UserInfo → Invite → Answer (ServiceError E) AgentAggregate
  unfolding Agent.update_name Agent.activate execute
  activated_agent user invite = do
    found ← wrapped lookup_failed (r.find_agent invite.invitee_agent_id)
    agent ← present invitee_agent_missing found
    named ←
        (if user.display_name == ""
          then ok agent
          else settled aggregate_failed (
              execute Agent.event_type_of
                (Agent.update_name user.display_name (clock 1) agent.state) (fresh 0) (clock 2)
                agent))
    settled aggregate_failed (
        execute Agent.event_type_of (Agent.activate (clock 3) named.state) (fresh 1) (clock 4)
          named)

  -- The credential of AcceptInvite, for the agent with the id `agent_id`.
  unfoldable pub new_credential : UserInfo → String → Answer (ServiceError E) CredentialAggregate
  unfolding create with_credential
  new_credential user agent_id = settled aggregate_failed (
      create Credential.event_type_of (fresh 2)
        (with_credential (fresh 2) agent_id user.provider user.provider_user_id user.email
          user.display_name (clock 5) (clock 6) blank)
        (fresh 3) (clock 7) (record { base = new_base_entity ""; state = blank }))

  -- The account of AcceptInvite, with its new member.
  unfoldable pub joined_account : Invite → String → Answer (ServiceError E) AccountAggregate
  unfolding Account.add_member execute
  joined_account invite agent_id = do
    found ← wrapped lookup_failed (r.find_account invite.account_id)
    account ← present account_not_found found
    settled aggregate_failed (
        execute Account.event_type_of
          (Account.add_member agent_id invite.role_id (clock 8) account.base.aggregate_id
            account.state)
          (fresh 4) (clock 9) account)

  -- AcceptInvite up to its writes.
  unfoldable pub accept_plan : String → UserInfo → Answer (ServiceError E) Accepted
  unfolding checked_invite activated_agent new_credential joined_account accept
  accept_plan token user = do
    invite ← checked_invite token user
    agent ← activated_agent user invite
    credential ← new_credential user agent.base.aggregate_id
    account ← joined_account invite agent.base.aggregate_id
    done ← settled invite_failed (accept (clock 10) (clock 11) (fresh 5) (clock 12) invite)
    ok (record { agent = agent; credential = credential; account = account; invite = done })

  -- AcceptInvite: the writes that it has done, and its result.
  unfoldable pub accept_invite :
      Bool → (Write → Option E) → String → UserInfo → List Write × Answer (ServiceError E) Accepted
  unfolding accept_plan run_writes
  accept_invite has_store write token user = elim (accept_plan token user) [
    | err e ↦ ([], err e)
    | ok accepted ↦
        let (done, error) = run_writes write (accept_writes has_store) in
        (done, elim error [ some e ↦ err (write_failed e) | none ↦ ok accepted ])
  ]
