-- ===== src/Auth/InviteService/Changes.antt =====
-- What becomes of the invite, the agent, the credential and the account of AcceptInvite
-- (invite_service.go).
use pericarp.Prelude.{
  String, ◌==◌, eq_iff, Bool, Bool-cases, true, false, ◌≡◌, ◌⊎◌, refl, sym, ap, ◌∙◌, ℕ, none, some,
  List, [], ◌∷◌, inl, inr, arith, if◌then◌else◌,
}
use pericarp.Entity.{new_base_entity}
use pericarp.Auth.Aggregate.{Decision, refuse, emit, execute, record_on, create, require}
use pericarp.Auth.Agent
use pericarp.Auth.Agent.{AgentPayload}
use pericarp.Auth.Credential
use pericarp.Auth.Credential.{
  CredentialPayload, credential_checks, credential_created, set_created, created, with_credential,
}
use pericarp.Auth.Credential.Replay.{blank}
use pericarp.Auth.Invite.{Invite, is_expired, accept}
use pericarp.Auth.Authorization.{Answer, ok, err}
use pericarp.Auth.Account
use pericarp.Auth.InviteService.Chain.{chain-ok, wrapped-ok, present-ok, settled-ok, settled-id}
use pericarp.Auth.InviteService.{
  UserInfo, AgentAggregate, AccountAggregate, account_not_found, CredentialAggregate, Repositories,
  ServiceError, lookup_failed, invitee_agent_missing, aggregate_failed, wrapped, present, settled,
  activated_agent, joined_account, new_credential,
}
use pericarp.Event.{new_event_envelope}
use pericarp.Entity.{record_event}
use pericarp.Auth.Invite

require-cases :
    {P S : Type 0} (checks : List (Bool × String)) (d : Decision P S)
    → ((e : String) × (require checks d ≡ refuse e)) ⊎ (require checks d ≡ d)
require-cases [] d = inr refl
require-cases ((true, e) ∷ checks) d = inl (e, refl)
require-cases ((false, e) ∷ checks) d = require-cases checks d

activate-active :
    (at : ℕ) (event_id : String) (now : ℕ) (a : AgentAggregate)
    → (execute Agent.event_type_of (Agent.activate at a.state) event_id now a).0.state.status
      ≡ "active"
unfolding Agent.activate execute record_on
activate-active at event_id now a = elim (Bool-cases (a.state.status == "active")) [
  | inl already ↦ rw (already, Agent.activate, execute) ((eq_iff a.state.status "active").0 already)
  | inr not_yet ↦ rw (not_yet, Agent.activate, execute) refl
]

module _ {E : Type 0} (r : Repositories E) (fresh : ℕ → String) (clock : ℕ → ℕ) where
  pub agent-active :
      (user : UserInfo) (invite : Invite) (agent : AgentAggregate)
      → activated_agent r fresh clock user invite ≡ ok agent
      → agent.state.status ≡ "active"
  unfolding activated_agent Agent.activate execute record_on
  agent-active user invite agent h =
      let (answer, _, h1) =
        chain-ok (wrapped lookup_failed (r.find_agent invite.invitee_agent_id)) _ h in
      let (found, _, h2) = chain-ok (present invitee_agent_missing answer) _ h1 in
      let rename = settled aggregate_failed (
        execute Agent.event_type_of (Agent.update_name user.display_name (clock 1) found.state)
          (fresh 0) (clock 2) found) in
      let (named, _, h3) = chain-ok (if user.display_name == "" then ok found else rename) _ h2 in
      let done =
        settled-ok aggregate_failed
          (execute Agent.event_type_of (Agent.activate (clock 3) named.state) (fresh 1) (clock 4)
            named)
          agent h3 in
      sym (ap (λ p. p.0.state.status) done) ∙ activate-active (clock 3) (fresh 1) (clock 4) named

  pub credential-owner :
      (user : UserInfo) (agent_id : String) (credential : CredentialAggregate)
      → new_credential r fresh clock user agent_id ≡ ok credential
      → credential.state.agent_id ≡ agent_id
  unfolding new_credential create with_credential record_on
  credential-owner user agent_id credential h =
      let e =
        credential_created agent_id (fresh 2) user.provider user.provider_user_id user.email
          user.display_name (clock 6) in
      let start : CredentialAggregate = record { base = new_base_entity ""; state = blank } in
      let made =
        settled-ok aggregate_failed
          (create Credential.event_type_of (fresh 2)
            (with_credential (fresh 2) agent_id user.provider user.provider_user_id user.email
              user.display_name (clock 5) (clock 6) blank)
            (fresh 3) (clock 7) start)
          credential h in
      elim (require-cases (credential_checks (fresh 2) e)
        (emit (created e) (record (set_created e blank) { created_at = clock 5 }))) [
          | inl (error, refused) ↦ absurd (
              cc (
                ap (λ d. (create Credential.event_type_of (fresh 2) d (fresh 3) (clock 7) start).1)
                    refused,
                ap (λ p. p.1) made,
              ))
          | inr passed ↦
              sym (ap (λ p. p.0.state.agent_id) made)
              ∙ ap
                  (λ d.
                    (create Credential.event_type_of (fresh 2) d (fresh 3) (clock 7)
                      start).0.state.agent_id)
                  passed
        ]

  pub accept-status :
      (checked at : ℕ) (event_id : String) (now : ℕ) (i done : Invite)
      → accept checked at event_id now i ≡ (done, none)
      → done.status ≡ "accepted"
  unfolding accept
  accept-status checked at event_id now i done h = elim (Bool-cases (i.status == "pending")) [
    | inr closed ↦ ground (arith, closed, ap (λ p. p.1) h)
    | inl open_still ↦ elim (Bool-cases (is_expired checked i)) [
      | inl late ↦ ground (arith, open_still, late, ap (λ p. p.1) h)
      | inr early ↦ ground (arith, open_still, early, ap (λ p. p.0.status) h)
    ]
  ]

  pub accept-id :
      (checked at : ℕ) (event_id : String) (now : ℕ) (i done : Invite)
      → accept checked at event_id now i ≡ (done, none)
      → done.base.aggregate_id ≡ i.base.aggregate_id
  unfolding accept Invite.record_on record_event new_event_envelope
  accept-id checked at event_id now i done h =
      sym (ap (λ p. p.0.base.aggregate_id) h) ∙ ground arith

  abbrev renaming : UserInfo → AgentAggregate → Answer (ServiceError E) AgentAggregate
  renaming user found =
      if user.display_name == ""
      then ok found
      else settled aggregate_failed (
          execute Agent.event_type_of (Agent.update_name user.display_name (clock 1) found.state)
            (fresh 0) (clock 2) found)

  renamed-id :
      (user : UserInfo) (found named : AgentAggregate)
      → renaming user found ≡ ok named
      → named.base.aggregate_id ≡ found.base.aggregate_id
  renamed-id user found named h = elim (Bool-cases (user.display_name == "")) [
    | inl nameless ↦
        ap
          (λ (m : Answer (ServiceError E) AgentAggregate). elim m [
            | ok x ↦ x.base.aggregate_id
            | err _ ↦ ""
          ])
          (sym h ∙ spare nameless)
    | inr has_name ↦
        settled-id aggregate_failed Agent.event_type_of
          (Agent.update_name user.display_name (clock 1) found.state) (fresh 0) (clock 2) found
          named (sym (renames has_name) ∙ h)
  ]
    where
      spare : (user.display_name == "") ≡ true → renaming user found ≡ ok found
      spare h = rw (h, renaming) refl

      renames :
          (user.display_name == "") ≡ false
          → renaming user found
            ≡ settled aggregate_failed (
                execute Agent.event_type_of
                  (Agent.update_name user.display_name (clock 1) found.state)
                  (fresh 0)
                  (clock 2)
                  found)
      renames h = rw (h, renaming) refl

  pub agent-found :
      (user : UserInfo) (invite : Invite) (agent : AgentAggregate)
      → activated_agent r fresh clock user invite ≡ ok agent
      → (loaded : AgentAggregate) × (r.find_agent invite.invitee_agent_id ≡ ok (some loaded))
        × (agent.base.aggregate_id ≡ loaded.base.aggregate_id)
  unfolding activated_agent
  agent-found user invite agent h =
      let (answer, read, h1) =
        chain-ok (wrapped lookup_failed (r.find_agent invite.invitee_agent_id)) _ h in
      let (found, there, h2) = chain-ok (present invitee_agent_missing answer) _ h1 in
      let (named, renamed, h3) = chain-ok (renaming user found) _ h2 in
      (
        found,
        wrapped-ok lookup_failed (r.find_agent invite.invitee_agent_id) answer read
            ∙ ap ok (present-ok invitee_agent_missing answer found there),
        settled-id aggregate_failed Agent.event_type_of (Agent.activate (clock 3) named.state)
              (fresh 1) (clock 4) named agent h3
            ∙ renamed-id user found named renamed,
      )

  pub account-found :
      (invite : Invite) (agent_id : String) (account : AccountAggregate)
      → joined_account r fresh clock invite agent_id ≡ ok account
      → (loaded : AccountAggregate) × (r.find_account invite.account_id ≡ ok (some loaded))
        × (account.base.aggregate_id ≡ loaded.base.aggregate_id)
  unfolding joined_account
  account-found invite agent_id account h =
      let (answer, read, h1) =
        chain-ok (wrapped lookup_failed (r.find_account invite.account_id)) _ h in
      let (found, there, h2) = chain-ok (present account_not_found answer) _ h1 in
      (
        found,
        wrapped-ok lookup_failed (r.find_account invite.account_id) answer read
            ∙ ap ok (present-ok account_not_found answer found there),
        settled-id aggregate_failed Account.event_type_of
            (Account.add_member agent_id invite.role_id (clock 8) found.base.aggregate_id
              found.state)
            (fresh 4) (clock 9) found account h2,
      )
