-- ===== src/Auth/InviteService/Manage/Admins.antt =====
-- Who may create and revoke invites, and what becomes of them (invite_service.go).
use pericarp.Prelude.{
  String, ◌==◌, eq_iff, Bool, Bool-cases, not, ◌||◌, ◌≡◌, ◌⊎◌, refl, sym, subst, ap, ◌∙◌, ℕ, List,
  [], ◌∷◌, true, false, Option, Option-cases, none, some, inl, inr, arith,
}
use pericarp.Event.{new_event_envelope}
use pericarp.Entity.{record_event}
use pericarp.Auth.Invite
use pericarp.Auth.Aggregate.{execute, record_on}
use pericarp.Auth.Agent
use pericarp.Auth.Invite.{Invite, revoke}
use pericarp.Auth.Authorization.{ok, err}
use pericarp.Auth.Authorization.Decides.{Answer-cases}
use pericarp.Auth.InviteService.{
  AgentAggregate, Repositories, lookup_failed, invite_not_found, invite_not_pending,
  not_account_admin, aggregate_failed, invite_failed, refuse_if, wrapped, present, settled, Write,
  commit, save_agent, save_invite, run_writes,
}
use pericarp.Auth.InviteService.Chain.{
  chain-ok, refuse_if-ok, wrapped-ok, present-ok, settled-ok, settled-id, run_writes-done,
}
use pericarp.Auth.InviteService.Manage.{
  Revoked, revoke_writes, validate_admin_or_owner, create_plan, create_invite, deactivated_agent,
  revoke_plan, revoke_invite,
}

revoke-id :
    (at : ℕ) (event_id : String) (now : ℕ) (i done : Invite)
    → revoke at event_id now i ≡ (done, none)
    → done.base.aggregate_id ≡ i.base.aggregate_id
unfolding revoke Invite.record_on record_event new_event_envelope
revoke-id at event_id now i done h = sym (ap (λ p. p.0.base.aggregate_id) h) ∙ ground arith

revoke-status :
    (at : ℕ) (event_id : String) (now : ℕ) (i done : Invite)
    → revoke at event_id now i ≡ (done, none)
    → (i.status ≡ "pending") × (done.status ≡ "revoked")
unfolding revoke
revoke-status at event_id now i done h = elim (Bool-cases (i.status == "pending")) [
  | inr closed ↦ ground (arith, closed, ap (λ p. p.1) h)
  | inl open_still ↦
      ((eq_iff i.status "pending").0 open_still, ground (arith, open_still, ap (λ p. p.0.status) h))
]

-- The writes of a revocation: the commit of the events, where there is an event store, the agent,
-- where there is one, and the invite.
abbrev pub revoking : Bool → Option AgentAggregate → List Write
revoking true none = commit ∷ save_invite ∷ []
revoking true (some _) = commit ∷ save_agent ∷ save_invite ∷ []
revoking false none = save_invite ∷ []
revoking false (some _) = save_agent ∷ save_invite ∷ []

revoke_writes-revoking :
    (has_store : Bool) (agent : Option AgentAggregate) (i : Invite)
    → revoke_writes has_store (record { agent = agent; invite = i }) ≡ revoking has_store agent
revoke_writes-revoking true none i = refl
revoke_writes-revoking true (some _) i = refl
revoke_writes-revoking false none i = refl
revoke_writes-revoking false (some _) i = refl

-- The agent that was found, and what became of it: there was none, or it is deactivated.
pub data IsOut : Option AgentAggregate → Option AgentAggregate → Type 0 where
  missing : IsOut none none
  out :
      (agent left : AgentAggregate)
      → left.state.status ≡ "deactivated"
      → left.base.aggregate_id ≡ agent.base.aggregate_id
      → IsOut (some agent) (some left)

module _ {E : Type 0} (r : Repositories E) (fresh : ℕ → String) (clock : ℕ → ℕ) where
  -- The agent is an owner or an admin of the account.
  pub record IsAdmin (account_id agent_id : String) : Type 0 where
    pub role_id : String
    pub has_role : r.find_member_role account_id agent_id ≡ ok role_id
    pub may : (role_id ≡ "owner") ⊎ (role_id ≡ "admin")

  validate-IsAdmin :
      (account_id agent_id : String) (u : Unit {0})
      → validate_admin_or_owner r fresh clock account_id agent_id ≡ ok u
      → IsAdmin account_id agent_id
  unfolding validate_admin_or_owner
  validate-IsAdmin account_id agent_id u h =
      let (role_id, read, h1) =
        chain-ok (wrapped lookup_failed (r.find_member_role account_id agent_id)) _ h in
      let passed =
        refuse_if-ok (not ((role_id == "owner") || (role_id == "admin"))) not_account_admin u h1 in
      record {
        role_id = role_id;
        has_role = wrapped-ok lookup_failed (r.find_member_role account_id agent_id) role_id read;
        may = elim (Bool-cases (role_id == "owner")) [
          | inl owner ↦ inl ((eq_iff role_id "owner").0 owner)
          | inr other ↦ inr (ground (arith, other, passed, eq_iff role_id "admin"))
        ];
      }

  -- CreateInvite returns an invite only if the inviter is an owner or an admin of the account.
  pub create_invite-IsAdmin :
      (has_store : Bool) (write : Write → Option E)
      (account_id email role_id inviter_agent_id : String) (made : Invite × String)
      → (create_invite r fresh clock has_store write account_id email role_id inviter_agent_id).1
        ≡ ok made
      → IsAdmin account_id inviter_agent_id
  unfolding create_invite create_plan
  create_invite-IsAdmin has_store write account_id email role_id inviter_agent_id made h =
      elim (Answer-cases (create_plan r fresh clock account_id email role_id inviter_agent_id)) [
        | inr (e, failed) ↦ ground (arith, failed, h)
        | inl (planned, plan) ↦
            let (u, admin, _) =
              chain-ok (validate_admin_or_owner r fresh clock account_id inviter_agent_id) _ plan in
            validate-IsAdmin account_id inviter_agent_id u admin
      ]

  deactivate-status :
      (at : ℕ) (event_id : String) (now : ℕ) (a : AgentAggregate)
      → (execute Agent.event_type_of (Agent.deactivate at a.state) event_id now a).0.state.status
        ≡ "deactivated"
  unfolding Agent.deactivate execute record_on
  deactivate-status at event_id now a = elim (Bool-cases (a.state.status == "deactivated")) [
    | inl already ↦
        rw (already, Agent.deactivate, execute) ((eq_iff a.state.status "deactivated").0 already)
    | inr not_yet ↦ rw (not_yet, Agent.deactivate, execute) refl
  ]

  deactivated_agent-IsOut :
      (agent left : Option AgentAggregate)
      → deactivated_agent r fresh clock agent ≡ ok left
      → IsOut agent left
  unfolding deactivated_agent
  deactivated_agent-IsOut none left h =
      subst (IsOut none) (ap (λ m. elim m [ ok x ↦ x | err _ ↦ none ]) h) missing
  deactivated_agent-IsOut (some agent) left h =
      let decision = Agent.deactivate (clock 2) agent.state in
      let p = execute Agent.event_type_of decision (fresh 1) (clock 3) agent in
      let (a, did, h1) = chain-ok (settled aggregate_failed p) _ h in
      let status =
        sym (ap (λ p. p.0.state.status) (settled-ok aggregate_failed p a did))
        ∙ deactivate-status (clock 2) (fresh 1) (clock 3) agent in
      let same =
        settled-id aggregate_failed Agent.event_type_of decision (fresh 1) (clock 3) agent a did in
      subst (IsOut (some agent)) (ap (λ m. elim m [ ok x ↦ x | err _ ↦ some a ]) h1)
        (out agent a status same)

  -- What RevokeInvite checked and changed.
  pub record IsRevoked (invite_id revoker_agent_id : String) (done : Revoked) : Type 0 where
    pub invite : Invite
    pub found : r.find_invite invite_id ≡ ok (some invite)
    pub admin : IsAdmin invite.account_id revoker_agent_id
    pub was_pending : invite.status ≡ "pending"
    pub same_invite : done.invite.base.aggregate_id ≡ invite.base.aggregate_id
    pub invite_closed : done.invite.status ≡ "revoked"
    pub agent : Option AgentAggregate
    pub agent_found : r.find_agent invite.invitee_agent_id ≡ ok agent
    pub agent_out : IsOut agent done.agent

  revoke_plan-IsRevoked :
      (invite_id revoker_agent_id : String) (done : Revoked)
      → revoke_plan r fresh clock invite_id revoker_agent_id ≡ ok done
      → IsRevoked invite_id revoker_agent_id done
  unfolding revoke_plan
  revoke_plan-IsRevoked invite_id revoker_agent_id done h =
      let (answer, looked_up, h1) =
        chain-ok (wrapped lookup_failed (r.find_invite invite_id)) _ h in
      let (i, there, h2) = chain-ok (present invite_not_found answer) _ h1 in
      let (u, admin, h3) =
        chain-ok (validate_admin_or_owner r fresh clock i.account_id revoker_agent_id) _ h2 in
      let (_, _, h4) = chain-ok (refuse_if (not (i.status == "pending")) invite_not_pending) _ h3 in
      let (closed, closes, h5) =
        chain-ok (settled invite_failed (revoke (clock 0) (fresh 0) (clock 1) i)) _ h4 in
      let (agent, read, h6) =
        chain-ok (wrapped lookup_failed (r.find_agent i.invitee_agent_id)) _ h5 in
      let (left, outs, h7) = chain-ok (deactivated_agent r fresh clock agent) _ h6 in
      let built : Revoked = record { agent = left; invite = closed } in
      let same : built ≡ done = ap (λ m. elim m [ ok x ↦ x | err _ ↦ built ]) h7 in
      let did = settled-ok invite_failed (revoke (clock 0) (fresh 0) (clock 1) i) closed closes in
      let statuses = revoke-status (clock 0) (fresh 0) (clock 1) i closed did in
      subst (IsRevoked invite_id revoker_agent_id) same (record {
        invite = i;
        found =
            wrapped-ok lookup_failed (r.find_invite invite_id) answer looked_up
            ∙ ap ok (present-ok invite_not_found answer i there);
        admin = validate-IsAdmin i.account_id revoker_agent_id u admin;
        was_pending = statuses.0;
        same_invite = revoke-id (clock 0) (fresh 0) (clock 1) i closed did;
        invite_closed = statuses.1;
        agent = agent;
        agent_found = wrapped-ok lookup_failed (r.find_agent i.invitee_agent_id) agent read;
        agent_out = deactivated_agent-IsOut agent left outs;
      })

  -- RevokeInvite returns without an error only if the revoker is an owner or an admin of the
  -- invite's account and the invite was pending; then the invite is revoked, the agent that it names,
  -- if it is found, is deactivated, and all writes have been done in their order: the commit of the
  -- events if there is an event store, the agent if it was found, and the invite.
  pub revoke_invite-IsRevoked :
      (has_store : Bool) (write : Write → Option E) (invite_id revoker_agent_id : String)
      (done : Revoked)
      → let result = revoke_invite r fresh clock has_store write invite_id revoker_agent_id in
        result.1 ≡ ok done
        → IsRevoked invite_id revoker_agent_id done × (result.0 ≡ revoking has_store done.agent)
  unfolding revoke_invite
  revoke_invite-IsRevoked has_store write invite_id revoker_agent_id done h =
      elim (Answer-cases (revoke_plan r fresh clock invite_id revoker_agent_id)) [
        | inr (e, failed) ↦ ground (arith, failed, h)
        | inl (planned, plan) ↦
            elim (Option-cases (run_writes write (revoke_writes has_store planned)).1) [
              | inr (e, broken) ↦ ground (arith, plan, broken, h)
              | inl works ↦
                  let same : ok planned ≡ ok done = ground (arith, plan, works, h) in
                  let is_done = ap (λ m. elim m [ ok x ↦ x | err _ ↦ planned ]) same in
                  (
                    revoke_plan-IsRevoked invite_id revoker_agent_id done (plan ∙ same),
                    rw (plan, revoke_invite)
                        (run_writes-done write (revoke_writes has_store planned) works
                          ∙ ap (revoke_writes has_store) is_done
                          ∙ revoke_writes-revoking has_store done.agent done.invite),
                  )
            ]
      ]
