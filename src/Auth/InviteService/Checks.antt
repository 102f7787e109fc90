-- ===== src/Auth/InviteService/Checks.antt =====
-- What AcceptInvite checks and changes up to its writes (invite_service.go).
use pericarp.Prelude.{String, ◌==◌, eq_iff, false, not, ◌≡◌, subst, ap, ◌∙◌, ℕ, some, arith}
use pericarp.Auth.Invite.{Invite, is_expired, accept}
use pericarp.Auth.Authorization.{ok, err}
use pericarp.Auth.InviteService.Chain.{chain-ok, refuse_if-ok, wrapped-ok, present-ok, settled-ok}
use pericarp.Auth.InviteService.{
  UserInfo, AgentAggregate, AccountAggregate, Repositories, token_invalid, lookup_failed,
  invite_not_found, invite_not_pending, invite_expired, email_mismatch, invite_failed, refuse_if,
  wrapped, present, settled, Accepted, checked_invite, activated_agent, joined_account,
  new_credential, accept_plan,
}
use pericarp.Auth.InviteService.Changes.{
  agent-active, credential-owner, accept-status, accept-id, agent-found, account-found,
}

module _ {E : Type 0} (r : Repositories E) (fresh : ℕ → String) (clock : ℕ → ℕ) where
  -- The checks of AcceptInvite, as they hold of the invite that it loads.
  pub record IsChecked (token : String) (user : UserInfo) (invite : Invite) : Type 0 where
    pub id : String
    pub token_valid : r.validate_invite_token token ≡ ok id
    pub found : r.find_invite id ≡ ok (some invite)
    pub was_pending : invite.status ≡ "pending"
    pub in_time : is_expired (clock 0) invite ≡ false
    pub addressed : user.email ≡ invite.email

  checked_invite-IsChecked :
      (token : String) (user : UserInfo) (invite : Invite)
      → checked_invite r fresh clock token user ≡ ok invite
      → IsChecked token user invite
  unfolding checked_invite
  checked_invite-IsChecked token user invite h =
      let (id, valid, h1) = chain-ok (wrapped token_invalid (r.validate_invite_token token)) _ h in
      let (answer, looked_up, h2) = chain-ok (wrapped lookup_failed (r.find_invite id)) _ h1 in
      let (i, there, h3) = chain-ok (present invite_not_found answer) _ h2 in
      let (_, pending, h4) =
        chain-ok (refuse_if (not (i.status == "pending")) invite_not_pending) _ h3 in
      let (_, early, h5) = chain-ok (refuse_if (is_expired (clock 0) i) invite_expired) _ h4 in
      let (_, same_email, h6) =
        chain-ok (refuse_if (not (user.email == i.email)) email_mismatch) _ h5 in
      let same : i ≡ invite = ap (λ m. elim m [ ok x ↦ x | err _ ↦ i ]) h6 in
      let is_pending = refuse_if-ok (not (i.status == "pending")) invite_not_pending _ pending in
      let is_same = refuse_if-ok (not (user.email == i.email)) email_mismatch _ same_email in
      subst (IsChecked token user) same (record {
        id = id;
        token_valid = wrapped-ok token_invalid (r.validate_invite_token token) id valid;
        found =
            wrapped-ok lookup_failed (r.find_invite id) answer looked_up
            ∙ ap ok (present-ok invite_not_found answer i there);
        was_pending = ground (arith, is_pending, eq_iff i.status "pending");
        in_time = refuse_if-ok (is_expired (clock 0) i) invite_expired _ early;
        addressed = ground (arith, is_same, eq_iff user.email i.email);
      })

  -- What AcceptInvite checked and changed.
  pub record IsAccepted (token : String) (user : UserInfo) (accepted : Accepted) : Type 0 where
    pub invite : Invite
    pub checked : IsChecked token user invite
    pub agent :
        (loaded : AgentAggregate) × (r.find_agent invite.invitee_agent_id ≡ ok (some loaded))
        × (accepted.agent.base.aggregate_id ≡ loaded.base.aggregate_id)
    pub account :
        (loaded : AccountAggregate) × (r.find_account invite.account_id ≡ ok (some loaded))
        × (accepted.account.base.aggregate_id ≡ loaded.base.aggregate_id)
    pub agent_active : accepted.agent.state.status ≡ "active"
    pub credential_owner : accepted.credential.state.agent_id ≡ accepted.agent.base.aggregate_id
    pub same_invite : accepted.invite.base.aggregate_id ≡ invite.base.aggregate_id
    pub invite_closed : accepted.invite.status ≡ "accepted"

  pub accept_plan-IsAccepted :
      (token : String) (user : UserInfo) (accepted : Accepted)
      → accept_plan r fresh clock token user ≡ ok accepted
      → IsAccepted token user accepted
  unfolding accept_plan
  accept_plan-IsAccepted token user accepted h =
      let (invite, checks, h1) = chain-ok (checked_invite r fresh clock token user) _ h in
      let (agent, activated, h2) = chain-ok (activated_agent r fresh clock user invite) _ h1 in
      let (credential, added, h3) =
        chain-ok (new_credential r fresh clock user agent.base.aggregate_id) _ h2 in
      let (account, joined, h4) =
        chain-ok (joined_account r fresh clock invite agent.base.aggregate_id) _ h3 in
      let (done, closes, h5) =
        chain-ok (settled invite_failed (accept (clock 10) (clock 11) (fresh 5) (clock 12) invite))
          _ h4 in
      let built : Accepted = record {
        agent = agent;
        credential = credential;
        account = account;
        invite = done;
      } in
      let same : built ≡ accepted = ap (λ m. elim m [ ok x ↦ x | err _ ↦ built ]) h5 in
      subst (IsAccepted token user) same (record {
        invite = invite;
        checked = checked_invite-IsChecked token user invite checks;
        agent = agent-found r fresh clock user invite agent activated;
        account = account-found r fresh clock invite agent.base.aggregate_id account joined;
        agent_active = agent-active r fresh clock user invite agent activated;
        credential_owner =
            credential-owner r fresh clock user agent.base.aggregate_id credential added;
        same_invite =
            accept-id r fresh clock (clock 10) (clock 11) (fresh 5) (clock 12) invite done (
              settled-ok invite_failed (accept (clock 10) (clock 11) (fresh 5) (clock 12) invite)
                done closes);
        invite_closed =
            accept-status r fresh clock (clock 10) (clock 11) (fresh 5) (clock 12) invite done (
              settled-ok invite_failed (accept (clock 10) (clock 11) (fresh 5) (clock 12) invite)
                done closes);
      })
