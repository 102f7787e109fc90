-- ===== src/Auth/InviteService/Accepts.antt =====
-- When AcceptInvite goes through (invite_service.go).
use pericarp.Prelude.{
  String, Bool, true, false, ◌≡◌, ◌⊎◌, refl, ◌∙◌, ℕ, Option, Option-cases, List, [], ◌∷◌, inl, inr,
  arith,
}
use pericarp.Auth.Authorization.{ok}
use pericarp.Auth.Authorization.Decides.{Answer-cases}
use pericarp.Auth.InviteService.Chain.{run_writes-done}
use pericarp.Auth.InviteService.{
  UserInfo, commit, save_agent, save_credential, save_account, save_member, save_invite,
  Repositories, Accepted, Write, accept_writes, run_writes, accept_plan, accept_invite,
}
use pericarp.Auth.InviteService.Checks.{IsAccepted, accept_plan-IsAccepted}

-- The commit of the events, where there is an event store, and the saves behind it.
abbrev pub commit_then_saves : Bool → List Write
commit_then_saves true =
    commit ∷ save_agent ∷ save_credential ∷ save_account ∷ save_member ∷ save_invite ∷ []
commit_then_saves false =
    save_agent ∷ save_credential ∷ save_account ∷ save_member ∷ save_invite ∷ []

accept_writes-commit : (has_store : Bool) → accept_writes has_store ≡ commit_then_saves has_store
accept_writes-commit true = refl
accept_writes-commit false = refl

-- The commit comes first of what is written.
abbrev pub StartsWithCommit : List Write → Type 0
StartsWithCommit written = (written ≡ []) ⊎ ((later : List Write) × (written ≡ commit ∷ later))

module _ {E : Type 0} (r : Repositories E) (fresh : ℕ → String) (clock : ℕ → ℕ) where
  -- AcceptInvite returns an agent only if the token is valid for an invite that was pending, not
  -- expired and sent to the user's email; then the agent is the invitee that the invite names and
  -- is active, the account is the invite's, the new credential belongs to the agent, the invite is
  -- accepted, and all writes have been done in their order, the commit of the events first if there
  -- is an event store.
  pub accept_invite-IsAccepted :
      (has_store : Bool) (write : Write → Option E) (token : String) (user : UserInfo)
      (accepted : Accepted)
      → let result = accept_invite r fresh clock has_store write token user in
        result.1 ≡ ok accepted
        → IsAccepted r fresh clock token user accepted × (result.0 ≡ commit_then_saves has_store)
  unfolding accept_invite
  accept_invite-IsAccepted has_store write token user accepted h =
      elim (Answer-cases (accept_plan r fresh clock token user)) [
        | inr (e, failed) ↦ ground (arith, failed, h)
        | inl (planned, plan) ↦ elim (Option-cases (run_writes write (accept_writes has_store)).1) [
          | inr (e, broken) ↦ ground (arith, plan, broken, h)
          | inl works ↦
              let same : ok planned ≡ ok accepted = ground (arith, plan, works, h) in
              (
                accept_plan-IsAccepted r fresh clock token user accepted (plan ∙ same),
                rw (plan, accept_invite) (run_writes-done write (accept_writes has_store) works)
                    ∙ accept_writes-commit has_store,
              )
        ]
      ]
