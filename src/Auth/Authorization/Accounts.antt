-- ===== src/Auth/Authorization/Accounts.antt =====
-- Decisions within an account (authorization_service.go).
use pericarp.Prelude.{
  String, ◌==◌, Bool, Bool-cases, true, false, not, ◌&&◌, ◌||◌, ◌≡◌, refl, sym, ap, ap₂, ◌∙◌, inl,
  inr, List, [], ◌∷◌, ◌++◌, contains, arith, eq_iff,
}
use pericarp.Auth.Authorization.{
  Permission, Answer, ok, PermissionStore, AuthorizationError, permissions_failed,
  prohibitions_failed, any_match, find_match, add_role, add_unseen, collect_in_account,
  is_authorized_in_account,
}
use pericarp.Auth.Authorization.Decides.{evaluate-both}

-- Some of the names passes the test.
abbrev pub any_of : (String → Bool) → List String → Bool
any_of p [] = false
any_of p (x ∷ xs) = p x || any_of p xs

any_of-append :
    (p : String → Bool) (xs ys : List String) → any_of p (xs ++ ys) ≡ (any_of p xs || any_of p ys)
any_of-append p [] ys = refl
any_of-append p (x ∷ xs) ys = ground (arith, any_of-append p xs ys)

any_of-contains :
    (p : String → Bool) (xs : List String) (x : String)
    → contains xs x ≡ true
    → p x ≡ true
    → any_of p xs ≡ true
any_of-contains p [] x h passes = cc h
any_of-contains p (y ∷ ys) x h passes = elim (Bool-cases (y == x)) [
  | inl same ↦ let e = (eq_iff y x).0 same in ground (arith, passes, ap p e)
  | inr differ ↦ ground (arith, any_of-contains p ys x (ground (arith, h, differ)) passes)
]

contains-append :
    (xs ys : List String) (x : String) → contains (xs ++ ys) x ≡ (contains xs x || contains ys x)
contains-append [] ys x = refl
contains-append (y ∷ xs) ys x = ground (arith, contains-append xs ys x)

-- The assignees are those seen.
abbrev Agree : List String × List String → Type 0
Agree found = (x : String) → contains found.1 x ≡ contains found.0 x

add_role-Agree :
    (r : String) (found : List String × List String) → Agree found → Agree (add_role r found)
unfolding add_role
add_role-Agree r (assignees, seen) same x = elim (Bool-cases (contains seen r)) [
  | inl old ↦ rw old (same x)
  | inr new ↦ rw new (ground (arith, contains-append assignees (r ∷ []) x, same x))
]

any_of-add_role :
    (p : String → Bool) (r : String) (found : List String × List String)
    → Agree found
    → any_of p (add_role r found).0 ≡ (any_of p found.0 || p r)
unfolding add_role
any_of-add_role p r (assignees, seen) same = elim (Bool-cases (contains seen r)) [
  | inl old ↦ elim (Bool-cases (p r)) [
    | inl passes ↦
        let there = any_of-contains p assignees r (sym (same r) ∙ old) passes in
        rw old (ground (arith, there, passes))
    | inr fails ↦ rw old (ground (arith, fails))
  ]
  | inr new ↦ rw new (ground (arith, any_of-append p assignees (r ∷ [])))
]

any_of-add_unseen :
    (p : String → Bool) (roles : List String) (found : List String × List String)
    → Agree found
    → (any_of p (add_unseen roles found).0 ≡ (any_of p found.0 || any_of p roles))
      × Agree (add_unseen roles found)
unfolding add_unseen
any_of-add_unseen p [] found same = (ground arith, same)
any_of-add_unseen p (r ∷ roles) found same =
    let (later, kept) =
      any_of-add_unseen p roles (add_role r found) (add_role-Agree r found same) in
    let one = any_of-add_role p r found same in (ground (arith, later, one), kept)

module _ {E : Type 0} (s : PermissionStore E) (agent_id account_id action target : String)
    (global_roles account_roles : List String) (allow forbid : String → List Permission)
    (global_read : s.roles_for_agent agent_id ≡ ok global_roles)
    (account_read : s.roles_in_account agent_id account_id ≡ ok account_roles)
    (allow_read : (a : String) → s.permissions_for a ≡ ok (allow a))
    (forbid_read : (a : String) → s.prohibitions_for a ≡ ok (forbid a)) where
  find_match-any_of :
      (rules_of : String → Answer E (List Permission)) (wrap : String → E → AuthorizationError E)
      (rules : String → List Permission)
      → ((a : String) → rules_of a ≡ ok (rules a))
      → (assignees : List String)
      → find_match rules_of wrap assignees action target
        ≡ ok (any_of (λ a. any_match (rules a) action target) assignees)
  unfolding find_match
  find_match-any_of rules_of wrap rules read [] = refl
  find_match-any_of rules_of wrap rules read (a ∷ assignees) =
      let later = find_match-any_of rules_of wrap rules read assignees in
      ground (arith, read a, later)

  abbrev collected : List String
  collected = (add_unseen account_roles (add_unseen global_roles (agent_id ∷ [], agent_id ∷ []))).0

  any_of-collected :
      (p : String → Bool)
      → any_of p collected ≡ any_of p (agent_id ∷ (global_roles ++ account_roles))
  any_of-collected p =
      let global = any_of-add_unseen p global_roles (agent_id ∷ [], agent_id ∷ []) (λ x. refl) in
      let account =
        any_of-add_unseen p account_roles (add_unseen global_roles (agent_id ∷ [], agent_id ∷ []))
          global.1 in
      ground (arith, account.0, global.0, any_of-append p global_roles account_roles)

  -- IsAuthorizedInAccount, where the store answers: it answers true exactly when some rule that
  -- permits the action on the target is one of the agent, of a role that it has everywhere or of a
  -- role that it has in the account, and no prohibition of one of these matches. That a role may be
  -- assigned more than once, or equal the agent, makes no difference.
  pub in_account-decides :
      let holders = agent_id ∷ (global_roles ++ account_roles) in
      is_authorized_in_account s agent_id account_id action target
      ≡ ok (
          not (any_of (λ a. any_match (forbid a) action target) holders)
          && any_of (λ a. any_match (allow a) action target) holders)
  unfolding is_authorized_in_account collect_in_account
  in_account-decides =
      let forbidden =
        find_match-any_of s.prohibitions_for prohibitions_failed forbid forbid_read collected in
      let allowed =
        find_match-any_of s.permissions_for permissions_failed allow allow_read collected in
      rw (global_read, account_read, is_authorized_in_account)
        (evaluate-both s collected action target _ _ forbidden allowed
          ∙ ap₂ (λ f a. ok (not f && a)) (any_of-collected _) (any_of-collected _))
