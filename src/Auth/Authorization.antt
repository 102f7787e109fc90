-- ===== src/Auth/Authorization.antt =====
-- pkg/auth/application/authorization_service.go: the PolicyDecisionPoint over any PermissionStore.
pub mod Decides
pub mod Accounts
use pericarp.Prelude.{
  String, ◌==◌, Bool, true, false, not, ◌&&◌, ◌||◌, List, [], ◌∷◌, ◌++◌, contains, if◌then◌else◌,
}

pub record Permission : Type 0 where
  pub assignee : String
  pub action : String
  pub target : String

-- What a call answers: a value or an error.
pub data Answer (E A : Type 0) : Type 0 where
  ok : A → Answer E A
  err : E → Answer E A

-- The consuming application implements this on its storage.
pub record PermissionStore (E : Type 0) : Type 0 where
  pub permissions_for : String → Answer E (List Permission)
  pub prohibitions_for : String → Answer E (List Permission)
  pub roles_for_agent : String → Answer E (List String)
  pub roles_in_account : String → String → Answer E (List String)

-- The errors that wrap one of the store.
pub data AuthorizationError (E : Type 0) : Type 0 where
  prohibitions_failed permissions_failed : String → E → AuthorizationError E
  roles_failed global_roles_failed : String → E → AuthorizationError E
  account_roles_failed : String → String → E → AuthorizationError E

-- matchesRule
unfoldable pub matches_rule : Permission → String → String → Bool
matches_rule p action target =
    if not (p.action == action) then false else (p.target == target) || (p.target == "*")

-- The inner loop of evaluate.
unfoldable pub any_match : List Permission → String → String → Bool
unfolding matches_rule
any_match [] action target = false
any_match (p ∷ ps) action target =
    let rest = any_match ps action target in if matches_rule p action target then true else rest

-- One role of collectAssigneesInAccount, behind the assignees and the seen ones.
unfoldable pub add_role : String → List String × List String → List String × List String
add_role r (assignees, seen) =
    if contains seen r then (assignees, seen) else (assignees ++ r ∷ [], r ∷ seen)

-- A loop of collectAssigneesInAccount.
unfoldable pub add_unseen : List String → List String × List String → List String × List String
unfolding add_role
add_unseen [] found = found
add_unseen (r ∷ roles) found = add_unseen roles (add_role r found)

module _ {E : Type 0} where
  -- A loop of evaluate over the assignees, up to a rule that matches or an error.
  unfoldable pub find_match :
      (String → Answer E (List Permission))
      → (String → E → AuthorizationError E)
      → List String
      → String
      → String
      → Answer (AuthorizationError E) Bool
  unfolding any_match
  find_match rules_of wrap [] action target = ok false
  find_match rules_of wrap (a ∷ assignees) action target = elim (rules_of a) [
    | err e ↦ err (wrap a e)
    | ok rules ↦ elim (any_match rules action target) [
      | true ↦ ok true
      | false ↦ find_match rules_of wrap assignees action target
    ]
  ]

  -- evaluate: prohibitions first, then permissions, else deny.
  unfoldable pub evaluate :
      PermissionStore E → List String → String → String → Answer (AuthorizationError E) Bool
  unfolding find_match
  evaluate s assignees action target =
      elim (find_match s.prohibitions_for prohibitions_failed assignees action target) [
        | err e ↦ err e
        | ok true ↦ ok false
        | ok false ↦ find_match s.permissions_for permissions_failed assignees action target
      ]

  -- collectAssignees
  unfoldable pub collect_assignees :
      PermissionStore E → String → Answer (AuthorizationError E) (List String)
  collect_assignees s agent_id = elim (s.roles_for_agent agent_id) [
    | err e ↦ err (roles_failed agent_id e)
    | ok roles ↦ ok (agent_id ∷ roles)
  ]

  -- collectAssigneesInAccount
  unfoldable pub collect_in_account :
      PermissionStore E → String → String → Answer (AuthorizationError E) (List String)
  unfolding add_unseen
  collect_in_account s agent_id account_id = elim (s.roles_for_agent agent_id) [
    | err e ↦ err (global_roles_failed agent_id e)
    | ok global_roles ↦ elim (s.roles_in_account agent_id account_id) [
      | err e ↦ err (account_roles_failed agent_id account_id e)
      | ok account_roles ↦
          ok (add_unseen account_roles (add_unseen global_roles (agent_id ∷ [], agent_id ∷ []))).0
    ]
  ]

  unfoldable pub is_authorized :
      PermissionStore E → String → String → String → Answer (AuthorizationError E) Bool
  unfolding collect_assignees evaluate
  is_authorized s agent_id action target = elim (collect_assignees s agent_id) [
    | err e ↦ err e
    | ok assignees ↦ evaluate s assignees action target
  ]

  unfoldable pub is_authorized_in_account :
      PermissionStore E → String → String → String → String → Answer (AuthorizationError E) Bool
  unfolding collect_in_account evaluate
  is_authorized_in_account s agent_id account_id action target =
      elim (collect_in_account s agent_id account_id) [
        | err e ↦ err e
        | ok assignees ↦ evaluate s assignees action target
      ]

  -- The loop of GetPermissions and GetProhibitions behind the rules in `result`.
  unfoldable pub gather :
      (String → Answer E (List Permission))
      → (String → E → AuthorizationError E)
      → List String
      → List Permission
      → Answer (AuthorizationError E) (List Permission)
  gather rules_of wrap [] result = ok result
  gather rules_of wrap (a ∷ assignees) result = elim (rules_of a) [
    | err e ↦ err (wrap a e)
    | ok rules ↦ gather rules_of wrap assignees (result ++ rules)
  ]

  unfoldable pub get_permissions :
      PermissionStore E → String → Answer (AuthorizationError E) (List Permission)
  unfolding collect_assignees gather
  get_permissions s agent_id = elim (collect_assignees s agent_id) [
    | err e ↦ err e
    | ok assignees ↦ gather s.permissions_for permissions_failed assignees []
  ]

  unfoldable pub get_prohibitions :
      PermissionStore E → String → Answer (AuthorizationError E) (List Permission)
  unfolding collect_assignees gather
  get_prohibitions s agent_id = elim (collect_assignees s agent_id) [
    | err e ↦ err e
    | ok assignees ↦ gather s.prohibitions_for prohibitions_failed assignees []
  ]
