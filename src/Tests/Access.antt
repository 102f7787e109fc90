-- ===== src/Tests/Access.antt =====
-- The theorems on authorization, ownership and subscriptions at concrete inputs.
use pericarp.Prelude.{
  String, ◌==◌, not, ◌&&◌, ◌≡◌, ◌≢◌, ◌↔◌, refl, ℕ, none, some, List, [], ◌∷◌, All, if◌then◌else◌,
}
use pericarp.Auth.Authorization.{
  Permission, PermissionStore, ok, any_match, matches_rule, is_authorized, is_authorized_in_account,
  get_permissions, get_prohibitions,
}
use pericarp.Auth.Authorization.Decides.{
  IsClear, is_authorized-effective, is_authorized-fails_closed,
}
use pericarp.Auth.Authorization.Accounts.{any_of, in_account-decides}
use pericarp.Auth.Identity.{
  Context, SubscriptionClaim, Identity, resource_ownership_from_ctx, verify_account_access,
}
use pericarp.Auth.Identity.Laws.{ownership-isolates}

abbrev rule : String → String → Permission
rule assignee target = record { assignee = assignee; action = "read"; target = target }

-- Editors may read everything; Ann may not read the plans.
abbrev allowed : String → List Permission
allowed a = if a == "editor" then rule "editor" "*" ∷ [] else []

abbrev forbidden : String → List Permission
forbidden a = if a == "ann" then rule "ann" "plans" ∷ [] else []

abbrev store : PermissionStore String
store = record {
  permissions_for = λ a. ok (allowed a);
  prohibitions_for = λ a. ok (forbidden a);
  roles_for_agent = λ a. ok ("editor" ∷ []);
  roles_in_account = λ a account. ok ("editor" ∷ "owner" ∷ []);
}

is_authorized-effective_example :
    is_authorized store "ann" "read" "notes"
    ≡ ok (
        not (any_match (rule "ann" "plans" ∷ []) "read" "notes")
        && any_match (rule "editor" "*" ∷ []) "read" "notes")
unfolding get_permissions get_prohibitions
is_authorized-effective_example =
    is_authorized-effective store "ann" "read" "notes" (rule "editor" "*" ∷ [])
      (rule "ann" "plans" ∷ []) refl refl

is_authorized-fails_closed_example :
    (roles : List String) × (store.roles_for_agent "ann" ≡ ok roles)
    × All (IsClear store "read" "notes") ("ann" ∷ roles)
unfolding is_authorized matches_rule
is_authorized-fails_closed_example = is_authorized-fails_closed store "ann" "read" "notes" refl

in_account-decides_example :
    is_authorized_in_account store "ann" "acc" "read" "plans"
    ≡ ok (
        not (
          any_of
            (λ a. any_match (forbidden a) "read" "plans")
            ("ann" ∷ "editor" ∷ "editor" ∷ "owner" ∷ []))
        && any_of
            (λ a. any_match (allowed a) "read" "plans")
            ("ann" ∷ "editor" ∷ "editor" ∷ "owner" ∷ []))
in_account-decides_example =
    in_account-decides store "ann" "acc" "read" "plans" ("editor" ∷ []) ("editor" ∷ "owner" ∷ [])
      allowed forbidden refl refl (λ a. refl) (λ a. refl)

abbrev ann : Identity ℕ
ann = record { agent_id = "ann"; account_ids = []; active_account_id = "acc"; subscription = none }

ownership-isolates_example :
    (◌≢◌ {A = String} "acc" "")
    × (◌≢◌ {A = String} "ann" "")
    × (verify_account_access (some ann) "acc" ≡ none)
    × ((id : Identity ℕ) × (◌≡◌ {A = Context ℕ} (some ann) (some id)) × ("ann" ≡ id.agent_id))
    × ((other : Context ℕ)
        → (verify_account_access other "acc" ≡ none)
          ↔ ((id : Identity ℕ) × (other ≡ some id) × (id.active_account_id ≡ "acc")))
unfolding resource_ownership_from_ctx
ownership-isolates_example =
    ownership-isolates (some ann) (record { account_id = "acc"; created_by_agent_id = "ann" }) refl

abbrev claim : SubscriptionClaim ℕ
claim = record {
  status = "trialing";
  plan = "pro";
  provider = "stripe";
  expires_at = 100;
  metadata = [];
}
