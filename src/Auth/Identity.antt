-- ===== src/Auth/Identity.antt =====
-- pkg/auth/identity.go, resource_ownership.go and subscription.go: the identity in a context, the
-- owner of a resource, and subscription claims. Times are natural numbers, 0 the zero time.
pub mod Laws
use pericarp.Prelude.{
  String, ◌==◌, Bool, true, false, not, ◌&&◌, ◌||◌, ℕ, Option, none, some, List, eqb, ltb, contains,
  [], ◌∷◌, if◌then◌else◌,
}
use pericarp.Prelude.Dict.{Dict}

-- SubscriptionStatus is a string.
abbrev pub active_status : String
active_status = "active"

abbrev pub trialing_status : String
trialing_status = "trialing"

-- Valid
unfoldable pub is_valid_status : String → Bool
is_valid_status s =
    contains (active_status ∷ trialing_status ∷ "past_due" ∷ "cancelled" ∷ "inactive" ∷ []) s

pub record SubscriptionClaim (Any : Type 0) : Type 0 where
  pub status : String
  pub plan : String
  pub provider : String
  pub expires_at : ℕ
  pub metadata : Dict Any

-- IsActiveAt; a nil claim is `none`.
unfoldable pub is_active_at : {Any : Type 0} → ℕ → Option (SubscriptionClaim Any) → Bool
is_active_at now none = false
is_active_at now (some s) =
    if not (eqb s.expires_at 0) && ltb s.expires_at now
    then false
    else (s.status == active_status) || (s.status == trialing_status)

pub record Identity (Any : Type 0) : Type 0 where
  pub agent_id : String
  pub account_ids : List String
  pub active_account_id : String
  pub subscription : Option (SubscriptionClaim Any)

-- A context, as far as it carries an identity.
abbrev pub Context : Type 0 → Type 0
Context Any = Option (Identity Any)

-- AgentFromCtx
abbrev pub agent_from_ctx : {Any : Type 0} → Context Any → Option (Identity Any)
agent_from_ctx ctx = ctx

-- ContextWithAgent
abbrev pub context_with_agent : {Any : Type 0} → Context Any → Identity Any → Context Any
context_with_agent ctx id = some id

pub data AccessError : Type 0 where
  no_identity empty_agent_id empty_active_account_id account_mismatch : AccessError

pub record ResourceOwnership : Type 0 where
  pub account_id : String
  pub created_by_agent_id : String

-- What ResourceOwnershipFromCtx returns.
pub data Owned : Type 0 where
  owned : ResourceOwnership → Owned
  unowned : AccessError → Owned

-- ResourceOwnershipFromCtx
unfoldable pub resource_ownership_from_ctx : {Any : Type 0} → Context Any → Owned
resource_ownership_from_ctx ctx = elim (agent_from_ctx ctx) [
  | none ↦ unowned no_identity
  | some id ↦
      if id.agent_id == ""
      then unowned empty_agent_id
      else if id.active_account_id == ""
      then unowned empty_active_account_id
      else owned (record { account_id = id.active_account_id; created_by_agent_id = id.agent_id })
]

-- VerifyAccountAccess
unfoldable pub verify_account_access : {Any : Type 0} → Context Any → String → Option AccessError
verify_account_access ctx resource_account_id = elim (agent_from_ctx ctx) [
  | none ↦ some no_identity
  | some id ↦
      if not (id.active_account_id == resource_account_id) then some account_mismatch else none
]
