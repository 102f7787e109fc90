-- ===== src/Auth/Identity/Laws.antt =====
-- Tenants are kept apart, and a subscription that ends stays ended (resource_ownership.go,
-- subscription.go).
use pericarp.Prelude.{
  String, ◌==◌, eq_iff, eq_refl, Bool-cases, sym, true, ◌≡◌, ◌≢◌, ◌↔◌, ap, refl, ℕ, ◌≤◌, none, some,
  inl, inr, arith,
}
use pericarp.Auth.Identity.{
  SubscriptionClaim, is_valid_status, is_active_at, Identity, Context, ResourceOwnership, owned,
  unowned, resource_ownership_from_ctx, verify_account_access,
}

-- The fields that an ownership comes from.
ownership_fields :
    {Any : Type 0} (id : Identity Any) (o : ResourceOwnership)
    → resource_ownership_from_ctx (some id) ≡ owned o
    → (o ≡ record { account_id = id.active_account_id; created_by_agent_id = id.agent_id })
      × (id.agent_id ≢ "")
      × (id.active_account_id ≢ "")
unfolding resource_ownership_from_ctx
ownership_fields id o h = elim (Bool-cases (id.agent_id == "")) [
  | inl nobody ↦ ground (arith, nobody, h)
  | inr agent ↦ elim (Bool-cases (id.active_account_id == "")) [
    | inl nowhere ↦ ground (arith, agent, nowhere, h)
    | inr account ↦
        let found : owned
              (record { account_id = id.active_account_id; created_by_agent_id = id.agent_id })
            ≡ owned o =
          ground (arith, agent, account, h) in
        (
          sym (ap (λ r. elim r [ owned x ↦ x | unowned _ ↦ o ]) found),
          ground (arith, agent, eq_iff id.agent_id ""),
          ground (arith, account, eq_iff id.active_account_id ""),
        )
  ]
]

access_iff :
    {Any : Type 0} (other : Context Any) (account_id : String)
    → (verify_account_access other account_id ≡ none)
      ↔ ((id : Identity Any) × (other ≡ some id) × (id.active_account_id ≡ account_id))
unfolding verify_account_access
access_iff none account_id = (λ h. absurd (cc h), λ (_, h, _). absurd (cc h))
access_iff {Any = Any} (some x) account_id =
    let same = eq_iff x.active_account_id account_id in
    (
      λ h. (x, refl, ground (arith, same, h)),
      λ (id, h, k). ground (
        arith,
        same,
        k,
        ap {B = String} (λ (c : Context Any). elim c [ some i ↦ i.active_account_id | none ↦ "" ])
            h,
      ),
    )

-- A resource that is tagged with the ownership from one context can be accessed from exactly the
-- contexts that carry an identity with the same active account, the first one among them, and from
-- no context without an identity; neither tag is empty, and its creator is the agent of the
-- identity that it was tagged from.
pub ownership-isolates :
    {Any : Type 0} (ctx : Context Any) (o : ResourceOwnership)
    → resource_ownership_from_ctx ctx ≡ owned o
    → (o.account_id ≢ "")
      × (o.created_by_agent_id ≢ "")
      × (verify_account_access ctx o.account_id ≡ none)
      × ((id : Identity Any) × (ctx ≡ some id) × (o.created_by_agent_id ≡ id.agent_id))
      × ((other : Context Any)
          → (verify_account_access other o.account_id ≡ none)
            ↔ ((id : Identity Any) × (other ≡ some id) × (id.active_account_id ≡ o.account_id)))
unfolding resource_ownership_from_ctx verify_account_access
ownership-isolates none o h = cc h
ownership-isolates (some id) o h =
    let (fields, agent, account) = ownership_fields id o h in
    rw fields (
      account,
      agent,
      ground (arith, eq_refl id.active_account_id),
      (id, refl, refl),
      λ other. access_iff other id.active_account_id,
    )

-- A subscription that grants access at some time has a valid status, and has granted it at every
-- earlier time.
pub is_active_at-earlier :
    {Any : Type 0} (s : SubscriptionClaim Any) (earlier now : ℕ)
    → earlier ≤ now
    → is_active_at now (some s) ≡ true
    → (is_valid_status s.status ≡ true) × (is_active_at earlier (some s) ≡ true)
unfolding is_active_at is_valid_status
is_active_at-earlier s earlier now before active = ground (
  arith,
  before,
  active,
  eq_iff s.status "active",
  eq_iff s.status "trialing",
  eq_iff "active" s.status,
  eq_iff "trialing" s.status,
)
