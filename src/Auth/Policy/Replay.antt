-- ===== src/Auth/Policy/Replay.antt =====
-- A Policy rebuilt from its events (policy.go).
use pericarp.Prelude.{
  String, ◌==◌, Bool, true, false, not, ◌≡◌, refl, ℕ, some, List, [], ◌∷◌, arith,
}
use pericarp.Entity.{new_base_entity}
use pericarp.Auth.Aggregate.{Aggregate, Decision, require, keep, emit, create}
use pericarp.Auth.Aggregate.Replay.{
  IsRebuilt, IsCarried, IsCarried-if, IsCarried-require, Call, run, AllFresh, create-IsRebuilt,
}
use pericarp.Auth.Policy.{
  Policy, PolicyPayload, created, activated, deactivated, permission_granted, permission_revoked,
  prohibition_set, prohibition_revoked, duty_imposed, duty_discharged, assigned, event_type_of,
  with_policy, activate, deactivate, grant_permission, revoke_permission, set_prohibition,
  revoke_prohibition, impose_duty, discharge_duty, assign, evolve, policy_checks, rule_checks,
  triple, policy_type_or_set,
}

-- Its event has a time of its own.
abbrev pub untimed : Policy → Policy
untimed p = record p { created_at = 0 }

-- The methods that record a rule, on an assignee, an action and a target.
pub data Rule : Type 0 where
  grant revoke prohibit permit impose discharge : Rule

pub data Method : Type 0 where
  activate_call deactivate_call : ℕ → Method
  rule_call : Rule → String → String → String → ℕ → Method
  assign_call : String → ℕ → Method

unfoldable pub act_rule :
    Rule → String → String → String → ℕ → Policy → Decision PolicyPayload Policy
unfolding grant_permission revoke_permission set_prohibition revoke_prohibition impose_duty
    discharge_duty
act_rule grant assignee action target at p = grant_permission assignee action target at p
act_rule revoke assignee action target at p = revoke_permission assignee action target at p
act_rule prohibit assignee action target at p = set_prohibition assignee action target at p
act_rule permit assignee action target at p = revoke_prohibition assignee action target at p
act_rule impose assignee action target at p = impose_duty assignee action target at p
act_rule discharge assignee action target at p = discharge_duty assignee action target at p

unfoldable pub act : Method → String → Policy → Decision PolicyPayload Policy
unfolding activate deactivate act_rule assign
act (activate_call at) id p = activate at p
act (deactivate_call at) id p = deactivate at p
act (rule_call rule assignee action target at) id p = act_rule rule assignee action target at p
act (assign_call assignee_id at) id p = assign assignee_id at id p

-- An event that changes no field.
rule-IsCarried :
    (checks : List (Bool × String)) (p : Policy) (payload : PolicyPayload)
    → ((r : Policy) → evolve payload r ≡ some r)
    → IsCarried evolve untimed p (require checks (emit payload p))
rule-IsCarried checks p payload same =
    IsCarried-require evolve untimed checks p (emit payload p) (λ r seen. (r, same r, seen))

act_rule-IsCarried :
    (rule : Rule) (assignee action target : String) (at : ℕ) (p : Policy)
    → IsCarried evolve untimed p (act_rule rule assignee action target at p)
unfolding act_rule evolve
act_rule-IsCarried grant assignee action target at p =
    rule-IsCarried (rule_checks assignee action target) p
      (permission_granted (triple assignee "odrl:permission" target) action at) (λ r. refl)
act_rule-IsCarried revoke assignee action target at p =
    rule-IsCarried (rule_checks assignee action target) p
      (permission_revoked (triple assignee "odrl:permission" target) action at) (λ r. refl)
act_rule-IsCarried prohibit assignee action target at p =
    rule-IsCarried (rule_checks assignee action target) p
      (prohibition_set (triple assignee "odrl:prohibition" target) action at) (λ r. refl)
act_rule-IsCarried permit assignee action target at p =
    rule-IsCarried (rule_checks assignee action target) p
      (prohibition_revoked (triple assignee "odrl:prohibition" target) action at) (λ r. refl)
act_rule-IsCarried impose assignee action target at p =
    rule-IsCarried (rule_checks assignee action target) p
      (duty_imposed (triple assignee "odrl:duty" target) action at) (λ r. refl)
act_rule-IsCarried discharge assignee action target at p =
    rule-IsCarried (rule_checks assignee action target) p
      (duty_discharged (triple assignee "odrl:duty" target) action at) (λ r. refl)

act-IsCarried : (m : Method) (id : String) (p : Policy) → IsCarried evolve untimed p (act m id p)
unfolding act evolve
act-IsCarried (activate_call at) id p =
    IsCarried-if evolve untimed p.active p keep (emit (activated at) (record p { active = true }))
      tt (λ r same. (record r { active = true }, refl, ground arith))
act-IsCarried (deactivate_call at) id p =
    IsCarried-if evolve untimed (not p.active) p keep
      (emit (deactivated at) (record p { active = false })) tt
      (λ r same. (record r { active = false }, refl, ground arith))
act-IsCarried (rule_call rule assignee action target at) id p =
    act_rule-IsCarried rule assignee action target at p
act-IsCarried (assign_call assignee_id at) id p =
    rule-IsCarried ((assignee_id == "", "assignee ID cannot be empty") ∷ []) p
      (assigned (triple id "odrl:assignee" assignee_id) at) (λ r. refl)

abbrev pub blank : Policy
blank = record { name = ""; policy_type = ""; active = false; created_at = 0 }

with_policy-IsCarried :
    (id name policy_type : String) (created_at at : ℕ)
    → IsCarried evolve untimed blank (with_policy id name policy_type created_at at blank)
unfolding with_policy evolve
with_policy-IsCarried id name policy_type created_at at =
    let kind = policy_type_or_set policy_type in
    IsCarried-require evolve untimed (policy_checks id name) blank
      (emit (created name kind at)
        (record { name = name; policy_type = kind; active = true; created_at = created_at }))
      (λ r same.
        (record { name = name; policy_type = kind; active = true; created_at = at }, refl, refl))

-- Whatever With and the calls behind it answer, if each call draws a new event id, then the events
-- that a Policy recorded are all accepted by ApplyEvent on an empty one, and rebuild its entity and
-- all of its fields but the time.
pub policy-IsRebuilt :
    (id name policy_type : String) (created_at at : ℕ) (event_id : String) (now : ℕ)
    (cs : List (Call Method))
    → let start : Aggregate PolicyPayload Policy = record {
      base = new_base_entity id;
      state = blank;
    } in
      let made =
        (create event_type_of id
          (with_policy id name policy_type created_at at blank)
          event_id
          now
          start).0 in
      AllFresh event_type_of act cs made
      → IsRebuilt evolve untimed start (run event_type_of act cs made)
policy-IsRebuilt id name policy_type created_at at event_id now cs =
    create-IsRebuilt event_type_of act evolve untimed act-IsCarried id
      (with_policy id name policy_type created_at at blank) blank event_id now cs
      (with_policy-IsCarried id name policy_type created_at at)
