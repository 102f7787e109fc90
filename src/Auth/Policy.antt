-- ===== src/Auth/Policy.antt =====
-- pkg/auth/domain/entities/policy.go and policy_events.go: the Policy aggregate. Each call of
-- time.Now() is an argument; the getters are the fields. Rules are events only.
pub mod Replay
use pericarp.Prelude.{
  String, ◌==◌, Bool, true, false, not, ℕ, Option, none, some, List, [], ◌∷◌, if◌then◌else◌,
}
use pericarp.Prelude.Int.{pos}
use pericarp.Event.{BasicTripleEvent}
use pericarp.Auth.Aggregate.{Aggregate, Decision, require, keep, emit, Failure, restore}

-- The payloads that the type switch of ApplyEvent tells apart; `other` is any other type. A rule
-- has its triple, its action and its time.
pub data PolicyPayload : Type 0 where
  created : String → String → ℕ → PolicyPayload
  activated deactivated : ℕ → PolicyPayload
  permission_granted permission_revoked : BasicTripleEvent → String → ℕ → PolicyPayload
  prohibition_set prohibition_revoked : BasicTripleEvent → String → ℕ → PolicyPayload
  duty_imposed duty_discharged : BasicTripleEvent → String → ℕ → PolicyPayload
  assigned : BasicTripleEvent → ℕ → PolicyPayload
  other : PolicyPayload

unfoldable pub event_type_of : PolicyPayload → String
event_type_of (created _ _ _) = "Policy.Created"
event_type_of (activated _) = "Policy.Activated"
event_type_of (deactivated _) = "Policy.Deactivated"
event_type_of (permission_granted _ _ _) = "Policy.PermissionGranted"
event_type_of (permission_revoked _ _ _) = "Policy.PermissionRevoked"
event_type_of (prohibition_set _ _ _) = "Policy.ProhibitionSet"
event_type_of (prohibition_revoked _ _ _) = "Policy.ProhibitionRevoked"
event_type_of (duty_imposed _ _ _) = "Policy.DutyImposed"
event_type_of (duty_discharged _ _ _) = "Policy.DutyDischarged"
event_type_of (assigned _ _) = "Policy.Assigned"
event_type_of other = ""

-- The fields of a Policy beside its entity.
pub record Policy : Type 0 where
  pub name : String
  pub policy_type : String
  pub active : Bool
  pub created_at : ℕ

-- The default of an empty policy type.
abbrev pub policy_type_or_set : String → String
policy_type_or_set policy_type = if policy_type == "" then "odrl:Set" else policy_type

abbrev pub policy_checks : String → String → List (Bool × String)
policy_checks id name =
    (id == "", "policy ID cannot be empty") ∷ (name == "", "policy name cannot be empty") ∷ []

-- With: `created_at` is the time that the policy gets and `at` the one that its event gets.
unfoldable pub with_policy :
    String → String → String → ℕ → ℕ → Policy → Decision PolicyPayload Policy
with_policy id name policy_type created_at at p =
    let kind = policy_type_or_set policy_type in
    require (policy_checks id name) (
      emit (created name kind at)
        (record { name = name; policy_type = kind; active = true; created_at = created_at }))

-- Restore, with the values of the database in `stored`.
unfoldable pub restore_policy :
    String
    → Policy
    → Aggregate PolicyPayload Policy
    → Aggregate PolicyPayload Policy × Option Failure
unfolding restore
restore_policy id stored a =
    restore id
      (if id == ""
        then some "id cannot be empty"
        else if stored.name == ""
        then some "policy name cannot be empty"
        else none)
      stored a

-- Activate
unfoldable pub activate : ℕ → Policy → Decision PolicyPayload Policy
activate at p = if p.active then keep else emit (activated at) (record p { active = true })

-- Deactivate
unfoldable pub deactivate : ℕ → Policy → Decision PolicyPayload Policy
deactivate at p = if not p.active then keep else emit (deactivated at) (record p { active = false })

abbrev pub triple : String → String → String → BasicTripleEvent
triple subject predicate object = record {
  subject = subject;
  predicate = predicate;
  object = object;
  original = pos 0;
}

abbrev pub rule_checks : String → String → String → List (Bool × String)
rule_checks assignee action target =
    (assignee == "", "assignee cannot be empty")
    ∷ (action == "", "action cannot be empty")
    ∷ (target == "", "target cannot be empty")
    ∷ []

-- GrantPermission
unfoldable pub grant_permission :
    String → String → String → ℕ → Policy → Decision PolicyPayload Policy
grant_permission assignee action target at p =
    require (rule_checks assignee action target)
      (emit (permission_granted (triple assignee "odrl:permission" target) action at) p)

-- RevokePermission
unfoldable pub revoke_permission :
    String → String → String → ℕ → Policy → Decision PolicyPayload Policy
revoke_permission assignee action target at p =
    require (rule_checks assignee action target)
      (emit (permission_revoked (triple assignee "odrl:permission" target) action at) p)

-- SetProhibition
unfoldable pub set_prohibition :
    String → String → String → ℕ → Policy → Decision PolicyPayload Policy
set_prohibition assignee action target at p =
    require (rule_checks assignee action target)
      (emit (prohibition_set (triple assignee "odrl:prohibition" target) action at) p)

-- RevokeProhibition
unfoldable pub revoke_prohibition :
    String → String → String → ℕ → Policy → Decision PolicyPayload Policy
revoke_prohibition assignee action target at p =
    require (rule_checks assignee action target)
      (emit (prohibition_revoked (triple assignee "odrl:prohibition" target) action at) p)

-- ImposeDuty
unfoldable pub impose_duty : String → String → String → ℕ → Policy → Decision PolicyPayload Policy
impose_duty assignee action target at p =
    require (rule_checks assignee action target)
      (emit (duty_imposed (triple assignee "odrl:duty" target) action at) p)

-- DischargeDuty
unfoldable pub discharge_duty :
    String → String → String → ℕ → Policy → Decision PolicyPayload Policy
discharge_duty assignee action target at p =
    require (rule_checks assignee action target)
      (emit (duty_discharged (triple assignee "odrl:duty" target) action at) p)

-- Assign, on the policy with the id `id`.
unfoldable pub assign : String → ℕ → String → Policy → Decision PolicyPayload Policy
assign assignee_id at id p =
    require ((assignee_id == "", "assignee ID cannot be empty") ∷ [])
      (emit (assigned (triple id "odrl:assignee" assignee_id) at) p)

-- The type switch of ApplyEvent.
unfoldable pub evolve : PolicyPayload → Policy → Option Policy
evolve (created name policy_type at) p =
    some (record { name = name; policy_type = policy_type; active = true; created_at = at })
evolve (activated at) p = some (record p { active = true })
evolve (deactivated at) p = some (record p { active = false })
evolve (permission_granted _ _ _) p = some p
evolve (permission_revoked _ _ _) p = some p
evolve (prohibition_set _ _ _) p = some p
evolve (prohibition_revoked _ _ _) p = some p
evolve (duty_imposed _ _ _) p = some p
evolve (duty_discharged _ _ _) p = some p
evolve (assigned _ _) p = some p
evolve other p = none
