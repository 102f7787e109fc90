-- ===== src/Auth/Agent.antt =====
-- pkg/auth/domain/entities/agent.go and agent_events.go: the Agent aggregate. Each call of
-- time.Now() is an argument; the getters are the fields. Roles and groups are events only.
pub mod Replay
use pericarp.Prelude.{String, ◌==◌, Bool, ℕ, Option, none, some, List, [], ◌∷◌, if◌then◌else◌}
use pericarp.Prelude.Int.{pos}
use pericarp.Event.{BasicTripleEvent}
use pericarp.Auth.Aggregate.{Aggregate, Decision, require, keep, emit, Failure, restore}

-- The payloads that the type switch of ApplyEvent tells apart; `other` is any other type.
pub data AgentPayload : Type 0 where
  created : String → String → ℕ → AgentPayload
  invited name_updated : String → ℕ → AgentPayload
  activated deactivated : ℕ → AgentPayload
  role_assigned role_revoked : BasicTripleEvent → ℕ → AgentPayload
  group_membership_added group_membership_removed : BasicTripleEvent → ℕ → AgentPayload
  other : AgentPayload

unfoldable pub event_type_of : AgentPayload → String
event_type_of (created _ _ _) = "Agent.Created"
event_type_of (invited _ _) = "Agent.Invited"
event_type_of (name_updated _ _) = "Agent.NameUpdated"
event_type_of (activated _) = "Agent.Activated"
event_type_of (deactivated _) = "Agent.Deactivated"
event_type_of (role_assigned _ _) = "Agent.RoleAssigned"
event_type_of (role_revoked _ _) = "Agent.RoleRevoked"
event_type_of (group_membership_added _ _) = "Agent.GroupMembershipAdded"
event_type_of (group_membership_removed _ _) = "Agent.GroupMembershipRemoved"
event_type_of other = ""

-- The fields of an Agent beside its entity.
pub record Agent : Type 0 where
  pub name : String
  pub agent_type : String
  pub status : String
  pub created_at : ℕ

-- The default of an empty agent type.
abbrev pub agent_type_or_person : String → String
agent_type_or_person agent_type = if agent_type == "" then "foaf:Person" else agent_type

abbrev pub agent_checks : String → String → List (Bool × String)
agent_checks id name =
    (id == "", "agent ID cannot be empty") ∷ (name == "", "agent name cannot be empty") ∷ []

-- With: `created_at` is the time that the agent gets and `at` the one that its event gets.
unfoldable pub with_agent : String → String → String → ℕ → ℕ → Agent → Decision AgentPayload Agent
with_agent id name agent_type created_at at a =
    let kind = agent_type_or_person agent_type in
    require (agent_checks id name) (
      emit (created name kind at)
        (record { name = name; agent_type = kind; status = "active"; created_at = created_at }))

abbrev pub invite_checks : String → String → List (Bool × String)
invite_checks id email =
    (id == "", "agent ID cannot be empty") ∷ (email == "", "email cannot be empty") ∷ []

-- WithInvite
unfoldable pub with_invited : String → String → ℕ → ℕ → Agent → Decision AgentPayload Agent
with_invited id email created_at at a = require (invite_checks id email) (
    emit (invited email at) (record {
      name = email;
      agent_type = "foaf:Person";
      status = "invited";
      created_at = created_at;
    }))

-- Restore, with the values of the database in `stored`.
unfoldable pub restore_agent :
    String → Agent → Aggregate AgentPayload Agent → Aggregate AgentPayload Agent × Option Failure
unfolding restore
restore_agent id stored a =
    restore id
      (if id == ""
        then some "id cannot be empty"
        else if stored.name == ""
        then some "agent name cannot be empty"
        else none)
      stored a

-- Deactivate
unfoldable pub deactivate : ℕ → Agent → Decision AgentPayload Agent
deactivate at a =
    if a.status == "deactivated"
    then keep
    else emit (deactivated at) (record a { status = "deactivated" })

-- Activate
unfoldable pub activate : ℕ → Agent → Decision AgentPayload Agent
activate at a =
    if a.status == "active" then keep else emit (activated at) (record a { status = "active" })

-- UpdateName
unfoldable pub update_name : String → ℕ → Agent → Decision AgentPayload Agent
update_name name at a =
    require ((name == "", "agent name cannot be empty") ∷ [])
      (if a.name == name then keep else emit (name_updated name at) (record a { name = name }))

abbrev pub triple : String → String → String → BasicTripleEvent
triple subject predicate object = record {
  subject = subject;
  predicate = predicate;
  object = object;
  original = pos 0;
}

-- AssignRole, on the agent with the id `id`.
unfoldable pub assign_role : String → ℕ → String → Agent → Decision AgentPayload Agent
assign_role role_id at id a =
    require ((role_id == "", "role ID cannot be empty") ∷ [])
      (emit (role_assigned (triple id "org:hasRole" role_id) at) a)

-- RevokeRole
unfoldable pub revoke_role : String → ℕ → String → Agent → Decision AgentPayload Agent
revoke_role role_id at id a =
    require ((role_id == "", "role ID cannot be empty") ∷ [])
      (emit (role_revoked (triple id "org:hadRole" role_id) at) a)

-- AddToGroup
unfoldable pub add_to_group : String → ℕ → String → Agent → Decision AgentPayload Agent
add_to_group group_id at id a =
    require ((group_id == "", "group ID cannot be empty") ∷ [])
      (emit (group_membership_added (triple id "foaf:member" group_id) at) a)

-- RemoveFromGroup
unfoldable pub remove_from_group : String → ℕ → String → Agent → Decision AgentPayload Agent
remove_from_group group_id at id a =
    require ((group_id == "", "group ID cannot be empty") ∷ [])
      (emit (group_membership_removed (triple id "foaf:member" group_id) at) a)

-- The type switch of ApplyEvent.
unfoldable pub evolve : AgentPayload → Agent → Option Agent
evolve (created name agent_type at) a =
    some (record { name = name; agent_type = agent_type; status = "active"; created_at = at })
evolve (invited email at) a =
    some (record { name = email; agent_type = "foaf:Person"; status = "invited"; created_at = at })
evolve (name_updated name at) a = some (record a { name = name })
evolve (deactivated at) a = some (record a { status = "deactivated" })
evolve (activated at) a = some (record a { status = "active" })
evolve (role_assigned _ _) a = some a
evolve (role_revoked _ _) a = some a
evolve (group_membership_added _ _) a = some a
evolve (group_membership_removed _ _) a = some a
evolve other a = none
