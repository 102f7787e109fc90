-- ===== src/Auth/Agent/Replay.antt =====
-- An Agent rebuilt from its events (agent.go).
use pericarp.Prelude.{String, ◌==◌, ◌≡◌, refl, ℕ, some, if◌then◌else◌, List, [], ◌∷◌, arith}
use pericarp.Entity.{new_base_entity}
use pericarp.Auth.Aggregate.{Aggregate, Decision, require, keep, emit, create}
use pericarp.Auth.Aggregate.Replay.{
  IsRebuilt, IsCarried, IsCarried-if, IsCarried-require, Call, run, AllFresh, create-IsRebuilt,
}
use pericarp.Auth.Agent.{
  Agent, AgentPayload, created, invited, name_updated, activated, deactivated, role_assigned,
  role_revoked, group_membership_added, group_membership_removed, event_type_of, with_agent,
  with_invited, activate, deactivate, update_name, assign_role, revoke_role, add_to_group,
  remove_from_group, evolve, agent_checks, invite_checks, triple, agent_type_or_person,
}

-- Its event has a time of its own.
abbrev pub untimed : Agent → Agent
untimed a = record a { created_at = 0 }

pub data Method : Type 0 where
  activate_call deactivate_call : ℕ → Method
  update_name_call assign_role_call revoke_role_call add_to_group_call remove_from_group_call :
      String → ℕ → Method

unfoldable pub act : Method → String → Agent → Decision AgentPayload Agent
unfolding activate deactivate update_name assign_role revoke_role add_to_group remove_from_group
act (activate_call at) id a = activate at a
act (deactivate_call at) id a = deactivate at a
act (update_name_call name at) id a = update_name name at a
act (assign_role_call role_id at) id a = assign_role role_id at id a
act (revoke_role_call role_id at) id a = revoke_role role_id at id a
act (add_to_group_call group_id at) id a = add_to_group group_id at id a
act (remove_from_group_call group_id at) id a = remove_from_group group_id at id a

-- An event that changes no field.
triple-IsCarried :
    (name error : String) (a : Agent) (payload : AgentPayload)
    → ((r : Agent) → evolve payload r ≡ some r)
    → IsCarried evolve untimed a (require ((name == "", error) ∷ []) (emit payload a))
triple-IsCarried name error a payload same =
    IsCarried-require evolve untimed ((name == "", error) ∷ []) a (emit payload a)
      (λ r seen. (r, same r, seen))

act-IsCarried : (m : Method) (id : String) (a : Agent) → IsCarried evolve untimed a (act m id a)
unfolding act evolve
act-IsCarried (activate_call at) id a =
    IsCarried-if evolve untimed (a.status == "active") a keep
      (emit (activated at) (record a { status = "active" })) tt
      (λ r same. (record r { status = "active" }, refl, ground arith))
act-IsCarried (deactivate_call at) id a =
    IsCarried-if evolve untimed (a.status == "deactivated") a keep
      (emit (deactivated at) (record a { status = "deactivated" })) tt
      (λ r same. (record r { status = "deactivated" }, refl, ground arith))
act-IsCarried (update_name_call name at) id a =
    let update : Decision AgentPayload Agent =
      emit (name_updated name at) (record a { name = name }) in
    IsCarried-require evolve untimed ((name == "", "agent name cannot be empty") ∷ []) a
      (if a.name == name then keep else update)
      (IsCarried-if evolve untimed (a.name == name) a keep update tt
        (λ r same. (record r { name = name }, refl, ground arith)))
act-IsCarried (assign_role_call role_id at) id a =
    triple-IsCarried role_id "role ID cannot be empty" a
      (role_assigned (triple id "org:hasRole" role_id) at) (λ r. refl)
act-IsCarried (revoke_role_call role_id at) id a =
    triple-IsCarried role_id "role ID cannot be empty" a
      (role_revoked (triple id "org:hadRole" role_id) at) (λ r. refl)
act-IsCarried (add_to_group_call group_id at) id a =
    triple-IsCarried group_id "group ID cannot be empty" a
      (group_membership_added (triple id "foaf:member" group_id) at) (λ r. refl)
act-IsCarried (remove_from_group_call group_id at) id a =
    triple-IsCarried group_id "group ID cannot be empty" a
      (group_membership_removed (triple id "foaf:member" group_id) at) (λ r. refl)

abbrev pub blank : Agent
blank = record { name = ""; agent_type = ""; status = ""; created_at = 0 }

-- The two ways to make an agent, by name and type or by the email of an invite.
pub data Creation : Type 0 where
  by_name : String → String → Creation
  by_invite : String → Creation

unfoldable pub decide_creation : Creation → String → ℕ → ℕ → Decision AgentPayload Agent
unfolding with_agent with_invited
decide_creation (by_name name agent_type) id created_at at =
    with_agent id name agent_type created_at at blank
decide_creation (by_invite email) id created_at at = with_invited id email created_at at blank

creation-IsCarried :
    (c : Creation) (id : String) (created_at at : ℕ)
    → IsCarried evolve untimed blank (decide_creation c id created_at at)
unfolding decide_creation evolve
creation-IsCarried (by_name name agent_type) id created_at at =
    let kind = agent_type_or_person agent_type in
    IsCarried-require evolve untimed (agent_checks id name) blank
      (emit (created name kind at)
        (record { name = name; agent_type = kind; status = "active"; created_at = created_at }))
      (λ r same.
        (record { name = name; agent_type = kind; status = "active"; created_at = at }, refl, refl))
creation-IsCarried (by_invite email) id created_at at =
    IsCarried-require evolve untimed (invite_checks id email) blank
      (emit (invited email at) (record {
        name = email;
        agent_type = "foaf:Person";
        status = "invited";
        created_at = created_at;
      }))
      (λ r same. (
        record { name = email; agent_type = "foaf:Person"; status = "invited"; created_at = at },
        refl,
        refl,
      ))

-- Whatever With or WithInvite and the calls behind it answer, if each call draws a new event id,
-- then the events that an Agent recorded are all accepted by ApplyEvent on an empty one, and
-- rebuild its entity and all of its fields but the time.
pub agent-IsRebuilt :
    (c : Creation) (id : String) (created_at at : ℕ) (event_id : String) (now : ℕ)
    (cs : List (Call Method))
    → let start : Aggregate AgentPayload Agent = record {
      base = new_base_entity id;
      state = blank;
    } in
      let made =
        (create event_type_of id (decide_creation c id created_at at) event_id now start).0 in
      AllFresh event_type_of act cs made
      → IsRebuilt evolve untimed start (run event_type_of act cs made)
agent-IsRebuilt c id created_at at event_id now cs =
    create-IsRebuilt event_type_of act evolve untimed act-IsCarried id
      (decide_creation c id created_at at) blank event_id now cs
      (creation-IsCarried c id created_at at)
