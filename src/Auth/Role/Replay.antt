-- ===== src/Auth/Role/Replay.antt =====
-- A Role rebuilt from its events (role.go).
use pericarp.Prelude.{String, refl, ℕ}
use pericarp.Entity.{new_base_entity}
use pericarp.Auth.Aggregate.{Aggregate, emit, create}
use pericarp.Auth.Aggregate.Replay.{
  IsRebuilt, IsCarried, IsCarried-require, create-decision-IsRebuilt,
}
use pericarp.Auth.Role.{Role, RolePayload, created, event_type_of, with_role, evolve, role_checks}

-- Its event has a time of its own.
abbrev pub untimed : Role → Role
untimed r = record r { created_at = 0 }

abbrev pub blank : Role
blank = record { name = ""; description = ""; created_at = 0 }

with_role-IsCarried :
    (id name description : String) (created_at at : ℕ)
    → IsCarried evolve untimed blank (with_role id name description created_at at blank)
unfolding with_role evolve
with_role-IsCarried id name description created_at at =
    IsCarried-require evolve untimed (role_checks id name) blank
      (emit (created name description at)
        (record { name = name; description = description; created_at = created_at }))
      (λ r same. (record { name = name; description = description; created_at = at }, refl, refl))

-- Whatever With answers, the event that a Role recorded, if any, is accepted by ApplyEvent on an
-- empty one, and rebuilds its entity and all of its fields but the time.
pub role-IsRebuilt :
    (id name description : String) (created_at at : ℕ) (event_id : String) (now : ℕ)
    → let start : Aggregate RolePayload Role = record {
      base = new_base_entity id;
      state = blank;
    } in
      IsRebuilt evolve untimed start
        (create event_type_of id
          (with_role id name description created_at at blank)
          event_id
          now
          start).0
role-IsRebuilt id name description created_at at event_id now =
    create-decision-IsRebuilt evolve untimed event_type_of id
      (with_role id name description created_at at blank) blank event_id now
      (with_role-IsCarried id name description created_at at)
