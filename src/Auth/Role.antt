-- ===== src/Auth/Role.antt =====
-- pkg/auth/domain/entities/role.go and role_events.go: the Role aggregate, which has no method
-- beside With, Restore and ApplyEvent. The getters are the fields.
pub mod Replay
use pericarp.Prelude.{String, ◌==◌, Bool, ℕ, Option, none, some, List, [], ◌∷◌, if◌then◌else◌}
use pericarp.Auth.Aggregate.{Aggregate, Decision, require, emit, Failure, restore}

-- The payloads that the type switch of ApplyEvent tells apart; `other` is any other type.
pub data RolePayload : Type 0 where
  created : String → String → ℕ → RolePayload
  other : RolePayload

unfoldable pub event_type_of : RolePayload → String
event_type_of (created _ _ _) = "Role.Created"
event_type_of other = ""

-- The fields of a Role beside its entity.
pub record Role : Type 0 where
  pub name : String
  pub description : String
  pub created_at : ℕ

abbrev pub role_checks : String → String → List (Bool × String)
role_checks id name =
    (id == "", "role ID cannot be empty") ∷ (name == "", "role name cannot be empty") ∷ []

-- With: `created_at` is the time that the role gets and `at` the one that its event gets.
unfoldable pub with_role : String → String → String → ℕ → ℕ → Role → Decision RolePayload Role
with_role id name description created_at at r = require (role_checks id name) (
    emit (created name description at)
      (record { name = name; description = description; created_at = created_at }))

-- Restore, with the values of the database in `stored`.
unfoldable pub restore_role :
    String → Role → Aggregate RolePayload Role → Aggregate RolePayload Role × Option Failure
unfolding restore
restore_role id stored a =
    restore id
      (if id == ""
        then some "id cannot be empty"
        else if stored.name == ""
        then some "role name cannot be empty"
        else none)
      stored a

-- The type switch of ApplyEvent.
unfoldable pub evolve : RolePayload → Role → Option Role
evolve (created name description at) r =
    some (record { name = name; description = description; created_at = at })
evolve other r = none
