-- ===== src/Auth/Account/Replay.antt =====
-- An Account rebuilt from its events (account.go).
use pericarp.Prelude.{String, ◌==◌, true, false, not, refl, ℕ, List, [], ◌∷◌, arith}
use pericarp.Entity.{new_base_entity}
use pericarp.Auth.Aggregate.{Aggregate, Decision, keep, emit, create}
use pericarp.Auth.Aggregate.Replay.{
  IsRebuilt, IsCarried, IsCarried-if, IsCarried-require, Call, run, AllFresh, create-IsRebuilt,
}
use pericarp.Auth.Account.{
  Account, AccountPayload, created, activated, deactivated, member_added, member_removed,
  member_role_changed, event_type_of, with_account, activate, deactivate, add_member, remove_member,
  change_member_role, evolve, account_checks, member_checks, member,
}

-- Its event has a time of its own.
abbrev pub untimed : Account → Account
untimed a = record a { created_at = 0 }

pub data Method : Type 0 where
  activate_call deactivate_call : ℕ → Method
  add_member_call change_member_role_call : String → String → ℕ → Method
  remove_member_call : String → ℕ → Method

unfoldable pub act : Method → String → Account → Decision AccountPayload Account
unfolding activate deactivate add_member remove_member change_member_role
act (activate_call at) id a = activate at a
act (deactivate_call at) id a = deactivate at a
act (add_member_call agent_id role_id at) id a = add_member agent_id role_id at id a
act (change_member_role_call agent_id role_id at) id a = change_member_role agent_id role_id at id a
act (remove_member_call agent_id at) id a = remove_member agent_id at id a

act-IsCarried : (m : Method) (id : String) (a : Account) → IsCarried evolve untimed a (act m id a)
unfolding act evolve
act-IsCarried (activate_call at) id a =
    IsCarried-if evolve untimed a.active a keep (emit (activated at) (record a { active = true }))
      tt (λ r same. (record r { active = true }, refl, ground arith))
act-IsCarried (deactivate_call at) id a =
    IsCarried-if evolve untimed (not a.active) a keep
      (emit (deactivated at) (record a { active = false })) tt
      (λ r same. (record r { active = false }, refl, ground arith))
act-IsCarried (add_member_call agent_id role_id at) id a =
    IsCarried-require evolve untimed (member_checks agent_id role_id) a
      (emit (member_added (member "org:hasMember" id agent_id) role_id at) a)
      (λ r same. (r, refl, same))
act-IsCarried (change_member_role_call agent_id role_id at) id a =
    IsCarried-require evolve untimed (member_checks agent_id role_id) a
      (emit (member_role_changed (member "org:hasMember" id agent_id) role_id at) a)
      (λ r same. (r, refl, same))
act-IsCarried (remove_member_call agent_id at) id a =
    IsCarried-require evolve untimed ((agent_id == "", "agent ID cannot be empty") ∷ []) a
      (emit (member_removed (member "org:hadMember" id agent_id) at) a) (λ r same. (r, refl, same))

abbrev pub blank : Account
blank = record { name = ""; account_type = ""; active = false; created_at = 0 }

with_account-IsCarried :
    (id name account_type : String) (created_at at : ℕ)
    → IsCarried evolve untimed blank (with_account id name account_type created_at at blank)
unfolding with_account evolve
with_account-IsCarried id name account_type created_at at =
    IsCarried-require evolve untimed (account_checks id name account_type) blank
      (emit (created name account_type at) (record {
        name = name;
        account_type = account_type;
        active = true;
        created_at = created_at;
      }))
      (λ r same. (
        record { name = name; account_type = account_type; active = true; created_at = at },
        refl,
        refl,
      ))

-- Whatever With and the calls behind it answer, if each call draws a new event id, then the events
-- that an Account recorded are all accepted by ApplyEvent on an empty one, and rebuild its entity
-- and all of its fields but the time.
pub account-IsRebuilt :
    (id name account_type : String) (created_at at : ℕ) (event_id : String) (now : ℕ)
    (cs : List (Call Method))
    → let start : Aggregate AccountPayload Account = record {
      base = new_base_entity id;
      state = blank;
    } in
      let made =
        (create event_type_of id
          (with_account id name account_type created_at at blank)
          event_id
          now
          start).0 in
      AllFresh event_type_of act cs made
      → IsRebuilt evolve untimed start (run event_type_of act cs made)
account-IsRebuilt id name account_type created_at at event_id now cs =
    create-IsRebuilt event_type_of act evolve untimed act-IsCarried id
      (with_account id name account_type created_at at blank) blank event_id now cs
      (with_account-IsCarried id name account_type created_at at)
