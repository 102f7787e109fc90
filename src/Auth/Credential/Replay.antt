-- ===== src/Auth/Credential/Replay.antt =====
-- A Credential rebuilt from its events (credential.go).
use pericarp.Prelude.{String, true, false, not, refl, ℕ, List, arith}
use pericarp.Entity.{new_base_entity}
use pericarp.Auth.Aggregate.{Aggregate, Decision, keep, emit, create}
use pericarp.Auth.Aggregate.Replay.{
  IsRebuilt, IsCarried, IsCarried-if, IsCarried-require, Call, run, AllFresh, create-IsRebuilt,
}
use pericarp.Auth.Credential.{
  Credential, CredentialPayload, event_type_of, with_credential, mark_used, deactivate, reactivate,
  evolve, deactivated, reactivated, created, credential_created, set_created, credential_checks,
}

-- The events have times of their own.
abbrev pub untimed : Credential → Credential
untimed c = record c { created_at = 0; last_used_at = 0 }

pub data Method : Type 0 where
  mark_used_call : ℕ → ℕ → Method
  deactivate_call reactivate_call : ℕ → Method

unfoldable pub act : Method → String → Credential → Decision CredentialPayload Credential
unfolding mark_used deactivate reactivate
act (mark_used_call used_at at) id c = mark_used used_at at c
act (deactivate_call at) id c = deactivate at c
act (reactivate_call at) id c = reactivate at c

act-IsCarried :
    (m : Method) (id : String) (c : Credential) → IsCarried evolve untimed c (act m id c)
unfolding act evolve
act-IsCarried (mark_used_call used_at at) id c =
    λ r same. (record r { last_used_at = at }, refl, same)
act-IsCarried (deactivate_call at) id c =
    IsCarried-if evolve untimed (not c.active) c keep
      (emit (deactivated at) (record c { active = false })) tt
      (λ r same. (record r { active = false }, refl, ground arith))
act-IsCarried (reactivate_call at) id c =
    IsCarried-if evolve untimed c.active c keep (emit (reactivated at) (record c { active = true }))
      tt (λ r same. (record r { active = true }, refl, ground arith))

abbrev pub blank : Credential
blank = record {
  agent_id = "";
  provider = "";
  provider_user_id = "";
  email = "";
  display_name = "";
  active = false;
  created_at = 0;
  last_used_at = 0;
}

with_credential-IsCarried :
    (id agent_id provider provider_user_id email display_name : String) (created_at at : ℕ)
    → IsCarried evolve untimed blank (
        with_credential id agent_id provider provider_user_id email display_name created_at at
          blank)
unfolding with_credential evolve
with_credential-IsCarried id agent_id provider provider_user_id email display_name created_at at =
    let e = credential_created agent_id id provider provider_user_id email display_name at in
    IsCarried-require evolve untimed (credential_checks id e) blank
      (emit (created e) (record (set_created e blank) { created_at = created_at }))
      (λ r same. (set_created e r, refl, ground arith))

-- Whatever With and the calls behind it answer, if each call draws a new event id, then the events
-- that a Credential recorded are all accepted by ApplyEvent on an empty one, and rebuild its entity
-- and all of its fields but the times.
pub credential-IsRebuilt :
    (id agent_id provider provider_user_id email display_name : String) (created_at at : ℕ)
    (event_id : String) (now : ℕ) (cs : List (Call Method))
    → let start : Aggregate CredentialPayload Credential = record {
      base = new_base_entity id;
      state = blank;
    } in
      let made =
        (create event_type_of id
          (with_credential id agent_id provider provider_user_id email display_name created_at at
            blank)
          event_id
          now
          start).0 in
      AllFresh event_type_of act cs made
      → IsRebuilt evolve untimed start (run event_type_of act cs made)
credential-IsRebuilt id agent_id provider provider_user_id email display_name created_at at event_id
      now cs =
    create-IsRebuilt event_type_of act evolve untimed act-IsCarried id
      (with_credential id agent_id provider provider_user_id email display_name created_at at blank)
      blank event_id now cs
      (with_credential-IsCarried id agent_id provider provider_user_id email display_name created_at
        at)
