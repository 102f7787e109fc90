-- ===== src/Auth/Credential.antt =====
-- pkg/auth/domain/entities/credential.go and credential_events.go: the Credential aggregate. Each
-- call of time.Now() is an argument; the getters are the fields.
pub mod Replay
use pericarp.Prelude.{
  String, ◌==◌, Bool, true, false, not, ℕ, Option, none, some, List, [], ◌∷◌, if◌then◌else◌,
}
use pericarp.Auth.Aggregate.{Aggregate, Decision, require, keep, emit, Failure, restore}

pub record CredentialCreated : Type 0 where
  pub subject : String
  pub predicate : String
  pub object : String
  pub provider : String
  pub provider_user_id : String
  pub email : String
  pub display_name : String
  pub timestamp : ℕ

-- The payloads that the type switch of ApplyEvent tells apart; `other` is any other type.
pub data CredentialPayload : Type 0 where
  created : CredentialCreated → CredentialPayload
  used deactivated reactivated : ℕ → CredentialPayload
  other : CredentialPayload

unfoldable pub event_type_of : CredentialPayload → String
event_type_of (created _) = "Credential.Created"
event_type_of (used _) = "Credential.Used"
event_type_of (deactivated _) = "Credential.Deactivated"
event_type_of (reactivated _) = "Credential.Reactivated"
event_type_of other = ""

-- The fields of a Credential beside its entity.
pub record Credential : Type 0 where
  pub agent_id : String
  pub provider : String
  pub provider_user_id : String
  pub email : String
  pub display_name : String
  pub active : Bool
  pub created_at : ℕ
  pub last_used_at : ℕ

-- CredentialCreated.With
abbrev pub credential_created :
    String → String → String → String → String → String → ℕ → CredentialCreated
credential_created agent_id id provider provider_user_id email display_name at = record {
  subject = agent_id;
  predicate = "schema:credential";
  object = id;
  provider = provider;
  provider_user_id = provider_user_id;
  email = email;
  display_name = display_name;
  timestamp = at;
}

-- The fields that With and the replay of its event set.
abbrev pub set_created : CredentialCreated → Credential → Credential
set_created e c = record c {
  agent_id = e.subject;
  provider = e.provider;
  provider_user_id = e.provider_user_id;
  email = e.email;
  display_name = e.display_name;
  active = true;
  created_at = e.timestamp;
}

abbrev pub credential_checks : String → CredentialCreated → List (Bool × String)
credential_checks id e =
    (id == "", "credential ID cannot be empty")
    ∷ (e.subject == "", "agent ID cannot be empty")
    ∷ (e.provider == "", "provider cannot be empty")
    ∷ (e.provider_user_id == "", "provider user ID cannot be empty")
    ∷ []

-- With: `created_at` is the time that the credential gets and `at` the one that its event gets.
unfoldable pub with_credential :
    String
    → String
    → String
    → String
    → String
    → String
    → ℕ
    → ℕ
    → Credential
    → Decision CredentialPayload Credential
with_credential id agent_id provider provider_user_id email display_name created_at at c =
    let e = credential_created agent_id id provider provider_user_id email display_name at in
    require (credential_checks id e)
      (emit (created e) (record (set_created e c) { created_at = created_at }))

-- Restore, with the values of the database in `stored`.
unfoldable pub restore_credential :
    String
    → Credential
    → Aggregate CredentialPayload Credential
    → Aggregate CredentialPayload Credential × Option Failure
unfolding restore
restore_credential id stored a =
    restore id
      (if id == ""
        then some "id cannot be empty"
        else if stored.agent_id == ""
        then some "agent ID cannot be empty"
        else none)
      stored a

-- MarkUsed: `used_at` is the time that the credential gets.
unfoldable pub mark_used : ℕ → ℕ → Credential → Decision CredentialPayload Credential
mark_used used_at at c = emit (used at) (record c { last_used_at = used_at })

-- Deactivate
unfoldable pub deactivate : ℕ → Credential → Decision CredentialPayload Credential
deactivate at c = if not c.active then keep else emit (deactivated at) (record c { active = false })

-- Reactivate
unfoldable pub reactivate : ℕ → Credential → Decision CredentialPayload Credential
reactivate at c = if c.active then keep else emit (reactivated at) (record c { active = true })

-- The type switch of ApplyEvent.
unfoldable pub evolve : CredentialPayload → Credential → Option Credential
evolve (created e) c = some (set_created e c)
evolve (used at) c = some (record c { last_used_at = at })
evolve (deactivated at) c = some (record c { active = false })
evolve (reactivated at) c = some (record c { active = true })
evolve other c = none
