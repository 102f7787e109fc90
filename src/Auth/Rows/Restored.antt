-- ===== src/Auth/Rows/Restored.antt =====
-- An entity that is saved and loaded again (pkg/auth/infrastructure/models).
use pericarp.Prelude.{eq_false, ◌≡◌, ◌≢◌, refl, none}
use pericarp.Entity.{new_base_entity}
use pericarp.Auth.Aggregate.{Aggregate, restore}
use pericarp.Auth.Credential.{Credential, CredentialPayload, restore_credential}
use pericarp.Auth.PasswordCredential.{PasswordCredential, PasswordPayload, restore_password}
use pericarp.Auth.Rows.{
  credential_to_entity, credential_from_entity, password_to_entity, password_from_entity,
}

-- A PasswordCredential that has an id and a credential id is loaded from its row with all of its
-- fields, its hash, its salt and its last verification among them, on a new entity of the same id.
pub password-restored :
    (e : Aggregate PasswordPayload PasswordCredential)
    → e.base.aggregate_id ≢ ""
    → e.state.credential_id ≢ ""
    → password_to_entity (password_from_entity e)
      ≡ (record { base = new_base_entity e.base.aggregate_id; state = e.state }, none)
unfolding password_to_entity restore_password restore
password-restored e has_id has_parent =
    rw
      (
        eq_false e.base.aggregate_id "" has_id,
        eq_false e.state.credential_id "" has_parent,
        password_to_entity,
        restore_password,
      )
      refl

-- A Credential that has an id and an agent id is loaded from its row with all of its fields, on a new
-- entity of the same id.
pub credential-restored :
    (e : Aggregate CredentialPayload Credential)
    → e.base.aggregate_id ≢ ""
    → e.state.agent_id ≢ ""
    → credential_to_entity (credential_from_entity e)
      ≡ (record { base = new_base_entity e.base.aggregate_id; state = e.state }, none)
unfolding credential_to_entity restore_credential restore
credential-restored e has_id has_agent =
    rw
      (
        eq_false e.base.aggregate_id "" has_id,
        eq_false e.state.agent_id "" has_agent,
        credential_to_entity,
        restore_credential,
      )
      refl
