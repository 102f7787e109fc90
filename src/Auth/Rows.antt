-- ===== src/Auth/Rows.antt =====
-- The rows of pkg/auth/infrastructure/models (account.go, agent.go, credential.go and
-- password_credential.go), with ToEntity and the FromEntity functions.
pub mod Restored
use pericarp.Prelude.{String, Bool, false, ℕ, Option}
use pericarp.Entity.{new_base_entity}
use pericarp.Auth.Aggregate.{Aggregate, Failure}
use pericarp.Auth.Account.{Account, AccountPayload, restore_account}
use pericarp.Auth.Agent.{Agent, AgentPayload, restore_agent}
use pericarp.Auth.Credential.{Credential, CredentialPayload, restore_credential}
use pericarp.Auth.PasswordCredential.{PasswordCredential, PasswordPayload, restore_password}
use pericarp.Auth.Account.Replay as Accounts
use pericarp.Auth.Agent.Replay as Agents
use pericarp.Auth.Credential.Replay as Credentials
use pericarp.Auth.PasswordCredential.Replay as Passwords

pub record AccountModel : Type 0 where
  pub id : String
  pub name : String
  pub account_type : String
  pub active : Bool
  pub created_at : ℕ

-- ToEntity
unfoldable pub account_to_entity : AccountModel → Aggregate AccountPayload Account × Option Failure
unfolding restore_account
account_to_entity m =
    restore_account m.id
      (record {
        name = m.name;
        account_type = m.account_type;
        active = m.active;
        created_at = m.created_at;
      })
      (record { base = new_base_entity ""; state = Accounts.blank })

-- AccountModelFromEntity
abbrev pub account_from_entity : Aggregate AccountPayload Account → AccountModel
account_from_entity e = record {
  id = e.base.aggregate_id;
  name = e.state.name;
  account_type = e.state.account_type;
  active = e.state.active;
  created_at = e.state.created_at;
}

pub record AgentModel : Type 0 where
  pub id : String
  pub name : String
  pub agent_type : String
  pub status : String
  pub created_at : ℕ

-- ToEntity
unfoldable pub agent_to_entity : AgentModel → Aggregate AgentPayload Agent × Option Failure
unfolding restore_agent
agent_to_entity m =
    restore_agent m.id
      (record {
        name = m.name;
        agent_type = m.agent_type;
        status = m.status;
        created_at = m.created_at;
      })
      (record { base = new_base_entity ""; state = Agents.blank })

-- AgentModelFromEntity
abbrev pub agent_from_entity : Aggregate AgentPayload Agent → AgentModel
agent_from_entity e = record {
  id = e.base.aggregate_id;
  name = e.state.name;
  agent_type = e.state.agent_type;
  status = e.state.status;
  created_at = e.state.created_at;
}

pub record CredentialModel : Type 0 where
  pub id : String
  pub agent_id : String
  pub provider : String
  pub provider_user_id : String
  pub email : String
  pub display_name : String
  pub active : Bool
  pub created_at : ℕ
  pub last_used_at : ℕ

-- ToEntity
unfoldable pub credential_to_entity :
    CredentialModel → Aggregate CredentialPayload Credential × Option Failure
unfolding restore_credential
credential_to_entity m =
    restore_credential m.id
      (record {
        agent_id = m.agent_id;
        provider = m.provider;
        provider_user_id = m.provider_user_id;
        email = m.email;
        display_name = m.display_name;
        active = m.active;
        created_at = m.created_at;
        last_used_at = m.last_used_at;
      })
      (record { base = new_base_entity ""; state = Credentials.blank })

-- CredentialModelFromEntity
abbrev pub credential_from_entity : Aggregate CredentialPayload Credential → CredentialModel
credential_from_entity e = record {
  id = e.base.aggregate_id;
  agent_id = e.state.agent_id;
  provider = e.state.provider;
  provider_user_id = e.state.provider_user_id;
  email = e.state.email;
  display_name = e.state.display_name;
  active = e.state.active;
  created_at = e.state.created_at;
  last_used_at = e.state.last_used_at;
}

pub record PasswordCredentialModel : Type 0 where
  pub id : String
  pub credential_id : String
  pub algorithm : String
  pub hash : String
  pub salt : String
  pub created_at : ℕ
  pub rotated_at : ℕ
  pub last_verified_at : ℕ

-- ToEntity
unfoldable pub password_to_entity :
    PasswordCredentialModel → Aggregate PasswordPayload PasswordCredential × Option Failure
unfolding restore_password
password_to_entity m =
    restore_password m.id
      (record {
        credential_id = m.credential_id;
        algorithm = m.algorithm;
        hash = m.hash;
        salt = m.salt;
        created_at = m.created_at;
        updated_at = m.rotated_at;
        last_verified_at = m.last_verified_at;
      })
      (record { base = new_base_entity ""; state = Passwords.blank })

-- PasswordCredentialModelFromEntity
abbrev pub password_from_entity :
    Aggregate PasswordPayload PasswordCredential → PasswordCredentialModel
password_from_entity e = record {
  id = e.base.aggregate_id;
  credential_id = e.state.credential_id;
  algorithm = e.state.algorithm;
  hash = e.state.hash;
  salt = e.state.salt;
  created_at = e.state.created_at;
  rotated_at = e.state.updated_at;
  last_verified_at = e.state.last_verified_at;
}
