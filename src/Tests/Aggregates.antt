-- ===== src/Tests/Aggregates.antt =====
-- The replay of each aggregate behind concrete calls.
use pericarp.Prelude.{refl, List, [], ◌∷◌}
use pericarp.Entity.{new_base_entity}
use pericarp.Auth.Aggregate.{Aggregate, create}
use pericarp.Auth.Aggregate.Replay.{Call, IsRebuilt, run}
use pericarp.Auth.Credential
use pericarp.Auth.Account
use pericarp.Auth.Agent
use pericarp.Auth.Policy
use pericarp.Auth.PasswordCredential

abbrev empty_credential : Aggregate Credential.CredentialPayload Credential.Credential
empty_credential = record { base = new_base_entity "c1"; state = Credential.Replay.blank }

abbrev credential_calls : List (Call Credential.Replay.Method)
credential_calls =
    record { method = Credential.Replay.mark_used_call 20 21; event_id = "e2"; now = 20 }
    ∷ record { method = Credential.Replay.deactivate_call 30; event_id = "e3"; now = 30 }
    ∷ []

credential-IsRebuilt_example :
    IsRebuilt Credential.evolve Credential.Replay.untimed empty_credential (
      run Credential.event_type_of Credential.Replay.act credential_calls
        (create Credential.event_type_of "c1"
          (Credential.with_credential "c1" "ann" "google" "u1" "ann@example.org" "Ann" 9 10
            Credential.Replay.blank)
          "e1"
          10
          empty_credential).0)
unfolding Credential.with_credential Credential.Replay.act Credential.event_type_of create
credential-IsRebuilt_example =
    Credential.Replay.credential-IsRebuilt "c1" "ann" "google" "u1" "ann@example.org" "Ann" 9 10
      "e1" 10 credential_calls (refl, (refl, tt))

abbrev empty_account : Aggregate Account.AccountPayload Account.Account
empty_account = record { base = new_base_entity "acc"; state = Account.Replay.blank }

abbrev account_calls : List (Call Account.Replay.Method)
account_calls =
    record { method = Account.Replay.add_member_call "ann" "owner" 20; event_id = "e2"; now = 20 }
    ∷ record { method = Account.Replay.deactivate_call 30; event_id = "e3"; now = 30 }
    ∷ []

abbrev empty_agent : Aggregate Agent.AgentPayload Agent.Agent
empty_agent = record { base = new_base_entity "ann"; state = Agent.Replay.blank }

abbrev agent_calls : List (Call Agent.Replay.Method)
agent_calls =
    record { method = Agent.Replay.activate_call 20; event_id = "e2"; now = 20 }
    ∷ record { method = Agent.Replay.update_name_call "Ann" 30; event_id = "e3"; now = 30 }
    ∷ []

agent-IsRebuilt_example : IsRebuilt Agent.evolve Agent.Replay.untimed empty_agent (
    run Agent.event_type_of Agent.Replay.act agent_calls
      (create Agent.event_type_of "ann"
        (Agent.Replay.decide_creation (Agent.Replay.by_invite "ann@example.org") "ann" 9 10)
        "e1"
        10
        empty_agent).0)
unfolding Agent.Replay.decide_creation Agent.Replay.act Agent.event_type_of create
agent-IsRebuilt_example =
    Agent.Replay.agent-IsRebuilt (Agent.Replay.by_invite "ann@example.org") "ann" 9 10 "e1" 10
      agent_calls (refl, (refl, tt))

abbrev empty_policy : Aggregate Policy.PolicyPayload Policy.Policy
empty_policy = record { base = new_base_entity "p1"; state = Policy.Replay.blank }

abbrev policy_calls : List (Call Policy.Replay.Method)
policy_calls =
    record {
      method = Policy.Replay.rule_call Policy.Replay.grant "ann" "read" "docs" 20;
      event_id = "e2";
      now = 20;
    }
    ∷ record { method = Policy.Replay.deactivate_call 30; event_id = "e3"; now = 30 }
    ∷ []

abbrev empty_password :
    Aggregate PasswordCredential.PasswordPayload PasswordCredential.PasswordCredential
empty_password = record { base = new_base_entity "pw"; state = PasswordCredential.Replay.blank }

abbrev password_calls : List (Call PasswordCredential.Replay.Method)
password_calls =
    record { method = PasswordCredential.Replay.mark_verified_call 20; event_id = "e2"; now = 20 }
    ∷ record {
      method = PasswordCredential.Replay.update_call "argon2id" "#2" 30;
      event_id = "e3";
      now = 30;
    }
    ∷ []

abbrev stored_password : PasswordCredential.PasswordCredential
stored_password = record PasswordCredential.Replay.blank { credential_id = "c1"; hash = "#1" }
