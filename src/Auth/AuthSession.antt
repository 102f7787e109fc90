-- ===== src/Auth/AuthSession.antt =====
-- pkg/auth/domain/entities/auth_session.go and auth_session_events.go: the AuthSession aggregate.
-- Each call of time.Now() and ksuid.New() is an argument; times are numbers.
pub mod Revoked
use pericarp.Prelude.{
  String, ◌==◌, Bool, true, false, not, ℕ, Option, none, some, [], ltb, if◌then◌else◌,
}
use pericarp.Event.{Envelope}
use pericarp.Entity.{BaseEntity, EntityError, new_base_entity, apply_event, record_event}

pub record SessionCreated : Type 0 where
  pub subject : String
  pub predicate : String
  pub object : String
  pub credential_id : String
  pub ip_address : String
  pub user_agent : String
  pub expires_at : ℕ
  pub timestamp : ℕ

-- The payloads that the type switch of ApplyEvent tells apart; `other` is any other type.
-- `scoped` has the subject, the predicate, the object and the timestamp of SessionAccountScoped.
pub data SessionPayload : Type 0 where
  created : SessionCreated → SessionPayload
  touched revoked : ℕ → SessionPayload
  scoped : String → String → String → ℕ → SessionPayload
  other : SessionPayload

-- None of the payloads has a GetID.
abbrev pub no_owner : SessionPayload → Option String
no_owner payload = none

-- The EventType methods.
unfoldable pub event_type_of : SessionPayload → String
event_type_of (created _) = "Session.Created"
event_type_of (touched _) = "Session.Touched"
event_type_of (revoked _) = "Session.Revoked"
event_type_of (scoped _ _ _ _) = "Session.AccountScoped"
event_type_of other = ""

pub data SessionError : Type 0 where
  empty_id empty_agent_id empty_credential_id empty_account_id unknown_event_type : SessionError
  entity_error : EntityError → SessionError

pub record AuthSession : Type 0 where
  pub base : BaseEntity SessionPayload
  pub agent_id : String
  pub account_id : String
  pub credential_id : String
  pub active : Bool
  pub created_at : ℕ
  pub expires_at : ℕ
  pub last_accessed_at : ℕ
  pub ip_address : String
  pub user_agent : String

-- s.RecordEvent(event, event.EventType()), promoted from the embedded entity.
unfoldable pub record_on :
    String → ℕ → SessionPayload → AuthSession → AuthSession × Option SessionError
unfolding record_event event_type_of
record_on event_id now payload s =
    let (base, error) = record_event no_owner event_id now payload (event_type_of payload) s.base in
    (record s { base = base }, elim error [ none ↦ none | some e ↦ some (entity_error e) ])

-- With: `created_at` is the time that the session gets and `at` the one that its event gets.
unfoldable pub with_session :
    String
    → String
    → String
    → String
    → String
    → ℕ
    → ℕ
    → ℕ
    → String
    → ℕ
    → AuthSession
    → AuthSession × Option SessionError
unfolding record_on
with_session id agent_id credential_id ip_address user_agent expires_at created_at at event_id now
      s =
    if id == ""
    then (s, some empty_id)
    else if agent_id == ""
    then (s, some empty_agent_id)
    else if credential_id == ""
    then (s, some empty_credential_id)
    else record_on event_id now
        (created (record {
          subject = agent_id;
          predicate = "schema:session";
          object = id;
          credential_id = credential_id;
          ip_address = ip_address;
          user_agent = user_agent;
          expires_at = expires_at;
          timestamp = at;
        }))
        (record s {
          base = new_base_entity id;
          agent_id = agent_id;
          credential_id = credential_id;
          active = true;
          created_at = created_at;
          expires_at = expires_at;
          last_accessed_at = created_at;
          ip_address = ip_address;
          user_agent = user_agent;
        })

-- Restore, on the session `stored` that holds the values of the database, its entity aside.
unfoldable pub restore_session :
    String → AuthSession → AuthSession → AuthSession × Option SessionError
restore_session id stored s =
    if id == ""
    then (s, some empty_id)
    else if stored.agent_id == ""
    then (s, some empty_agent_id)
    else (record stored { base = new_base_entity id }, none)

-- Touch: `accessed` is the time that the session gets and `at` the one that its event gets.
unfoldable pub touch : ℕ → ℕ → String → ℕ → AuthSession → AuthSession × Option SessionError
unfolding record_on
touch accessed at event_id now s =
    record_on event_id now (touched at) (record s { last_accessed_at = accessed })

-- Revoke
unfoldable pub revoke : ℕ → String → ℕ → AuthSession → AuthSession × Option SessionError
unfolding record_on
revoke at event_id now s =
    if not s.active
    then (s, none)
    else record_on event_id now (revoked at) (record s { active = false })

-- IsExpired
abbrev pub is_expired : ℕ → AuthSession → Bool
is_expired now s = ltb s.expires_at now

-- ScopeToAccount
unfoldable pub scope_to_account :
    String → ℕ → String → ℕ → AuthSession → AuthSession × Option SessionError
unfolding record_on
scope_to_account account_id at event_id now s =
    if account_id == ""
    then (s, some empty_account_id)
    else record_on event_id now (scoped s.base.aggregate_id "schema:authenticator" account_id at)
        (record s { account_id = account_id })

-- The type switch of ApplyEvent.
unfoldable pub apply_payload : SessionPayload → AuthSession → AuthSession × Option SessionError
apply_payload (created c) s = (
  record s {
    agent_id = c.subject;
    credential_id = c.credential_id;
    active = true;
    created_at = c.timestamp;
    expires_at = c.expires_at;
    last_accessed_at = c.timestamp;
    ip_address = c.ip_address;
    user_agent = c.user_agent;
  },
  none,
)
apply_payload (touched at) s = (record s { last_accessed_at = at }, none)
apply_payload (revoked at) s = (record s { active = false }, none)
apply_payload (scoped subject predicate object at) s = (record s { account_id = object }, none)
apply_payload other s = (s, some unknown_event_type)

-- ApplyEvent
unfoldable pub apply_session :
    Bool → Envelope SessionPayload SessionPayload → AuthSession → AuthSession × Option SessionError
unfolding apply_payload apply_event
apply_session cancelled event s =
    let (base, error) = apply_event cancelled event s.base in
    elim error [
      | some e ↦ (record s { base = base }, some (entity_error e))
      | none ↦ apply_payload event.payload (record s { base = base })
    ]
