-- ===== src/Auth/Invite.antt =====
-- pkg/auth/domain/entities/invite.go and invite_events.go: the Invite aggregate. Each call of
-- time.Now() and ksuid.New() is an argument; times are numbers. A method that changes the
-- aggregate returns it with its error.
pub mod Steps
pub mod Replay
pub mod Restored
use pericarp.Prelude.{
  String, ◌==◌, Bool, true, false, not, ℕ, Option, none, some, List, [], ◌∷◌, ltb, if◌then◌else◌,
}
use pericarp.Event.{Envelope}
use pericarp.Entity.{
  BaseEntity, EntityError, new_base_entity, apply_event, record_event, clear_uncommitted_events,
}

pub record InviteCreated : Type 0 where
  pub account_id : String
  pub email : String
  pub role_id : String
  pub inviter_agent_id : String
  pub invitee_agent_id : String
  pub expires_at : ℕ
  pub timestamp : ℕ

-- The payloads that the type switch of ApplyEvent tells apart; `other` is any other type.
pub data InvitePayload : Type 0 where
  created : InviteCreated → InvitePayload
  accepted : ℕ → InvitePayload
  revoked : ℕ → InvitePayload
  other : InvitePayload

-- None of the payloads has a GetID.
abbrev pub no_owner : InvitePayload → Option String
no_owner payload = none

-- The EventType methods.
unfoldable pub event_type_of : InvitePayload → String
event_type_of (created _) = "Invite.Created"
event_type_of (accepted _) = "Invite.Accepted"
event_type_of (revoked _) = "Invite.Revoked"
event_type_of other = ""

pub data InviteError : Type 0 where
  empty_id empty_account_id empty_email empty_role_id empty_inviter empty_invitee : InviteError
  not_pending expired unknown_event_type : InviteError
  entity_error : EntityError → InviteError

pub record Invite : Type 0 where
  pub base : BaseEntity InvitePayload
  pub account_id : String
  pub email : String
  pub role_id : String
  pub inviter_agent_id : String
  pub invitee_agent_id : String
  pub status : String
  pub expires_at : ℕ
  pub accepted_at : ℕ
  pub created_at : ℕ

-- `Invite{}` with an entity that has only its id, as a replay starts from.
abbrev pub blank : String → Invite
blank id = record {
  base = new_base_entity id;
  account_id = "";
  email = "";
  role_id = "";
  inviter_agent_id = "";
  invitee_agent_id = "";
  status = "";
  expires_at = 0;
  accepted_at = 0;
  created_at = 0;
}

-- i.RecordEvent(event, event.EventType()), promoted from the embedded entity.
unfoldable pub record_on : String → ℕ → InvitePayload → Invite → Invite × Option InviteError
unfolding record_event event_type_of
record_on event_id now payload i =
    let (base, error) = record_event no_owner event_id now payload (event_type_of payload) i.base in
    (record i { base = base }, elim error [ none ↦ none | some e ↦ some (entity_error e) ])

-- The first checks of With.
unfoldable pub check_created : String → InviteCreated → Option InviteError
check_created id c =
    if id == ""
    then some empty_id
    else if c.account_id == ""
    then some empty_account_id
    else if c.email == ""
    then some empty_email
    else if c.role_id == ""
    then some empty_role_id
    else if c.inviter_agent_id == ""
    then some empty_inviter
    else if c.invitee_agent_id == ""
    then some empty_invitee
    else none

-- The fields that With and the replay of its event set.
abbrev pub set_created : InviteCreated → Invite → Invite
set_created c i = record i {
  account_id = c.account_id;
  email = c.email;
  role_id = c.role_id;
  inviter_agent_id = c.inviter_agent_id;
  invitee_agent_id = c.invitee_agent_id;
  status = "pending";
  expires_at = c.expires_at;
  created_at = c.timestamp;
}

-- With, on the parameters in `c`, whose timestamp is the time.Now() that becomes createdAt.
unfoldable pub with_invite :
    String → InviteCreated → String → ℕ → Invite → Invite × Option InviteError
unfolding check_created record_on
with_invite id c event_id now i = elim (check_created id c) [
  | some e ↦ (i, some e)
  | none ↦
      record_on event_id now (created c) (set_created c (record i { base = new_base_entity id }))
]

-- IsExpired
abbrev pub is_expired : ℕ → Invite → Bool
is_expired now i = ltb i.expires_at now

-- Accept: `checked` is the time in IsExpired and `at` the one that becomes acceptedAt.
unfoldable pub accept : ℕ → ℕ → String → ℕ → Invite → Invite × Option InviteError
unfolding record_on
accept checked at event_id now i =
    if not (i.status == "pending")
    then (i, some not_pending)
    else if is_expired checked i
    then (i, some expired)
    else record_on event_id now (accepted at) (record i { status = "accepted"; accepted_at = at })

-- Revoke
unfoldable pub revoke : ℕ → String → ℕ → Invite → Invite × Option InviteError
unfolding record_on
revoke at event_id now i =
    if not (i.status == "pending")
    then (i, some not_pending)
    else record_on event_id now (revoked at) (record i { status = "revoked" })

-- Restore; the fields of With come in `c`, whose timestamp is createdAt.
unfoldable pub restore_invite :
    String → InviteCreated → String → ℕ → Invite → Invite × Option InviteError
restore_invite id c status accepted_at i = if id == "" then (i, some empty_id) else (
  record (set_created c i) {
    base = new_base_entity id;
    status = status;
    accepted_at = accepted_at;
  },
  none,
)

-- The type switch of ApplyEvent.
unfoldable pub apply_payload : InvitePayload → Invite → Invite × Option InviteError
apply_payload (created c) i = (set_created c i, none)
apply_payload (accepted at) i = (record i { status = "accepted"; accepted_at = at }, none)
apply_payload (revoked at) i = (record i { status = "revoked" }, none)
apply_payload other i = (i, some unknown_event_type)

-- ApplyEvent
unfoldable pub apply_invite :
    Bool → Envelope InvitePayload InvitePayload → Invite → Invite × Option InviteError
unfolding apply_payload apply_event
apply_invite cancelled event i =
    let (base, error) = apply_event cancelled event i.base in
    elim error [
      | some e ↦ (record i { base = base }, some (entity_error e))
      | none ↦ apply_payload event.payload (record i { base = base })
    ]

-- ClearUncommittedEvents, promoted from the embedded entity.
abbrev pub clear_invite : Invite → Invite
clear_invite i = record i { base = clear_uncommitted_events i.base }
