-- ===== src/Auth/Account.antt =====
-- pkg/auth/domain/entities/account.go and account_events.go: the Account aggregate. Each call of
-- time.Now() is an argument; the getters are the fields. Members are events only.
pub mod Replay
use pericarp.Prelude.{
  String, ◌==◌, Bool, true, false, not, ◌||◌, ℕ, Option, none, some, List, [], ◌∷◌, if◌then◌else◌,
}
use pericarp.Prelude.Int.{pos}
use pericarp.Event.{BasicTripleEvent}
use pericarp.Auth.Aggregate.{Aggregate, Decision, require, keep, emit, Failure, restore}

-- The payloads that the type switch of ApplyEvent tells apart; `other` is any other type.
pub data AccountPayload : Type 0 where
  created : String → String → ℕ → AccountPayload
  activated deactivated : ℕ → AccountPayload
  member_added member_role_changed : BasicTripleEvent → String → ℕ → AccountPayload
  member_removed : BasicTripleEvent → ℕ → AccountPayload
  other : AccountPayload

unfoldable pub event_type_of : AccountPayload → String
event_type_of (created _ _ _) = "Account.Created"
event_type_of (activated _) = "Account.Activated"
event_type_of (deactivated _) = "Account.Deactivated"
event_type_of (member_added _ _ _) = "Account.MemberAdded"
event_type_of (member_role_changed _ _ _) = "Account.MemberRoleChanged"
event_type_of (member_removed _ _) = "Account.MemberRemoved"
event_type_of other = ""

-- The fields of an Account beside its entity.
pub record Account : Type 0 where
  pub name : String
  pub account_type : String
  pub active : Bool
  pub created_at : ℕ

-- validAccountType
abbrev pub valid_account_type : String → Bool
valid_account_type t = t == "personal" || (t == "team" || t == "organization")

abbrev pub account_checks : String → String → String → List (Bool × String)
account_checks id name account_type =
    (id == "", "account ID cannot be empty")
    ∷ (name == "", "account name cannot be empty")
    ∷ (not (valid_account_type account_type), "invalid account type")
    ∷ []

-- With: `created_at` is the time that the account gets and `at` the one that its event gets.
unfoldable pub with_account :
    String → String → String → ℕ → ℕ → Account → Decision AccountPayload Account
with_account id name account_type created_at at a = require (account_checks id name account_type) (
    emit (created name account_type at)
      (record { name = name; account_type = account_type; active = true; created_at = created_at }))

-- Restore, with the values of the database in `stored`.
unfoldable pub restore_account :
    String
    → Account
    → Aggregate AccountPayload Account
    → Aggregate AccountPayload Account × Option Failure
unfolding restore
restore_account id stored a =
    restore id
      (if id == ""
        then some "id cannot be empty"
        else if stored.name == ""
        then some "account name cannot be empty"
        else none)
      stored a

-- Activate
unfoldable pub activate : ℕ → Account → Decision AccountPayload Account
activate at a = if a.active then keep else emit (activated at) (record a { active = true })

-- Deactivate
unfoldable pub deactivate : ℕ → Account → Decision AccountPayload Account
deactivate at a = if not a.active then keep else emit (deactivated at) (record a { active = false })

abbrev pub member : String → String → String → BasicTripleEvent
member predicate account_id agent_id = record {
  subject = account_id;
  predicate = predicate;
  object = agent_id;
  original = pos 0;
}

abbrev pub member_checks : String → String → List (Bool × String)
member_checks agent_id role_id =
    (agent_id == "", "agent ID cannot be empty") ∷ (role_id == "", "role ID cannot be empty") ∷ []

-- AddMember, on the account with the id `id`.
unfoldable pub add_member : String → String → ℕ → String → Account → Decision AccountPayload Account
add_member agent_id role_id at id a =
    require (member_checks agent_id role_id)
      (emit (member_added (member "org:hasMember" id agent_id) role_id at) a)

-- RemoveMember
unfoldable pub remove_member : String → ℕ → String → Account → Decision AccountPayload Account
remove_member agent_id at id a =
    require ((agent_id == "", "agent ID cannot be empty") ∷ [])
      (emit (member_removed (member "org:hadMember" id agent_id) at) a)

-- ChangeMemberRole
unfoldable pub change_member_role :
    String → String → ℕ → String → Account → Decision AccountPayload Account
change_member_role agent_id new_role_id at id a =
    require (member_checks agent_id new_role_id)
      (emit (member_role_changed (member "org:hasMember" id agent_id) new_role_id at) a)

-- The type switch of ApplyEvent.
unfoldable pub evolve : AccountPayload → Account → Option Account
evolve (created name account_type at) a =
    some (record { name = name; account_type = account_type; active = true; created_at = at })
evolve (activated at) a = some (record a { active = true })
evolve (deactivated at) a = some (record a { active = false })
evolve (member_added triple role at) a = some a
evolve (member_removed triple at) a = some a
evolve (member_role_changed triple role at) a = some a
evolve other a = none
