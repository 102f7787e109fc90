-- ===== src/Auth/PasswordCredential.antt =====
-- pkg/auth/domain/entities/password_credential.go and password_credential_events.go: the
-- PasswordCredential aggregate. Each call of time.Now() is an argument; the getters are the fields.
pub mod Replay
use pericarp.Prelude.{
  String, ◌==◌, Bool, true, false, not, ◌&&◌, ℕ, ◌+◌, Option, none, some, List, [], ◌∷◌, ltb,
  if◌then◌else◌,
}
use Prim.Native.Char.{code}
use Prim.Native.String.{◌++◌}
use pericarp.Auth.Aggregate.{Aggregate, Decision, require, silent, emit, Failure, restore}

-- The payloads of both events: the credential's id, the id of its parent, the algorithm, the time.
pub record PasswordEvent : Type 0 where
  pub password_credential_id : String
  pub credential_id : String
  pub algorithm : String
  pub at : ℕ

-- The payloads that the type switch of ApplyEvent tells apart; `other` is any other type.
pub data PasswordPayload : Type 0 where
  created updated : PasswordEvent → PasswordPayload
  other : PasswordPayload

unfoldable pub event_type_of : PasswordPayload → String
event_type_of (created _) = "PasswordCredential.Created"
event_type_of (updated _) = "PasswordCredential.Updated"
event_type_of other = ""

-- The fields of a PasswordCredential beside its entity.
pub record PasswordCredential : Type 0 where
  pub credential_id : String
  pub algorithm : String
  pub hash : String
  pub salt : String
  pub created_at : ℕ
  pub updated_at : ℕ
  pub last_verified_at : ℕ

-- The bytes of a character in UTF-8.
abbrev pub char_size : ℕ → ℕ
char_size c = if ltb c 128 then 1 else if ltb c 2048 then 2 else if ltb c 65536 then 3 else 4

-- `len(s)`
abbrev pub size_of : String → ℕ
size_of String.[] = 0
size_of (String.◌∷◌ c s) = char_size (code c) + size_of s

-- MaxSaltLength
abbrev pub max_salt_length : ℕ
max_salt_length = 64

abbrev pub password_checks : String → String → String → String → String → List (Bool × String)
password_checks id credential_id algorithm hash salt =
    (id == "", "password credential ID cannot be empty")
    ∷ (credential_id == "", "credential ID cannot be empty")
    ∷ (algorithm == "", "algorithm cannot be empty")
    ∷ (hash == "", "hash cannot be empty")
    ∷ (ltb max_salt_length (size_of salt), "salt suffix too long")
    ∷ (not (salt == "") && not (algorithm == "bcrypt"), "salt suffix is only supported for bcrypt")
    ∷ []

-- WithSalt; `at` is the time.Now() that becomes createdAt.
unfoldable pub with_salt :
    String
    → String
    → String
    → String
    → String
    → ℕ
    → PasswordCredential
    → Decision PasswordPayload PasswordCredential
with_salt id credential_id algorithm hash salt at p =
    require (password_checks id credential_id algorithm hash salt) (
      emit
        (created (record {
          password_credential_id = id;
          credential_id = credential_id;
          algorithm = algorithm;
          at = at;
        }))
        (record p {
          credential_id = credential_id;
          algorithm = algorithm;
          hash = hash;
          salt = salt;
          created_at = at;
          updated_at = at;
        }))

-- With
unfoldable pub with_password :
    String
    → String
    → String
    → String
    → ℕ
    → PasswordCredential
    → Decision PasswordPayload PasswordCredential
unfolding with_salt
with_password id credential_id algorithm hash at p =
    with_salt id credential_id algorithm hash "" at p

-- String and GoString, from the id on.
unfoldable pub to_string : String → PasswordCredential → String
to_string id p =
    "PasswordCredential{ID:"
    ++ (id
        ++ (" CredentialID:"
            ++ (p.credential_id
                ++ (" Algorithm:"
                    ++ (p.algorithm
                        ++ (" Hash:[REDACTED] Salt:"
                            ++ ((if p.salt == "" then "[EMPTY]" else "[REDACTED]") ++ "}")))))))

-- Restore, with the values of the database in `stored`.
unfoldable pub restore_password :
    String
    → PasswordCredential
    → Aggregate PasswordPayload PasswordCredential
    → Aggregate PasswordPayload PasswordCredential × Option Failure
unfolding restore
restore_password id stored a =
    restore id
      (if id == ""
        then some "id cannot be empty"
        else if stored.credential_id == ""
        then some "credential ID cannot be empty"
        else none)
      stored a

abbrev pub update_checks : String → String → List (Bool × String)
update_checks algorithm hash =
    (algorithm == "", "algorithm cannot be empty") ∷ (hash == "", "hash cannot be empty") ∷ []

-- Update, on the password credential with the id `id`.
unfoldable pub update :
    String → String → ℕ → String → PasswordCredential → Decision PasswordPayload PasswordCredential
update algorithm hash at id p = require (update_checks algorithm hash) (
    emit
      (updated (record {
        password_credential_id = id;
        credential_id = p.credential_id;
        algorithm = algorithm;
        at = at;
      }))
      (record p { algorithm = algorithm; hash = hash; salt = ""; updated_at = at }))

-- MarkVerified, which records no event.
unfoldable pub mark_verified : ℕ → PasswordCredential → Decision PasswordPayload PasswordCredential
mark_verified at p = silent (record p { last_verified_at = at })

-- The type switch of ApplyEvent.
unfoldable pub evolve : PasswordPayload → PasswordCredential → Option PasswordCredential
evolve (created e) p = some (record p {
  credential_id = e.credential_id;
  algorithm = e.algorithm;
  created_at = e.at;
  updated_at = e.at;
})
evolve (updated e) p = some (record p { algorithm = e.algorithm; updated_at = e.at })
evolve other p = none
