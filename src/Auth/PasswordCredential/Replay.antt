-- ===== src/Auth/PasswordCredential/Replay.antt =====
-- A PasswordCredential rebuilt from its events, which hold no secret (password_credential.go).
use pericarp.Prelude.{String, ◌==◌, ◌≡◌, refl, eq_iff, ◌↔◌, ℕ, List, arith}
use pericarp.Entity.{new_base_entity}
use pericarp.Auth.Aggregate.{Aggregate, Decision, emit, create}
use pericarp.Auth.Aggregate.Replay.{
  IsRebuilt, IsCarried, IsCarried-require, Call, run, AllFresh, create-IsRebuilt,
}
use pericarp.Auth.PasswordCredential.{
  PasswordCredential, PasswordPayload, created, updated, event_type_of, with_salt, update,
  mark_verified, evolve, password_checks, update_checks, to_string,
}

-- The hash, its salt and the time of the last verification are on no event.
abbrev pub public_part : PasswordCredential → PasswordCredential
public_part p = record p { hash = ""; salt = ""; last_verified_at = 0 }

pub data Method : Type 0 where
  update_call : String → String → ℕ → Method
  mark_verified_call : ℕ → Method

unfoldable pub act :
    Method → String → PasswordCredential → Decision PasswordPayload PasswordCredential
unfolding update mark_verified
act (update_call algorithm hash at) id p = update algorithm hash at id p
act (mark_verified_call at) id p = mark_verified at p

act-IsCarried :
    (m : Method) (id : String) (p : PasswordCredential)
    → IsCarried evolve public_part p (act m id p)
unfolding act evolve
act-IsCarried (update_call algorithm hash at) id p =
    IsCarried-require evolve public_part (update_checks algorithm hash) p
      (emit
        (updated (record {
          password_credential_id = id;
          credential_id = p.credential_id;
          algorithm = algorithm;
          at = at;
        }))
        (record p { algorithm = algorithm; hash = hash; salt = ""; updated_at = at }))
      (λ r same. (record r { algorithm = algorithm; updated_at = at }, refl, ground arith))
act-IsCarried (mark_verified_call at) id p = refl

abbrev pub blank : PasswordCredential
blank = record {
  credential_id = "";
  algorithm = "";
  hash = "";
  salt = "";
  created_at = 0;
  updated_at = 0;
  last_verified_at = 0;
}

with_salt-IsCarried :
    (id credential_id algorithm hash salt : String) (at : ℕ)
    → IsCarried evolve public_part blank (with_salt id credential_id algorithm hash salt at blank)
unfolding with_salt evolve
with_salt-IsCarried id credential_id algorithm hash salt at =
    IsCarried-require evolve public_part (password_checks id credential_id algorithm hash salt)
      blank
      (emit
        (created (record {
          password_credential_id = id;
          credential_id = credential_id;
          algorithm = algorithm;
          at = at;
        }))
        (record blank {
          credential_id = credential_id;
          algorithm = algorithm;
          hash = hash;
          salt = salt;
          created_at = at;
          updated_at = at;
        }))
      (λ r same. (
        record r {
          credential_id = credential_id;
          algorithm = algorithm;
          created_at = at;
          updated_at = at;
        },
        refl,
        ground arith,
      ))

-- Whatever WithSalt and the calls behind it answer, if each call draws a new event id, then the
-- events that a PasswordCredential recorded are all accepted by ApplyEvent on an empty one, and
-- rebuild its entity and all of its fields but the hash, the salt and the last verification.
pub password-IsRebuilt :
    (id credential_id algorithm hash salt : String) (at : ℕ) (event_id : String) (now : ℕ)
    (cs : List (Call Method))
    → let start : Aggregate PasswordPayload PasswordCredential = record {
      base = new_base_entity id;
      state = blank;
    } in
      let made =
        (create event_type_of id
          (with_salt id credential_id algorithm hash salt at blank)
          event_id
          now
          start).0 in
      AllFresh event_type_of act cs made
      → IsRebuilt evolve public_part start (run event_type_of act cs made)
password-IsRebuilt id credential_id algorithm hash salt at event_id now cs =
    create-IsRebuilt event_type_of act evolve public_part act-IsCarried id
      (with_salt id credential_id algorithm hash salt at blank) blank event_id now cs
      (with_salt-IsCarried id credential_id algorithm hash salt at)

-- The text of a PasswordCredential shows neither its hash nor its salt: it stays the same when both
-- are replaced, as long as the salt is empty in both or in neither.
pub to_string_hides :
    (id : String) (p : PasswordCredential) (hash salt : String)
    → (salt ≡ "") ↔ (p.salt ≡ "")
    → to_string id (record p { hash = hash; salt = salt }) ≡ to_string id p
unfolding to_string
to_string_hides id p hash salt same =
    let test : (salt == "") ≡ (p.salt == "") = ground (arith, eq_iff salt "", eq_iff p.salt "") in
    rw test refl
