-- ===== src/Auth/Invite/Restored.antt =====
-- An Invite that Restore rebuilt from a database row, accepted and committed (invite.go,
-- unitofwork.go, memory_store.go).
use pericarp.Prelude.{
  String, eq_iff, eq_refl, ◌≡◌, ◌≢◌, refl, ap, sym, subst, ◌∙◌, ℕ, none, some, [], ◌∷◌, arith,
}
use pericarp.Prelude.Int.{pos, ◌+ℤ◌, ◌-ℤ◌}
use pericarp.Event.{Envelope, new_event_envelope, concurrency_conflict}
use pericarp.Entity.{BaseEntity, new_base_entity, record_event}
use pericarp.EventStore.Memory.{MemoryStore, append, is_valid_batch, get_current_version}
use pericarp.EventStore.Memory.Concurrency.{conflict_of_version}
use pericarp.UnitOfWork.{expected_version}
use pericarp.Auth.Invite.{
  Invite, InvitePayload, InviteCreated, accepted, no_owner, record_on, accept, restore_invite,
  event_type_of,
}

-- The envelope of the first event on an entity.
abbrev first_event : String → String → ℕ → InvitePayload → Envelope InvitePayload InvitePayload
first_event id event_id now payload =
    new_event_envelope no_owner event_id now payload id (event_type_of payload) (pos 1)

abbrev one_event : String → String → ℕ → InvitePayload → BaseEntity InvitePayload
one_event id event_id now payload = record {
  aggregate_id = id;
  sequence_no = pos 1;
  uncommitted_events = first_event id event_id now payload ∷ [];
  applied_event_ids = event_id ∷ [];
}

base-restore_invite :
    (id : String) (c : InviteCreated) (status : String) (accepted_at : ℕ) (i : Invite)
    → (restore_invite id c status accepted_at i).1 ≡ none
    → (restore_invite id c status accepted_at i).0.base ≡ new_base_entity id
unfolding restore_invite
base-restore_invite id c status accepted_at i done = ground arith

base-accept :
    (checked at : ℕ) (event_id : String) (now : ℕ) (i : Invite)
    → (accept checked at event_id now i).1 ≡ none
    → (accept checked at event_id now i).0.base
      ≡ (record_event no_owner event_id now (accepted at) (event_type_of (accepted at)) i.base).0
unfolding accept record_on
base-accept checked at event_id now i done = ground arith

first_record :
    (id event_id : String) (now : ℕ) (payload : InvitePayload)
    → (record_event no_owner event_id now payload (event_type_of payload) (new_base_entity id)).0
      ≡ one_event id event_id now payload
unfolding record_event new_event_envelope ◌+ℤ◌
first_record id event_id now payload = refl

one_event_conflicts :
    (id event_id : String) (now : ℕ) (payload : InvitePayload) (m : MemoryStore InvitePayload)
    → event_id ≢ ""
    → get_current_version id m ≢ pos 0
    → let base = one_event id event_id now payload in
      append id (expected_version base) base.uncommitted_events m ≡ (m, some concurrency_conflict)
unfolding expected_version ◌-ℤ◌ new_event_envelope is_valid_batch
one_event_conflicts id event_id now payload m named stored =
    conflict_of_version id (pos 0) (first_event id event_id now payload) [] m
      (ground (arith, eq_refl id, eq_iff event_id "")) (λ e. absurd (cc e)) stored

-- An invite that Restore rebuilt and Accept then accepted, each without an error, is refused by a
-- store in which the invite's version is not 0: the append of its event, whose id is not empty, at
-- the version that Track expects is a concurrency conflict and changes nothing.
pub restored_accept_conflicts :
    (id : String) (c : InviteCreated) (status : String) (accepted_at : ℕ) (i : Invite)
    (checked at : ℕ) (event_id : String) (now : ℕ) (m : MemoryStore InvitePayload)
    → let restored = restore_invite id c status accepted_at i in
      let answered = accept checked at event_id now restored.0 in
      restored.1 ≡ none
      → answered.1 ≡ none
      → event_id ≢ ""
      → get_current_version id m ≢ pos 0
      → append id (expected_version answered.0.base) answered.0.base.uncommitted_events m
        ≡ (m, some concurrency_conflict)
restored_accept_conflicts id c status accepted_at i checked at event_id now m restored answered
      named stored =
    let before = (restore_invite id c status accepted_at i).0 in
    let same : (accept checked at event_id now before).0.base
        ≡ one_event id event_id now (accepted at) =
      base-accept checked at event_id now before answered
      ∙ ap
          (λ (b : BaseEntity InvitePayload).
            (record_event no_owner event_id now (accepted at) (event_type_of (accepted at)) b).0)
          (base-restore_invite id c status accepted_at i restored)
      ∙ first_record id event_id now (accepted at) in
    subst
      (λ (b : BaseEntity InvitePayload).
        append id (expected_version b) b.uncommitted_events m ≡ (m, some concurrency_conflict))
      (sym same) (one_event_conflicts id event_id now (accepted at) m named stored)
