-- ===== src/Auth/Invite/Replay.antt =====
-- The replay of an Invite from its events (invite.go).
use pericarp.Prelude.{
  String, ◌==◌, false, ◌≡◌, refl, ℕ, Option, none, some, List, [], ◌∷◌, ◌++◌, arith, contains, sym,
  ap, subst, ◌∙◌, Bool-cases, inl, inr,
}
use pericarp.Event.{Envelope, new_event_envelope}
use pericarp.Entity.{BaseEntity, EntityError, apply_event, record_event, clear_uncommitted_events}
use pericarp.Entity.Record.{Draft, record_draft, stamped, uncommitted-record_draft, apply-stamped}
use pericarp.Auth.Invite.Steps.{
  InviteStep, accept_step, revoke_step, take_step, AllFresh, take_steps,
}
use pericarp.Auth.Invite.{
  Invite, InvitePayload, InviteError, entity_error, InviteCreated, created, accepted, revoked,
  no_owner, event_type_of, record_on, with_invite, accept, revoke, apply_payload, apply_invite,
  clear_invite, blank, set_created, check_created, is_expired,
}

-- ApplyEvent on each event in turn, up to the first refusal.
unfoldable pub replay_invite :
    List (Envelope InvitePayload InvitePayload) → Invite → Invite × Option InviteError
replay_invite [] i = (i, none)
replay_invite (event ∷ events) i =
    let (i', error) = apply_invite false event i in
    elim error [ none ↦ replay_invite events i' | some x ↦ (i', some x) ]

replay_invite_snoc :
    (events : List (Envelope InvitePayload InvitePayload))
    (last : Envelope InvitePayload InvitePayload) (i i' : Invite)
    → replay_invite events i ≡ (i', none)
    → replay_invite (events ++ last ∷ []) i ≡ apply_invite false last i'
unfolding replay_invite
replay_invite_snoc [] last i i' h = ground arith
replay_invite_snoc (event ∷ events) last i i' h =
    ground (arith, replay_invite_snoc events last (apply_invite false event i).0 i')

-- The uncommitted events of `i`, replayed from `start`, give `i` itself.
abbrev pub IsReplayed : Invite → Invite → Type 0
IsReplayed start i = replay_invite i.base.uncommitted_events start ≡ (clear_invite i, none)

-- The RecordEvent call of record_on.
abbrev draft : String → ℕ → InvitePayload → Draft InvitePayload
draft event_id now payload = record {
  id = event_id;
  now = now;
  payload = payload;
  event_type = event_type_of payload;
}

-- ApplyEvent of an Invite behind the answer of its entity.
abbrev applied_to :
    Envelope InvitePayload InvitePayload
    → Invite
    → BaseEntity InvitePayload × Option EntityError
    → Invite × Option InviteError
applied_to event i (base, error) = elim error [
  | some e ↦ (record i { base = base }, some (entity_error e))
  | none ↦ apply_payload event.payload (record i { base = base })
]

-- An operation that records a payload: `f` is the invite that it makes, up to the entity in it.
module _ (event_id : String) (now : ℕ) (payload : InvitePayload) (i : Invite)
    (f : BaseEntity InvitePayload → Invite)
    (only_base : (b b' : BaseEntity InvitePayload) → record (f b) { base = b' } ≡ f b')
    (applied : (b : BaseEntity InvitePayload)
      → apply_payload payload (record i { base = b }) ≡ (f b, none)) where
  abbrev stepped : BaseEntity InvitePayload
  stepped = record_draft no_owner (draft event_id now payload) i.base

  base-f : (b : BaseEntity InvitePayload) → (f b).base ≡ b
  base-f b = ap (λ (x : Invite). x.base) (sym (only_base b b))

  record_on-f : (record_on event_id now payload (f i.base)).0 ≡ f stepped
  unfolding record_on
  record_on-f =
      only_base i.base
        (record_event no_owner event_id now payload (event_type_of payload) (f i.base).base).0
      ∙ ap
          (λ (b : BaseEntity InvitePayload).
            f (record_event no_owner event_id now payload (event_type_of payload) b).0)
          (base-f i.base)

  replay-step :
      (start : Invite)
      → contains i.base.applied_event_ids event_id ≡ false
      → IsReplayed start i
      → IsReplayed start (f stepped)
  unfolding apply_invite new_event_envelope
  replay-step start fresh replayed =
      let d = draft event_id now payload in
      let event = stamped no_owner d i.base in
      let same : apply_event false event (clear_uncommitted_events i.base)
          ≡ (clear_uncommitted_events stepped, none) =
        apply-stamped no_owner d i.base (inl refl) fresh in
      let applied_once : apply_invite false event (clear_invite i)
          ≡ (f (clear_uncommitted_events stepped), none) =
        ap (λ (r : BaseEntity InvitePayload × Option EntityError). applied_to event i r) same
        ∙ applied (clear_uncommitted_events stepped) in
      ap (λ (b : BaseEntity InvitePayload). replay_invite b.uncommitted_events start)
        (base-f stepped)
      ∙ ap (λ es. replay_invite es start) (uncommitted-record_draft no_owner d i.base fresh)
      ∙ replay_invite_snoc i.base.uncommitted_events event start (clear_invite i) replayed
      ∙ applied_once
      ∙ ap (λ (b : BaseEntity InvitePayload). (f (clear_uncommitted_events b), none))
          (sym (base-f stepped))
      ∙ ap (λ (x : Invite). (x, none))
          (sym (only_base stepped (clear_uncommitted_events (f stepped).base)))

  recorded-IsReplayed :
      (start : Invite)
      → contains i.base.applied_event_ids event_id ≡ false
      → IsReplayed start i
      → IsReplayed start (record_on event_id now payload (f i.base)).0
  recorded-IsReplayed start fresh replayed =
      subst (IsReplayed start) (sym record_on-f) (replay-step start fresh replayed)

accept-IsReplayed :
    (checked at : ℕ) (event_id : String) (now : ℕ) (start i : Invite)
    → contains i.base.applied_event_ids event_id ≡ false
    → IsReplayed start i
    → IsReplayed start (accept checked at event_id now i).0
accept-IsReplayed checked at event_id now start i fresh h =
    let f = λ (b : BaseEntity InvitePayload). record i {
      base = b;
      status = "accepted";
      accepted_at = at;
    } in
    elim (Bool-cases (i.status == "pending")) [
      | inr over ↦
          let same : (accept checked at event_id now i).0 ≡ i =
            unfold accept in rw (over, accept) refl in
          subst (IsReplayed start) (sym same) h
      | inl pending ↦ elim (Bool-cases (is_expired checked i)) [
        | inl late ↦
            let same : (accept checked at event_id now i).0 ≡ i =
              unfold accept in rw (pending, accept) (rw late refl) in
            subst (IsReplayed start) (sym same) h
        | inr timely ↦
            let same : (accept checked at event_id now i).0
                ≡ (record_on event_id now (accepted at) (f i.base)).0 =
              unfold accept in rw (pending, accept) (rw timely refl) in
            subst (IsReplayed start) (sym same) (
              recorded-IsReplayed event_id now (accepted at) i f (λ b b'. refl)
                (λ b. unfold apply_payload in refl) start fresh h)
      ]
    ]

revoke-IsReplayed :
    (at : ℕ) (event_id : String) (now : ℕ) (start i : Invite)
    → contains i.base.applied_event_ids event_id ≡ false
    → IsReplayed start i
    → IsReplayed start (revoke at event_id now i).0
revoke-IsReplayed at event_id now start i fresh h =
    let f = λ (b : BaseEntity InvitePayload). record i { base = b; status = "revoked" } in
    elim (Bool-cases (i.status == "pending")) [
      | inr over ↦
          let same : (revoke at event_id now i).0 ≡ i = unfold revoke in rw (over, revoke) refl in
          subst (IsReplayed start) (sym same) h
      | inl pending ↦
          let same : (revoke at event_id now i).0
              ≡ (record_on event_id now (revoked at) (f i.base)).0 =
            unfold revoke in rw (pending, revoke) refl in
          subst (IsReplayed start) (sym same) (
            recorded-IsReplayed event_id now (revoked at) i f (λ b b'. refl)
              (λ b. unfold apply_payload in refl) start fresh h)
    ]

take_steps-IsReplayed :
    (steps : List InviteStep) (start i : Invite)
    → AllFresh steps i
    → IsReplayed start i
    → IsReplayed start (take_steps steps i)
unfolding take_steps take_step
take_steps-IsReplayed [] start i fresh h = h
take_steps-IsReplayed (accept_step checked at event_id now ∷ steps) start i fresh h =
    take_steps-IsReplayed steps start (accept checked at event_id now i).0 fresh.1
      (accept-IsReplayed checked at event_id now start i fresh.0 h)
take_steps-IsReplayed (revoke_step at event_id now ∷ steps) start i fresh h =
    take_steps-IsReplayed steps start (revoke at event_id now i).0 fresh.1
      (revoke-IsReplayed at event_id now start i fresh.0 h)

with_invite_valid :
    (id : String) (c : InviteCreated) (event_id : String) (now : ℕ)
    → check_created id c ≡ none
    → (with_invite id c event_id now (blank id)).0
      ≡ (record_on event_id now (created c) (set_created c (blank id))).0
unfolding with_invite
with_invite_valid id c event_id now valid = rw (valid, with_invite) refl

-- An invite that With made, after any accepted or refused calls of Accept and Revoke that draw new
-- event ids, is rebuilt exactly by ApplyEvent on its uncommitted events from an empty invite.
pub replay_invite-take_steps :
    (id : String) (c : InviteCreated) (event_id : String) (now : ℕ) (steps : List InviteStep)
    → check_created id c ≡ none
    → let made = (with_invite id c event_id now (blank id)).0 in
      AllFresh steps made
      → replay_invite (take_steps steps made).base.uncommitted_events (blank id)
        ≡ (clear_invite (take_steps steps made), none)
replay_invite-take_steps id c event_id now steps valid fresh =
    let f = λ (b : BaseEntity InvitePayload). record (set_created c (blank id)) { base = b } in
    let made : IsReplayed (blank id) (with_invite id c event_id now (blank id)).0 =
      subst (IsReplayed (blank id)) (sym (with_invite_valid id c event_id now valid)) (
        recorded-IsReplayed event_id now (created c) (blank id) f (λ b b'. refl)
          (λ b. unfold apply_payload in refl) (blank id) refl
          (unfold replay_invite clear_uncommitted_events in refl)) in
    take_steps-IsReplayed steps (blank id) (with_invite id c event_id now (blank id)).0 fresh made
