-- ===== src/Entity/Record.antt =====
-- RecordEvent and its replay: a recorded stream applied again by ApplyEvent.
use pericarp.Prelude.{
  String, eq_iff, true, false, ◌≡◌, refl, ◌≢◌, ◌⊎◌, inl, inr, Option, none, some, List, [], ◌∷◌,
  ◌++◌, arith, contains, ℕ, All, Bool-cases, sym, ap, subst, eq_refl, ◌∙◌,
}
use pericarp.Prelude.Int.{ℤ, pos, ◌+ℤ◌, eqb_ℤ_refl}
use pericarp.Event.{Envelope, new_event_envelope}
use pericarp.Entity.{
  BaseEntity, wrong_aggregate, EntityError, apply_event, record_event, clear_uncommitted_events,
  restore_base_entity,
}

-- The arguments of one RecordEvent call, with the id and the time that its envelope gets.
pub record Draft (Any : Type 0) : Type 0 where
  pub id : String
  pub now : ℕ
  pub payload : Any
  pub event_type : String

module _ {Any : Type 0} where
  -- ApplyEvent on each event in turn, up to the first refusal.
  unfoldable pub replay :
      List (Envelope Any Any) → BaseEntity Any → BaseEntity Any × Option EntityError
  replay [] e = (e, none)
  replay (event ∷ events) e =
      let (e', error) = apply_event false event e in
      elim error [ none ↦ replay events e' | some x ↦ (e', some x) ]

  replay_snoc :
      (events : List (Envelope Any Any)) (last : Envelope Any Any) (e e' : BaseEntity Any)
      → replay events e ≡ (e', none)
      → replay (events ++ last ∷ []) e ≡ apply_event false last e'
  unfolding replay
  replay_snoc [] last e e' h = ground arith
  replay_snoc (event ∷ events) last e e' h =
      ground (arith, replay_snoc events last (apply_event false event e).0 e')

  -- The payload is no Event of another aggregate.
  abbrev pub IsOwn : (Any → Option String) → String → Any → Type 0
  IsOwn owner aggregate_id payload = (owner payload ≡ none) ⊎ (owner payload ≡ some aggregate_id)

  -- The uncommitted events of `e`, replayed from `start`, give `e` itself.
  abbrev pub IsReplayable : BaseEntity Any → BaseEntity Any → Type 0
  IsReplayable start e = replay e.uncommitted_events start ≡ (clear_uncommitted_events e, none)

module _ {Any : Type 0} (owner : Any → Option String) where
  abbrev pub record_draft : Draft Any → BaseEntity Any → BaseEntity Any
  record_draft d e = (record_event owner d.id d.now d.payload d.event_type e).0

  -- A run of RecordEvent calls; a refused call changes nothing.
  unfoldable pub record_all : List (Draft Any) → BaseEntity Any → BaseEntity Any
  record_all [] e = e
  record_all (d ∷ ds) e = record_all ds (record_draft d e)

  abbrev pub stamped : Draft Any → BaseEntity Any → Envelope Any Any
  stamped d e =
      new_event_envelope owner d.id d.now d.payload e.aggregate_id d.event_type
        (e.sequence_no +ℤ pos 1)

  -- RecordEvent and the replay of its envelope make the same step.
  pub apply-stamped :
      (d : Draft Any) (e : BaseEntity Any)
      → IsOwn owner e.aggregate_id d.payload
      → contains e.applied_event_ids d.id ≡ false
      → apply_event false (stamped d e) (clear_uncommitted_events e)
        ≡ (clear_uncommitted_events (record_draft d e), none)
  unfolding apply_event record_event new_event_envelope clear_uncommitted_events
  apply-stamped d e own fresh =
      ground (arith, eq_refl e.aggregate_id, eqb_ℤ_refl (e.sequence_no +ℤ pos 1), fresh)

  pub record_draft_seen :
      (d : Draft Any) (e : BaseEntity Any)
      → contains e.applied_event_ids d.id ≡ true
      → record_draft d e ≡ e
  unfolding record_event new_event_envelope
  record_draft_seen d e seen = ground arith

  pub uncommitted-record_draft :
      (d : Draft Any) (e : BaseEntity Any)
      → contains e.applied_event_ids d.id ≡ false
      → (record_draft d e).uncommitted_events ≡ e.uncommitted_events ++ stamped d e ∷ []
  unfolding record_event new_event_envelope
  uncommitted-record_draft d e fresh = ground arith

  aggregate_id-record_draft :
      (d : Draft Any) (e : BaseEntity Any) → (record_draft d e).aggregate_id ≡ e.aggregate_id
  unfolding record_event
  aggregate_id-record_draft d e = ground arith

  record_draft-IsReplayable :
      (d : Draft Any) (start e : BaseEntity Any)
      → IsOwn owner e.aggregate_id d.payload
      → IsReplayable start e
      → IsReplayable start (record_draft d e)
  record_draft-IsReplayable d start e own h =
      elim (Bool-cases (contains e.applied_event_ids d.id)) [
        | inl seen ↦ subst (IsReplayable start) (sym (record_draft_seen d e seen)) h
        | inr fresh ↦
            ap (λ events. replay events start) (uncommitted-record_draft d e fresh)
            ∙ replay_snoc e.uncommitted_events (stamped d e) start (clear_uncommitted_events e) h
            ∙ apply-stamped d e own fresh
      ]

  record_all-IsReplayable :
      (ds : List (Draft Any)) (start e : BaseEntity Any)
      → All (λ d. IsOwn owner e.aggregate_id d.payload) ds
      → IsReplayable start e
      → IsReplayable start (record_all ds e)
  unfolding record_all
  record_all-IsReplayable [] start e own h = h
  record_all-IsReplayable (d ∷ ds) start e own h =
      record_all-IsReplayable ds start (record_draft d e) (rw (aggregate_id-record_draft d e) own.1)
        (record_draft-IsReplayable d start e own.0 h)

  -- Whatever is recorded on an entity that starts with nothing uncommitted, a replay of its
  -- uncommitted events on the starting entity is accepted event by event and ends in the same
  -- aggregate id, sequence number and applied ids, provided that no payload names another aggregate.
  pub replay-record_all :
      (ds : List (Draft Any)) (aggregate_id : String) (sequence_no : ℤ)
      → All (λ d. IsOwn owner aggregate_id d.payload) ds
      → let e = record_all ds (restore_base_entity aggregate_id sequence_no) in
        replay e.uncommitted_events (restore_base_entity aggregate_id sequence_no)
        ≡ (clear_uncommitted_events e, none)
  replay-record_all ds aggregate_id sequence_no own =
      let start = restore_base_entity aggregate_id sequence_no in
      record_all-IsReplayable ds start start own (unfold replay clear_uncommitted_events in refl)

  -- An envelope that RecordEvent made for a payload of another aggregate is refused by the replay
  -- on the entity that recorded it.
  pub replay_foreign :
      (d : Draft Any) (aggregate_id other : String) (sequence_no : ℤ)
      → owner d.payload ≡ some other
      → other ≢ aggregate_id
      → let start = restore_base_entity aggregate_id sequence_no in
        replay (record_draft d start).uncommitted_events start ≡ (start, some wrong_aggregate)
  unfolding record_event new_event_envelope apply_event replay
  replay_foreign d aggregate_id other sequence_no own ne = ground (arith, eq_iff other aggregate_id)
