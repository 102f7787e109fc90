-- ===== src/Entity/Apply.antt =====
-- What ApplyEvent accepts, and what it changes.
use pericarp.Prelude.{eq_iff, Bool, false, ◌≡◌, none, some, ◌↔◌, ◌∷◌, arith, contains}
use pericarp.Prelude.Int.{pos, ◌+ℤ◌, eqb_ℤ→eq, eqb_ℤ_refl}
use pericarp.Event.{Envelope}
use pericarp.Entity.{BaseEntity, EntityError, apply_event}

-- The conditions under which an event is the next one of an aggregate.
pub record IsNext {Any : Type 0} (event : Envelope Any Any) (e : BaseEntity Any) : Type 0 where
  pub same_aggregate : event.aggregate_id ≡ e.aggregate_id
  pub unseen : contains e.applied_event_ids event.id ≡ false
  pub in_sequence : event.sequence_no ≡ e.sequence_no +ℤ pos 1

module _ {Any : Type 0} (event : Envelope Any Any) (e : BaseEntity Any) where
  accepted_of_next : IsNext event e → (apply_event false event e).1 ≡ none
  unfolding apply_event
  accepted_of_next h = ground (
    arith,
    eq_iff event.aggregate_id e.aggregate_id,
    h.same_aggregate,
    h.unseen,
    h.in_sequence,
    eqb_ℤ_refl event.sequence_no,
  )

  accepted-IsNext : (apply_event false event e).1 ≡ none → IsNext event e
  unfolding apply_event
  accepted-IsNext h = record {
    same_aggregate = ground (arith, eq_iff event.aggregate_id e.aggregate_id);
    unseen = ground arith;
    in_sequence = ground (arith, eqb_ℤ→eq event.sequence_no (e.sequence_no +ℤ pos 1));
  }

  -- ApplyEvent, while its context is not cancelled, accepts an event exactly when it is of the
  -- entity's aggregate, was not applied before and carries the next sequence number.
  pub apply_event_accepts : ((apply_event false event e).1 ≡ none) ↔ IsNext event e
  apply_event_accepts = (accepted-IsNext, accepted_of_next)

  -- A refused ApplyEvent leaves the entity as it was.
  pub apply_event_error_unchanged :
      (cancelled : Bool) {x : EntityError}
      → (apply_event cancelled event e).1 ≡ some x
      → (apply_event cancelled event e).0 ≡ e
  unfolding apply_event
  apply_event_error_unchanged cancelled h = ground arith

  pub apply_event_state :
      IsNext event e
      → (apply_event false event e).0 ≡ record e {
        applied_event_ids = event.id ∷ e.applied_event_ids;
        sequence_no = event.sequence_no;
      }
  unfolding apply_event
  apply_event_state h = ground (
    arith,
    eq_iff event.aggregate_id e.aggregate_id,
    h.same_aggregate,
    h.unseen,
    h.in_sequence,
    eqb_ℤ_refl event.sequence_no,
  )
