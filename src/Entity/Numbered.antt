-- ===== src/Entity/Numbered.antt =====
-- The sequence numbers that RecordEvent gives (pkg/ddd/entity.go).
use pericarp.Prelude.{
  String, ◌≡◌, false, inl, inr, Option, List, [], ◌∷◌, ◌++◌, arith, contains, ℕ, ◌+◌, ◌<◌, ◌≤◌, ◌^◌,
  length, length-append, Bool-cases, sym, subst,
}
use pericarp.Prelude.Int.{pos, step_pos}
use pericarp.Event.{Envelope, new_event_envelope}
use pericarp.Entity.{BaseEntity, record_event, restore_base_entity}
use pericarp.Entity.Record.{
  Draft, record_all, record_draft, record_draft_seen, uncommitted-record_draft, stamped,
}

module _ {Any : Type 0} where
  -- The events carry the numbers base + 1, base + 2 and so on.
  abbrev pub IsRun : ℕ → List (Envelope Any Any) → Type 0
  IsRun base [] = Unit
  IsRun base (event ∷ events) = (event.sequence_no ≡ pos (base + 1)) × IsRun (base + 1) events

  IsRun-snoc :
      (base : ℕ) (events : List (Envelope Any Any)) (last : Envelope Any Any)
      → IsRun base events
      → last.sequence_no ≡ pos (base + length events + 1)
      → IsRun base (events ++ last ∷ [])
  IsRun-snoc base [] last h e = (ground arith, tt)
  IsRun-snoc base (event ∷ events) last h e =
      (h.0, IsRun-snoc (base + 1) events last h.1 (ground arith))

  pub record IsNumbered (base : ℕ) (e : BaseEntity Any) : Type 0 where
    pub run : IsRun base e.uncommitted_events
    pub last : e.sequence_no ≡ pos (base + length e.uncommitted_events)

module _ {Any : Type 0} (owner : Any → Option String) where
  record_draft-fresh-IsNumbered :
      (d : Draft Any) (base : ℕ) (e : BaseEntity Any)
      → base + length e.uncommitted_events + 1 < 2 ^ 63
      → contains e.applied_event_ids d.id ≡ false
      → IsNumbered base e
      → IsNumbered base (record_draft owner d e)
  record_draft-fresh-IsNumbered d base e room fresh h =
      let next = stamped owner d e in
      record {
        run = rw (uncommitted-record_draft owner d e fresh) (
            IsRun-snoc base e.uncommitted_events next h.run (
              unfold new_event_envelope in
              ground (arith, h.last, step_pos (base + length e.uncommitted_events))));
        last =
            unfold record_event new_event_envelope in
            ground (
              arith,
              h.last,
              step_pos (base + length e.uncommitted_events),
              length-append e.uncommitted_events (next ∷ []),
            );
      }

  record_draft-IsNumbered :
      (d : Draft Any) (base : ℕ) (e : BaseEntity Any)
      → base + length e.uncommitted_events + 1 < 2 ^ 63
      → IsNumbered base e
      → IsNumbered base (record_draft owner d e)
  record_draft-IsNumbered d base e room h = elim (Bool-cases (contains e.applied_event_ids d.id)) [
    | inl seen ↦ subst (IsNumbered base) (sym (record_draft_seen owner d e seen)) h
    | inr fresh ↦ record_draft-fresh-IsNumbered d base e room fresh h
  ]

  length-record_draft :
      (d : Draft Any) (e : BaseEntity Any)
      → length (record_draft owner d e).uncommitted_events ≤ length e.uncommitted_events + 1
  unfolding record_event
  length-record_draft d e =
      ground (arith, length-append e.uncommitted_events (stamped owner d e ∷ []))

  record_all-IsNumbered :
      (ds : List (Draft Any)) (base : ℕ) (e : BaseEntity Any)
      → base + length e.uncommitted_events + length ds < 2 ^ 63
      → IsNumbered base e
      → IsNumbered base (record_all owner ds e)
  unfolding record_all
  record_all-IsNumbered [] base e room h = h
  record_all-IsNumbered (d ∷ ds) base e room h =
      record_all-IsNumbered ds base (record_draft owner d e)
        (omega (arith, length-record_draft d e)) (record_draft-IsNumbered d base e (omega arith) h)

  -- Events recorded on an entity at version base, fewer than reach 2^63, are numbered base + 1,
  -- base + 2 and so on, and the entity's sequence number is base plus their number.
  pub record_all-numbers :
      (ds : List (Draft Any)) (aggregate_id : String) (base : ℕ)
      → base + length ds < 2 ^ 63
      → IsNumbered base (record_all owner ds (restore_base_entity aggregate_id (pos base)))
  record_all-numbers ds aggregate_id base room =
      record_all-IsNumbered ds base (restore_base_entity aggregate_id (pos base)) (omega arith)
        (record { run = tt; last = ground arith })
