-- ===== src/Auth/Aggregate/Replay.antt =====
-- The replay of an aggregate from its events, up to a view of its fields: what the view forgets is
-- what the events do not carry.
use pericarp.Prelude.{
  String, Bool, true, false, ◌≡◌, refl, ℕ, Option, none, some, List, [], ◌∷◌, ◌++◌, arith, contains,
  sym, ap, if◌then◌else◌, subst, ◌∙◌, inl,
}
use pericarp.Event.{Envelope, new_event_envelope}
use pericarp.Entity.{BaseEntity, new_base_entity, clear_uncommitted_events}
use pericarp.Entity.Record.{Draft, record_draft, stamped, uncommitted-record_draft, apply-stamped}
use pericarp.Auth.Aggregate.{
  Aggregate, Decision, refuse, keep, silent, emit, Failure, no_owner, record_on, execute, create,
  applied_to, apply, require,
}

applied_to_evolved :
    {P S : Type 0} (evolve : P → S → Option S) (payload : P) (r r' : S) {base : BaseEntity P}
    → evolve payload r ≡ some r'
    → applied_to evolve payload r (base, none) ≡ (record { base = base; state = r' }, none)
unfolding applied_to
applied_to_evolved evolve payload r r' evolved = rw (evolved, applied_to) refl

module _ {P S V : Type 0} (evolve : P → S → Option S) (view : S → V) where
  -- ApplyEvent on each event in turn, up to the first refusal.
  unfoldable pub replay_all : List (Envelope P P) → Aggregate P S → Aggregate P S × Option Failure
  replay_all [] a = (a, none)
  replay_all (event ∷ events) a =
      let (a', error) = apply evolve false event a in
      elim error [ none ↦ replay_all events a' | some x ↦ (a', some x) ]

  -- The uncommitted events of `a`, replayed from `start`, are all accepted and give the entity of
  -- `a` and its fields as far as they are seen.
  pub record IsRebuilt (start a : Aggregate P S) : Type 0 where
    pub rebuilt : S
    pub replayed :
        replay_all a.base.uncommitted_events start
        ≡ (record { base = clear_uncommitted_events a.base; state = rebuilt }, none)
    pub seen : view rebuilt ≡ view a.state

  -- The payload carries the change of the fields from `s` to `s'`, as far as they are seen.
  abbrev pub Carries : P → S → S → Type 0
  Carries payload s s' =
      (r : S) → view r ≡ view s → (r' : S) × (evolve payload r ≡ some r') × (view r' ≡ view s')

  -- What a method decides is carried by its event.
  abbrev pub IsCarried : S → Decision P S → Type 0
  IsCarried s (refuse e) = Unit {0}
  IsCarried s keep = Unit {0}
  IsCarried s (silent s') = view s' ≡ view s
  IsCarried s (emit payload s') = Carries payload s s'

  -- A method that branches.
  pub IsCarried-if :
      (b : Bool) (s : S) (d e : Decision P S)
      → IsCarried s d
      → IsCarried s e
      → IsCarried s (if b then d else e)
  IsCarried-if true s d e hd he = hd
  IsCarried-if false s d e hd he = he

  pub IsCarried-require :
      (checks : List (Bool × String)) (s : S) (d : Decision P S)
      → IsCarried s d
      → IsCarried s (require checks d)
  IsCarried-require [] s d h = h
  IsCarried-require ((wrong, error) ∷ checks) s d h =
      IsCarried-if wrong s (refuse error) (require checks d) tt (IsCarried-require checks s d h)

  replay_all_snoc :
      (events : List (Envelope P P)) (last : Envelope P P) (a a' : Aggregate P S)
      → replay_all events a ≡ (a', none)
      → replay_all (events ++ last ∷ []) a ≡ apply evolve false last a'
  unfolding replay_all
  replay_all_snoc [] last a a' h = ground arith
  replay_all_snoc (event ∷ events) last a a' h =
      ground (arith, replay_all_snoc events last (apply evolve false event a).0 a')

  module _ (event_type_of : P → String) where
    abbrev draft : String → ℕ → P → Draft P
    draft event_id now payload = record {
      id = event_id;
      now = now;
      payload = payload;
      event_type = event_type_of payload;
    }

    state-record_on :
        (event_id : String) (now : ℕ) (payload : P) (s' : S) (a : Aggregate P S)
        → (record_on event_type_of event_id now payload s' a).0
          ≡ record { base = record_draft no_owner (draft event_id now payload) a.base; state = s' }
    unfolding record_on
    state-record_on event_id now payload s' a = refl

    apply-stamped_event :
        (event_id : String) (now : ℕ) (payload : P) (a : Aggregate P S) (r r' : S)
        → contains a.base.applied_event_ids event_id ≡ false
        → evolve payload r ≡ some r'
        → apply evolve false
            (stamped no_owner (draft event_id now payload) a.base)
            (record { base = clear_uncommitted_events a.base; state = r })
          ≡ (
            record {
              base =
                  clear_uncommitted_events
                    (record_draft no_owner (draft event_id now payload) a.base);
              state = r';
            },
            none,
          )
    unfolding apply new_event_envelope
    apply-stamped_event event_id now payload a r r' fresh evolved =
        let same = apply-stamped no_owner (draft event_id now payload) a.base (inl refl) fresh in
        ap (applied_to evolve payload r) same ∙ applied_to_evolved evolve payload r r' evolved

    record_on-IsRebuilt :
        (event_id : String) (now : ℕ) (payload : P) (s' : S) (start a : Aggregate P S)
        → contains a.base.applied_event_ids event_id ≡ false
        → Carries payload a.state s'
        → IsRebuilt start a
        → IsRebuilt start (record_on event_type_of event_id now payload s' a).0
    record_on-IsRebuilt event_id now payload s' start a fresh carried h =
        let d = draft event_id now payload in
        let (r', evolved, seen) = carried h.rebuilt h.seen in
        subst (IsRebuilt start) (sym (state-record_on event_id now payload s' a)) (record {
          rebuilt = r';
          replayed =
              ap (λ es. replay_all es start) (uncommitted-record_draft no_owner d a.base fresh)
              ∙ replay_all_snoc a.base.uncommitted_events (stamped no_owner d a.base) start
                  (record { base = clear_uncommitted_events a.base; state = h.rebuilt }) h.replayed
              ∙ apply-stamped_event event_id now payload a h.rebuilt r' fresh evolved;
          seen = seen;
        })

    execute-IsRebuilt :
        (d : Decision P S) (event_id : String) (now : ℕ) (start a : Aggregate P S)
        → contains a.base.applied_event_ids event_id ≡ false
        → IsCarried a.state d
        → IsRebuilt start a
        → IsRebuilt start (execute event_type_of d event_id now a).0
    unfolding execute
    execute-IsRebuilt (refuse e) event_id now start a fresh carried h = h
    execute-IsRebuilt keep event_id now start a fresh carried h = h
    execute-IsRebuilt (silent s') event_id now start a fresh carried h = record {
      rebuilt = h.rebuilt;
      replayed = h.replayed;
      seen = h.seen ∙ sym carried;
    }
    execute-IsRebuilt (emit payload s') event_id now start a fresh carried h =
        record_on-IsRebuilt event_id now payload s' start a fresh carried h

    pub create-decision-IsRebuilt :
        (id : String) (d : Decision P S) (s : S) (event_id : String) (now : ℕ)
        → IsCarried s d
        → let start : Aggregate P S = record { base = new_base_entity id; state = s } in
          IsRebuilt start (create event_type_of id d event_id now start).0
    unfolding create replay_all clear_uncommitted_events
    create-decision-IsRebuilt id (refuse e) s event_id now made = record {
      rebuilt = s;
      replayed = refl;
      seen = refl;
    }
    create-decision-IsRebuilt id keep s event_id now made = record {
      rebuilt = s;
      replayed = refl;
      seen = refl;
    }
    create-decision-IsRebuilt id (silent s') s event_id now made = record {
      rebuilt = s;
      replayed = refl;
      seen = sym made;
    }
    create-decision-IsRebuilt id (emit payload s') s event_id now made =
        let start : Aggregate P S = record { base = new_base_entity id; state = s } in
        record_on-IsRebuilt event_id now payload s' start start refl made
          (record { rebuilt = s; replayed = refl; seen = refl })

-- A call of one of the methods `M`, with the id and the time of the event that it may record.
pub record Call (M : Type 0) : Type 0 where
  pub method : M
  pub event_id : String
  pub now : ℕ

-- `act` is what a method decides from the aggregate's id and fields.
module _ {P S M : Type 0} (event_type_of : P → String) (act : M → String → S → Decision P S) where
  abbrev pub call : Call M → Aggregate P S → Aggregate P S × Option Failure
  call c a = execute event_type_of (act c.method a.base.aggregate_id a.state) c.event_id c.now a

  -- The calls one after the other, whether they are refused or not.
  unfoldable pub run : List (Call M) → Aggregate P S → Aggregate P S
  run [] a = a
  run (c ∷ cs) a = run cs (call c a).0

  -- Each call draws a new event id.
  abbrev pub AllFresh : List (Call M) → Aggregate P S → Type 0
  AllFresh [] a = Unit {0}
  AllFresh (c ∷ cs) a =
      (contains a.base.applied_event_ids c.event_id ≡ false) × AllFresh cs (call c a).0

  module _ {V : Type 0} (evolve : P → S → Option S) (view : S → V)
      (carried : (m : M) (id : String) (s : S) → IsCarried evolve view s (act m id s)) where
    run-IsRebuilt :
        (cs : List (Call M)) (start a : Aggregate P S)
        → AllFresh cs a
        → IsRebuilt evolve view start a
        → IsRebuilt evolve view start (run cs a)
    unfolding run
    run-IsRebuilt [] start a fresh h = h
    run-IsRebuilt (c ∷ cs) start a fresh h = run-IsRebuilt cs start (call c a).0 fresh.1 (
        execute-IsRebuilt evolve view event_type_of (act c.method a.base.aggregate_id a.state)
          c.event_id c.now start a fresh.0 (carried c.method a.base.aggregate_id a.state) h)

    -- What a With method made, and every run of calls behind it, is rebuilt from its events on a
    -- new entity with the fields `s`.
    pub create-IsRebuilt :
        (id : String) (d : Decision P S) (s : S) (event_id : String) (now : ℕ) (cs : List (Call M))
        → IsCarried evolve view s d
        → let start : Aggregate P S = record { base = new_base_entity id; state = s } in
          let made = (create event_type_of id d event_id now start).0 in
          AllFresh cs made → IsRebuilt evolve view start (run cs made)
    create-IsRebuilt id d s event_id now cs made fresh =
        let start : Aggregate P S = record { base = new_base_entity id; state = s } in
        run-IsRebuilt cs start (create event_type_of id d event_id now start).0 fresh
          (create-decision-IsRebuilt evolve view event_type_of id d s event_id now made)
