-- ===== src/Auth/InviteService/Chain.antt =====
-- What a call of the invite service that answers says of its parts, and how far its writes go
-- (invite_service.go).
use pericarp.Prelude.{
  String, ℕ, Bool, true, false, ◌≡◌, refl, ap, sym, ◌∙◌, Option, Option-cases, none, some, List, [],
  ◌∷◌, ◌++◌, inl, inr, arith,
}
use pericarp.Event.{new_event_envelope}
use pericarp.Entity.{record_event}
use pericarp.Auth.Aggregate.{
  Aggregate, Decision, Failure, refuse, keep, silent, emit, record_on, execute,
}
use pericarp.Auth.Authorization.{Answer, ok, err}
use pericarp.Auth.InviteService.{
  ◌>>=◌, refuse_if, wrapped, present, settled, Write, accept_writes, run_writes,
}

-- A chain that answers goes through its first call.
pub chain-ok :
    {E A B : Type 0} (call : Answer E A) (next_call : A → Answer E B) {b : B}
    → (call >>= next_call) ≡ ok b
    → (a : A) × (call ≡ ok a) × (next_call a ≡ ok b)
chain-ok (err failure) next_call answers = cc answers
chain-ok (ok value) next_call answers = (value, refl, answers)

pub refuse_if-ok : {E : Type 0} (b : Bool) (e : E) (u : Unit {0}) → refuse_if b e ≡ ok u → b ≡ false
refuse_if-ok true e u h = cc h
refuse_if-ok false e u h = refl

pub wrapped-ok :
    {E F A : Type 0} (wrap : F → E) (m : Answer F A) (a : A) → wrapped wrap m ≡ ok a → m ≡ ok a
wrapped-ok wrap (ok b) a h = ap (λ m. elim m [ ok x ↦ ok x | err _ ↦ ok b ]) h
wrapped-ok wrap (err e) a h = cc h

pub present-ok : {E A : Type 0} (e : E) (o : Option A) (a : A) → present e o ≡ ok a → o ≡ some a
present-ok e none a h = cc h
present-ok e (some b) a h = ap (λ m. elim m [ ok x ↦ some x | err _ ↦ some b ]) h

pub settled-ok :
    {E F A : Type 0} (wrap : F → E) (p : A × Option F) (a : A)
    → settled wrap p ≡ ok a
    → p ≡ (a, none)
settled-ok wrap (b, none) a h = ap (λ m. elim m [ ok x ↦ (x, none) | err _ ↦ (b, none) ]) h
settled-ok wrap (b, some e) a h = cc h

execute-id :
    {P S : Type 0} (event_type_of : P → String) (d : Decision P S) (event_id : String) (now : ℕ)
    (a : Aggregate P S)
    → (execute event_type_of d event_id now a).0.base.aggregate_id ≡ a.base.aggregate_id
unfolding execute record_on record_event new_event_envelope
execute-id event_type_of (refuse e) event_id now a = refl
execute-id event_type_of keep event_id now a = refl
execute-id event_type_of (silent state) event_id now a = refl
execute-id event_type_of (emit payload state) event_id now a = ground arith

-- A method that answers has kept the aggregate's id.
pub settled-id :
    {E P S : Type 0} (wrap : Failure → E) (event_type_of : P → String) (d : Decision P S)
    (event_id : String) (now : ℕ) (a b : Aggregate P S)
    → settled wrap (execute event_type_of d event_id now a) ≡ ok b
    → b.base.aggregate_id ≡ a.base.aggregate_id
settled-id wrap event_type_of d event_id now a b h =
    sym (
      ap (λ p. p.0.base.aggregate_id)
        (settled-ok wrap (execute event_type_of d event_id now a) b h))
    ∙ execute-id event_type_of d event_id now a

pub first_write :
    (has_store : Bool)
    → (w : Write) × (rest : List Write) × ([] ++ w ∷ rest ≡ accept_writes has_store)
first_write true = (_, _, refl)
first_write false = (_, _, refl)

pub run_writes-done :
    {E : Type 0} (write : Write → Option E) (ws : List Write)
    → (run_writes write ws).1 ≡ none
    → (run_writes write ws).0 ≡ ws
unfolding run_writes
run_writes-done write [] works = refl
run_writes-done write (w ∷ ws) works = elim (Option-cases (write w)) [
  | inr (e, broken) ↦ ground (arith, broken, works)
  | inl fine ↦
      rw (fine, run_writes)
        (ap (λ l. w ∷ l) (run_writes-done write ws (ground (arith, fine, works))))
]

pub run_writes-stopped :
    {E : Type 0} (write : Write → Option E) (ws : List Write) (e : E)
    → (run_writes write ws).1 ≡ some e
    → (w : Write) × (rest : List Write) × ((run_writes write ws).0 ++ w ∷ rest ≡ ws)
unfolding run_writes
run_writes-stopped write [] e stops = cc stops
run_writes-stopped write (w ∷ ws) e stops = elim (Option-cases (write w)) [
  | inr (e', broken) ↦ rw (broken, run_writes) (w, ws, refl)
  | inl fine ↦
      let (w', rest, all) = run_writes-stopped write ws e (ground (arith, fine, stops)) in
      rw (fine, run_writes) (w', rest, ap (λ l. w ∷ l) all)
]
