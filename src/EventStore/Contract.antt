-- ===== src/EventStore/Contract.antt =====
-- The part of the EventStore interface (pkg/eventsourcing/domain/eventstore.go) that the unit of
-- work and the subscribers call, with the promises that they rely on.
use pericarp.Prelude.{String, ◌≡◌, Option, none, some, List, [], ◌∷◌, ◌++◌, map}
use pericarp.Prelude.Int.{ℤ, pos}
use pericarp.Event.{Envelope, StoreError}

-- An envelope before the store gives it a position.
abbrev pub unplaced : {Any : Type 0} → Envelope Any Any → Envelope Any Any
unplaced event = record event { position = pos 0 }

-- The position of the last event, or `p` without one.
abbrev pub last_position : {Any : Type 0} → ℤ → List (Envelope Any Any) → ℤ
last_position p [] = p
last_position p (x ∷ xs) = last_position x.position xs

pub record EventStore (Any : Type 0) : Type 1 where
  pub Store : Type 0
  -- what the store's operations keep
  pub IsSound : Store → Type 0
  -- everything that was appended, in commit order
  pub contents : Store → List (Envelope Any Any)
  pub append : String → ℤ → List (Envelope Any Any) → Store → Store × Option StoreError
  pub read_after : ℤ → ℤ → Store → List (Envelope Any Any)
  pub append_failed :
      (a : String) (v : ℤ) (es : List (Envelope Any Any)) (s : Store) (x : StoreError)
      → (append a v es s).1 ≡ some x
      → (append a v es s).0 ≡ s
  pub append_stored :
      (a : String) (v : ℤ) (es : List (Envelope Any Any)) (s : Store)
      → (append a v es s).1 ≡ none
      → map unplaced (contents (append a v es s).0) ≡ map unplaced (contents s) ++ map unplaced es
  pub read_resumes :
      (p limit : ℤ) (s : Store) (x : Envelope Any Any) (xs : List (Envelope Any Any))
      → IsSound s
      → read_after p limit s ≡ x ∷ xs
      → (x ∷ xs) ++ read_after (last_position p (x ∷ xs)) (pos 0) s ≡ read_after p (pos 0) s
  pub read_empty :
      (p limit : ℤ) (s : Store) → read_after p limit s ≡ [] → read_after p (pos 0) s ≡ []
