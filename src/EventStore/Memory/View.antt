-- ===== src/EventStore/Memory/View.antt =====
-- The log as the abstract view of a MemoryStore: what Append adds to it, and how the per-aggregate
-- lists, the index by id and the versions are projections of it.
use pericarp.Prelude.{
  String, ◌==◌, ◌≡◌, refl, sym, ◌∙◌, Option, none, some, List, [], ◌∷◌, ◌++◌, append-nil,
  append_assoc, arith, select, if◌then◌else◌,
}
use pericarp.Prelude.Int.{ℤ, pos, ◌+ℤ◌}
use pericarp.Prelude.Dict.{get, put, get-put, get_or}
use pericarp.Event.{Envelope}
use pericarp.EventStore.Memory.{MemoryStore, append_loop}

module _ {Any : Type 0} where
  -- The batch as it is stored: each event takes the next position.
  abbrev pub place : ℤ → List (Envelope Any Any) → List (Envelope Any Any)
  place p [] = []
  place p (event ∷ events) = record event { position = p +ℤ pos 1 } ∷ place (p +ℤ pos 1) events

  -- The position that the last event of a batch takes.
  abbrev pub head_after : ℤ → List (Envelope Any Any) → ℤ
  head_after p [] = p
  head_after p (event ∷ events) = head_after (p +ℤ pos 1) events

  abbrev pub of_aggregate : String → List (Envelope Any Any) → List (Envelope Any Any)
  of_aggregate a = select (λ event. event.aggregate_id == a)

  abbrev pub last_version : ℤ → List (Envelope Any Any) → ℤ
  last_version v [] = v
  last_version v (event ∷ events) = last_version event.sequence_no events

  -- The sequence number of the aggregate's last event in a log, 0 without one.
  abbrev pub version_in : String → List (Envelope Any Any) → ℤ
  version_in a log = last_version (pos 0) (of_aggregate a log)

  -- The last event of a log with the id.
  abbrev pub find_id : String → List (Envelope Any Any) → Option (Envelope Any Any)
  find_id i [] = none
  find_id i (event ∷ events) = elim (find_id i events) [
    | some later ↦ some later
    | none ↦ if event.id == i then some event else none
  ]

  -- Every other field of the store is a projection of its log.
  pub record IsView (m : MemoryStore Any) : Type 0 where
    pub by_aggregate : (a : String) → get_or m.events a [] ≡ of_aggregate a m.log
    pub by_version : (a : String) → get_or m.versions a (pos 0) ≡ version_in a m.log
    pub by_id : (i : String) → get m.events_by_id i ≡ find_id i m.log

module _ {Any : Type 0} where
  abbrev placed_by : Envelope Any Any → MemoryStore Any → Envelope Any Any
  placed_by e m = record e { position = m.last_pos +ℤ pos 1 }

  -- One round of the second loop.
  abbrev append_one : Envelope Any Any → MemoryStore Any → MemoryStore Any
  append_one e m = record m {
    last_pos = m.last_pos +ℤ pos 1;
    events_by_id = put m.events_by_id e.id (placed_by e m);
    log = m.log ++ placed_by e m ∷ [];
  }

  pub log-append_loop :
      (es : List (Envelope Any Any)) (m : MemoryStore Any) (l : List (Envelope Any Any))
      → (append_loop es m l).0.log ≡ m.log ++ place m.last_pos es
  unfolding append_loop
  log-append_loop [] m l = sym (append-nil _)
  log-append_loop (e ∷ es) m l =
      log-append_loop es (append_one e m) (l ++ placed_by e m ∷ [])
      ∙ append_assoc m.log (placed_by e m ∷ []) (place (append_one e m).last_pos es)

  pub list-append_loop :
      (es : List (Envelope Any Any)) (m : MemoryStore Any) (l : List (Envelope Any Any))
      → (append_loop es m l).1 ≡ l ++ place m.last_pos es
  unfolding append_loop
  list-append_loop [] m l = sym (append-nil _)
  list-append_loop (e ∷ es) m l =
      list-append_loop es (append_one e m) (l ++ placed_by e m ∷ [])
      ∙ append_assoc l (placed_by e m ∷ []) (place (append_one e m).last_pos es)

  pub head-append_loop :
      (es : List (Envelope Any Any)) (m : MemoryStore Any) (l : List (Envelope Any Any))
      → (append_loop es m l).0.last_pos ≡ head_after m.last_pos es
  unfolding append_loop
  head-append_loop [] m l = refl
  head-append_loop (e ∷ es) m l = head-append_loop es _ _

  pub events-append_loop :
      (es : List (Envelope Any Any)) (m : MemoryStore Any) (l : List (Envelope Any Any))
      → (append_loop es m l).0.events ≡ m.events
  unfolding append_loop
  events-append_loop [] m l = refl
  events-append_loop (e ∷ es) m l = events-append_loop es _ _

  pub versions-append_loop :
      (es : List (Envelope Any Any)) (m : MemoryStore Any) (l : List (Envelope Any Any))
      → (append_loop es m l).0.versions ≡ m.versions
  unfolding append_loop
  versions-append_loop [] m l = refl
  versions-append_loop (e ∷ es) m l = versions-append_loop es _ _

  find_id-snoc :
      (i : String) (log : List (Envelope Any Any)) (e : Envelope Any Any)
      → find_id i (log ++ e ∷ []) ≡ (if e.id == i then some e else find_id i log)
  find_id-snoc i [] e = refl
  find_id-snoc i (x ∷ log) e = ground (arith, find_id-snoc i log e)

  pub by_id-append_loop :
      (es : List (Envelope Any Any)) (m : MemoryStore Any) (l : List (Envelope Any Any))
      → ((i : String) → get m.events_by_id i ≡ find_id i m.log)
      → (i : String)
      → get (append_loop es m l).0.events_by_id i ≡ find_id i (append_loop es m l).0.log
  unfolding append_loop
  by_id-append_loop [] m l h i = h i
  by_id-append_loop (e ∷ es) m l h i =
      by_id-append_loop es (append_one e m) (l ++ placed_by e m ∷ [])
        (λ j. rw (get-put, find_id-snoc) (ground (arith, h j))) i
