-- ===== src/EventStore/Memory.antt =====
-- pkg/eventsourcing/infrastructure/memory_store.go: MemoryStore. The RWMutex makes each method one
-- atomic step. A method that writes returns the new store and its error.
pub mod View
pub mod Append
pub mod Feed
pub mod ReadAfter
pub mod Concurrency
pub mod Range
pub mod Implements
use Prim.Native.String.{compare}
use Prim.Native.Nat.{Ordering}
use pericarp.Prelude.{
  String, ◌==◌, Bool, true, false, not, ◌&&◌, ◌||◌, ℕ, zero, suc, Option, none, some, List, [], ◌∷◌,
  ◌++◌, map, select, last_or, if◌then◌else◌,
}
use pericarp.Prelude.Int.{ℤ, pos, negsuc, eqb_ℤ, ltb_ℤ, leb_ℤ, ◌+ℤ◌}
use pericarp.Prelude.Dict.{Dict, get, put, get_or, keys}
use pericarp.Event.{Envelope, StoreError, invalid_event, concurrency_conflict, event_not_found}

pub record MemoryStore (Any : Type 0) : Type 0 where
  pub events : Dict (List (Envelope Any Any))
  pub events_by_id : Dict (Envelope Any Any)
  pub versions : Dict ℤ
  pub log : List (Envelope Any Any)
  pub last_pos : ℤ

-- `err` beside the value that a failed read returns.
pub data Reply (A : Type 0) : Type 0 where
  ok : A → Reply A
  err : StoreError → Reply A

-- cmp.Compare on the aggregate id, then on the sequence number (compareEnvelopes in convert.go).
unfoldable pub compare_envelopes : {Any : Type 0} → Envelope Any Any → Envelope Any Any → Ordering
compare_envelopes a b = elim (compare a.aggregate_id b.aggregate_id) [
  | Ordering.eq ↦
      if ltb_ℤ a.sequence_no b.sequence_no
      then Ordering.lt
      else if ltb_ℤ b.sequence_no a.sequence_no
      then Ordering.gt
      else Ordering.eq
  | Ordering.lt ↦ Ordering.lt
  | Ordering.gt ↦ Ordering.gt
]

-- slices.SortFunc and sort.Strings, as insertion by the comparison.
unfoldable pub insert_by : {A : Type 0} → (A → A → Ordering) → A → List A → List A
insert_by cmp x [] = x ∷ []
insert_by cmp x (y ∷ ys) = elim (cmp x y) [
  | Ordering.gt ↦ y ∷ insert_by cmp x ys
  | Ordering.lt ↦ x ∷ y ∷ ys
  | Ordering.eq ↦ x ∷ y ∷ ys
]

unfoldable pub sort_by : {A : Type 0} → (A → A → Ordering) → List A → List A
unfolding insert_by
sort_by cmp [] = []
sort_by cmp (x ∷ xs) = insert_by cmp x (sort_by cmp xs)

module _ {Any : Type 0} where
  -- NewMemoryStore
  abbrev pub new_memory_store : MemoryStore Any
  new_memory_store = record {
    events = [];
    events_by_id = [];
    versions = [];
    log = [];
    last_pos = pos 0;
  }

  -- The first loop of Append: every event is of this aggregate and has an id.
  unfoldable pub is_valid_batch : String → List (Envelope Any Any) → Bool
  is_valid_batch aggregate_id [] = true
  is_valid_batch aggregate_id (event ∷ events) =
      if not (event.aggregate_id == aggregate_id)
      then false
      else if event.id == ""
      then false
      else is_valid_batch aggregate_id events

  -- The second loop of Append, over the store's log, position and index, and the event list.
  unfoldable pub append_loop :
      List (Envelope Any Any)
      → MemoryStore Any
      → List (Envelope Any Any)
      → MemoryStore Any × List (Envelope Any Any)
  append_loop [] m event_list = (m, event_list)
  append_loop (event ∷ events) m event_list =
      let last_pos = m.last_pos +ℤ pos 1 in
      let placed = record event { position = last_pos } in
      append_loop events
        (record m {
          last_pos = last_pos;
          events_by_id = put m.events_by_id event.id placed;
          log = m.log ++ placed ∷ [];
        })
        (event_list ++ placed ∷ [])

  -- Append past its validation, on a batch that is not empty: its first event and the others.
  unfoldable pub append_checked :
      String
      → ℤ
      → Envelope Any Any
      → List (Envelope Any Any)
      → MemoryStore Any
      → MemoryStore Any × Option StoreError
  unfolding append_loop
  append_checked aggregate_id expected_version first rest m =
      if not (eqb_ℤ expected_version (negsuc 0))
        && not (eqb_ℤ (get_or m.versions aggregate_id (pos 0)) expected_version)
      then (m, some concurrency_conflict)
      else let (m', event_list) = append_loop (first ∷ rest) m (get_or m.events aggregate_id []) in
        (
          record m' {
            events = put m'.events aggregate_id event_list;
            versions = put m'.versions aggregate_id (last_or first rest).sequence_no;
          },
          none,
        )

  -- Append
  unfoldable pub append :
      String → ℤ → List (Envelope Any Any) → MemoryStore Any → MemoryStore Any × Option StoreError
  unfolding is_valid_batch append_checked
  append aggregate_id expected_version [] m = (m, none)
  append aggregate_id expected_version (first ∷ rest) m =
      if not (is_valid_batch aggregate_id (first ∷ rest))
      then (m, some invalid_event)
      else append_checked aggregate_id expected_version first rest m

  -- GetEvents
  unfoldable pub get_events : String → MemoryStore Any → List (Envelope Any Any)
  get_events aggregate_id m = get_or m.events aggregate_id []

  -- GetEventsFromVersion
  unfoldable pub get_events_from_version : String → ℤ → MemoryStore Any → List (Envelope Any Any)
  get_events_from_version aggregate_id from_version m =
      select (λ event. leb_ℤ from_version event.sequence_no) (get_or m.events aggregate_id [])

  -- The loop of GetEventsRange, with its `continue` and its `break`.
  unfoldable pub range_loop : ℤ → ℤ → List (Envelope Any Any) → List (Envelope Any Any)
  range_loop from_version to_version [] = []
  range_loop from_version to_version (event ∷ events) =
      let rest = range_loop from_version to_version events in
      if ltb_ℤ event.sequence_no from_version
      then rest
      else if not (eqb_ℤ to_version (negsuc 0)) && ltb_ℤ to_version event.sequence_no
      then []
      else event ∷ rest

  -- GetEventsRange
  unfoldable pub get_events_range : String → ℤ → ℤ → MemoryStore Any → List (Envelope Any Any)
  unfolding range_loop
  get_events_range aggregate_id from_version to_version m =
      range_loop (if eqb_ℤ from_version (negsuc 0) then pos 1 else from_version) to_version
        (get_or m.events aggregate_id [])

  -- GetEventByID
  unfoldable pub get_event_by_id : String → MemoryStore Any → Reply (Envelope Any Any)
  get_event_by_id event_id m = elim (get m.events_by_id event_id) [
    | none ↦ err event_not_found
    | some event ↦ ok event
  ]

  -- The events of all aggregates with the transaction id, as the two loops collect them.
  collect_transaction : String → Dict (List (Envelope Any Any)) → List (Envelope Any Any)
  collect_transaction transaction_id [] = []
  collect_transaction transaction_id ((aggregate_id, events) ∷ rest) =
      select (λ event. event.transaction_id == transaction_id) events
      ++ collect_transaction transaction_id rest

  -- GetEventsByTransactionID
  unfoldable pub get_events_by_transaction_id :
      String → MemoryStore Any → Reply (List (Envelope Any Any))
  unfolding collect_transaction sort_by compare_envelopes
  get_events_by_transaction_id transaction_id m =
      if transaction_id == ""
      then err invalid_event
      else ok (sort_by compare_envelopes (collect_transaction transaction_id m.events))

  -- GetCurrentVersion
  unfoldable pub get_current_version : String → MemoryStore Any → ℤ
  get_current_version aggregate_id m = get_or m.versions aggregate_id (pos 0)

  -- The loop of ReadAfter; `taken` is len(result).
  unfoldable pub read_loop : ℤ → ℤ → ℕ → List (Envelope Any Any) → List (Envelope Any Any)
  read_loop after_position limit taken [] = []
  read_loop after_position limit taken (event ∷ events) =
      let skip = read_loop after_position limit taken events in
      let more = read_loop after_position limit (suc taken) events in
      if leb_ℤ event.position after_position
      then skip
      else if ltb_ℤ (pos 0) limit && eqb_ℤ (pos (suc taken)) limit
      then event ∷ []
      else event ∷ more

  -- ReadAfter
  unfoldable pub read_after : ℤ → ℤ → MemoryStore Any → List (Envelope Any Any)
  unfolding read_loop
  read_after after_position limit m = read_loop after_position limit 0 m.log

  -- HeadPosition
  unfoldable pub head_position : MemoryStore Any → ℤ
  head_position m = m.last_pos

  -- Close
  unfoldable pub close : MemoryStore Any → MemoryStore Any
  close m = record m { events = []; events_by_id = []; versions = []; log = [] }

  -- GetAllAggregateIDs
  unfoldable pub get_all_aggregate_ids : MemoryStore Any → List String
  unfolding sort_by
  get_all_aggregate_ids m = sort_by compare (keys m.events)
