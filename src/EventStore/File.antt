-- ===== src/EventStore/File.antt =====
-- pkg/eventsourcing/infrastructure/file_store.go: FileStore, one file for an aggregate with a cache
-- in front. The base directory is a map from a file's name, without ".json", to what is in it. The
-- RWMutex makes each method one atomic step.
pub mod Append
pub mod Placed
pub mod Durable
pub mod Shared
pub mod Feed
use pericarp.Prelude.{
  String, ◌==◌, Bool, true, false, not, ◌&&◌, ℕ, suc, Option, none, some, List, [], ◌∷◌, ◌++◌,
  select, last_or, take, ltb, length, if◌then◌else◌,
}
use pericarp.Prelude.Int.{ℤ, pos, negsuc, eqb_ℤ, ltb_ℤ, leb_ℤ, ◌+ℤ◌}
use pericarp.Prelude.Dict.{Dict, get, put, get_or}
use pericarp.Event.{Envelope, StoreError, invalid_event, concurrency_conflict, event_not_found}
use pericarp.EventStore.Memory.{is_valid_batch, range_loop}

pub record FileStore (Any : Type 0) : Type 0 where
  pub files : Dict String
  pub cache : Dict (List (Envelope Any Any))
  pub last_pos : ℤ

pub data FileError : Type 0 where
  refused : StoreError → FileError
  list_failed load_failed save_failed : FileError

-- The sequence number of the last event, 0 without events.
abbrev pub version_of : {Any : Type 0} → List (Envelope Any Any) → ℤ
version_of [] = pos 0
version_of (event ∷ events) = (last_or event events).sequence_no

-- The loop of Append that gives each event the next position.
unfoldable pub place_events :
    {Any : Type 0}
    → List (Envelope Any Any)
    → ℤ
    → List (Envelope Any Any)
    → ℤ × List (Envelope Any Any)
place_events [] last_pos current = (last_pos, current)
place_events (event ∷ events) last_pos current =
    let last_pos' = last_pos +ℤ pos 1 in
    place_events events last_pos' (current ++ record event { position = last_pos' } ∷ [])

-- The end of Append, behind saveToFile.
unfoldable pub finish_append :
    {Any : Type 0}
    → String
    → ℤ
    → List (Envelope Any Any)
    → FileStore Any
    → Dict String × Option FileError
    → FileStore Any × Option FileError
finish_append aggregate_id last_pos longer s (files, some e) =
    (record s { last_pos = last_pos }, some e)
finish_append aggregate_id last_pos longer s (files, none) =
    (record { files = files; cache = put s.cache aggregate_id longer; last_pos = last_pos }, none)

-- json.MarshalIndent, json.Unmarshal and filepath.Base are arguments.
module _ {Any : Type 0} (marshal : List (Envelope Any Any) → Option String)
    (unmarshal : String → Option (List (Envelope Any Any))) (base : String → String) where
  -- loadFromFile; `readable` says that os.ReadFile can read a file that exists.
  unfoldable pub load_from_file : Bool → String → Dict String → Option (List (Envelope Any Any))
  load_from_file readable name files = elim (get files name) [
    | none ↦ some []
    | some text ↦ if not readable then none else if text == "" then some [] else unmarshal text
  ]

  -- saveToFile; `writable` says that the temporary file is written and renamed. Otherwise the file
  -- stays as it was; a temporary file that a failed write leaves is not in the map, since no method
  -- reads a file that ends in .tmp.
  unfoldable pub save_to_file :
      Bool → String → List (Envelope Any Any) → Dict String → Dict String × Option FileError
  save_to_file writable aggregate_id events files = elim (marshal events) [
    | none ↦ (files, some save_failed)
    | some text ↦
        if writable then (put files (base aggregate_id) text, none) else (files, some save_failed)
  ]

  -- Append from the current events on, which are in the cache.
  unfoldable pub append_to :
      Bool
      → String
      → ℤ
      → List (Envelope Any Any)
      → List (Envelope Any Any)
      → FileStore Any
      → FileStore Any × Option FileError
  unfolding place_events save_to_file finish_append
  append_to writable aggregate_id expected_version events current s =
      if not (eqb_ℤ expected_version (negsuc 0))
        && not (eqb_ℤ (version_of current) expected_version)
      then (s, some (refused concurrency_conflict))
      else let (last_pos, longer) = place_events events s.last_pos current in
        finish_append aggregate_id last_pos longer s
          (save_to_file writable aggregate_id longer s.files)

  -- Append
  unfoldable pub append_file :
      Bool
      → Bool
      → String
      → ℤ
      → List (Envelope Any Any)
      → FileStore Any
      → FileStore Any × Option FileError
  unfolding append_to load_from_file
  append_file readable writable aggregate_id expected_version [] s = (s, none)
  append_file readable writable aggregate_id expected_version (first ∷ rest) s =
      if not (is_valid_batch aggregate_id (first ∷ rest))
      then (s, some (refused invalid_event))
      else elim (get s.cache aggregate_id) [
        | some current ↦ append_to writable aggregate_id expected_version (first ∷ rest) current s
        | none ↦ elim (load_from_file readable (base aggregate_id) s.files) [
          | none ↦ (s, some load_failed)
          | some loaded ↦
              append_to writable aggregate_id expected_version (first ∷ rest) loaded
                (record s { cache = put s.cache aggregate_id loaded })
        ]
      ]

  -- GetEvents
  unfoldable pub get_file_events :
      Bool → String → FileStore Any → FileStore Any × Option (List (Envelope Any Any))
  unfolding load_from_file
  get_file_events readable aggregate_id s = elim (get s.cache aggregate_id) [
    | some events ↦ (s, some events)
    | none ↦ elim (load_from_file readable (base aggregate_id) s.files) [
      | none ↦ (s, none)
      | some loaded ↦ (record s { cache = put s.cache aggregate_id loaded }, some loaded)
    ]
  ]

  -- GetEventsFromVersion
  unfoldable pub get_file_events_from_version :
      Bool → String → ℤ → FileStore Any → FileStore Any × Option (List (Envelope Any Any))
  unfolding get_file_events
  get_file_events_from_version readable aggregate_id from_version s =
      let (s', events) = get_file_events readable aggregate_id s in
      (
        s',
        elim events [
          | none ↦ none
          | some found ↦ some (select (λ event. leb_ℤ from_version event.sequence_no) found)
        ],
      )

  -- GetEventsRange
  unfoldable pub get_file_events_range :
      Bool → String → ℤ → ℤ → FileStore Any → FileStore Any × Option (List (Envelope Any Any))
  unfolding get_file_events
  get_file_events_range readable aggregate_id from_version to_version s =
      let (s', events) = get_file_events readable aggregate_id s in
      (
        s',
        elim events [
          | none ↦ none
          | some found ↦ some (
              range_loop (if eqb_ℤ from_version (negsuc 0) then pos 1 else from_version) to_version
                found)
        ],
      )

  -- GetCurrentVersion
  unfoldable pub get_file_version : Bool → String → FileStore Any → FileStore Any × Option ℤ
  unfolding get_file_events
  get_file_version readable aggregate_id s =
      let (s', events) = get_file_events readable aggregate_id s in
      (s', elim events [ none ↦ none | some found ↦ some (version_of found) ])

-- HeadPosition
abbrev pub file_head : {Any : Type 0} → FileStore Any → ℤ
file_head s = s.last_pos

-- Close clears the cache, and nothing else.
unfoldable pub close_file : {Any : Type 0} → FileStore Any → FileStore Any
close_file s = record s { cache = [] }
