-- ===== src/EventStore/File/Feed.antt =====
-- loadUncachedLocked and ReadAfter of pkg/eventsourcing/infrastructure/file_store.go. The cache is
-- ranged over in the order of its entries; the positions then order the events.
pub mod Loaded
pub mod Sorted
pub mod Returns
use Prim.Native.Nat.{Ordering}
use pericarp.Prelude.{
  String, ◌==◌, Bool, true, false, not, ◌&&◌, ℕ, Option, none, some, List, [], ◌∷◌, ◌++◌, select,
  take, length, if◌then◌else◌,
}
use pericarp.Prelude.Int.{ℤ, pos, pos_part, ltb_ℤ}
use pericarp.Prelude.Dict.{Dict, get, put}
use pericarp.Event.{Envelope}
use pericarp.EventStore.Memory.{sort_by}
use pericarp.EventStore.File.{FileStore, FileError, list_failed, load_failed, load_from_file}

-- cmp.Compare of the positions.
abbrev pub compare_positions : {Any : Type 0} → Envelope Any Any → Envelope Any Any → Ordering
compare_positions a b =
    if ltb_ℤ a.position b.position
    then Ordering.lt
    else if ltb_ℤ b.position a.position
    then Ordering.gt
    else Ordering.eq

-- The two loops of ReadAfter over the cache.
unfoldable pub collect_after :
    {Any : Type 0} → ℤ → Dict (List (Envelope Any Any)) → List (Envelope Any Any)
collect_after after_position [] = []
collect_after after_position ((aggregate_id, events) ∷ rest) =
    select (λ event. ltb_ℤ after_position event.position) events
    ++ collect_after after_position rest

-- `result[:limit]`, where there is a limit that the result exceeds.
abbrev pub limited : {A : Type 0} → ℤ → List A → List A
limited limit result =
    if ltb_ℤ (pos 0) limit && ltb_ℤ limit (pos (length result))
    then take (pos_part limit) result
    else result

module _ {Any : Type 0} (marshal : List (Envelope Any Any) → Option String)
    (unmarshal : String → Option (List (Envelope Any Any))) (base : String → String) where
  -- The loop of loadUncachedLocked over the directory.
  unfoldable pub load_entries :
      Bool → Dict String → FileStore Any → FileStore Any × Option FileError
  unfolding load_from_file
  load_entries readable [] s = (s, none)
  load_entries readable ((name, text) ∷ entries) s = elim (get s.cache name) [
    | some _ ↦ load_entries readable entries s
    | none ↦ elim (load_from_file marshal unmarshal base readable name s.files) [
      | none ↦ (s, some load_failed)
      | some loaded ↦ load_entries readable entries (record s { cache = put s.cache name loaded })
    ]
  ]

  -- loadUncachedLocked; `listable` says that os.ReadDir lists the directory, or finds none.
  unfoldable pub load_uncached : Bool → Bool → FileStore Any → FileStore Any × Option FileError
  unfolding load_entries
  load_uncached listable readable s =
      if not listable then (s, some list_failed) else load_entries readable s.files s

  -- ReadAfter
  unfoldable pub read_file_after :
      Bool → Bool → ℤ → ℤ → FileStore Any → FileStore Any × Option (List (Envelope Any Any))
  unfolding load_uncached collect_after sort_by
  read_file_after listable readable after_position limit s =
      let (s', error) = load_uncached listable readable s in
      (
        s',
        elim error [
          | some _ ↦ none
          | none ↦
              some
                (limited limit (sort_by compare_positions (collect_after after_position s'.cache)))
        ],
      )
