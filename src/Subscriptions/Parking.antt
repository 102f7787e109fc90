-- ===== src/Subscriptions/Parking.antt =====
-- pkg/eventsourcing/subscriptions/parking.go and memory_parking.go: parked events and
-- MemoryParkingLot. Replay gives up the lock while the handler runs, so the handler is a function
-- of the lot: what it returns is the lot that the second critical section finds.
pub mod Replay
use Prim.Native.String.{◌++◌ as append_text}
use Prim.Native.Nat.{Ordering}
use pericarp.Prelude.{
  String, ◌==◌, Bool, true, false, ◌&&◌, ℕ, Option, none, some, List, [], ◌∷◌, map, eqb,
  if◌then◌else◌,
}
use pericarp.Prelude.Int.{ℤ, eqb_ℤ, ltb_ℤ}
use pericarp.Prelude.Dict.{Dict, get, put, remove, get_or}
use pericarp.EventStore.Memory.{sort_by}

pub record ParkedEvent : Type 0 where
  pub subscriber : String
  pub event_id : String
  pub event_type : String
  pub position : ℤ
  pub error : String
  pub attempts : ℤ
  pub parked_at : ℕ

pub data ParkingError : Type 0 where
  event_not_parked replay_in_flight : ParkingError
  handler_failed : String → ParkingError

pub record MemoryParkingLot : Type 0 where
  pub parked : Dict (Dict ParkedEvent)
  pub replaying : Dict Bool

-- NewMemoryParkingLot
abbrev pub new_memory_parking_lot : MemoryParkingLot
new_memory_parking_lot = record { parked = []; replaying = [] }

-- replayKey
abbrev pub replay_key : String → String → String
replay_key subscriber event_id = append_text subscriber (append_text "\0" event_id)

-- `m.parked[subscriber][eventID]`
abbrev pub entry_of : String → String → MemoryParkingLot → Option ParkedEvent
entry_of subscriber event_id m = get (get_or m.parked subscriber []) event_id

-- Park
unfoldable pub park : ParkedEvent → MemoryParkingLot → MemoryParkingLot
park entry m = record m {
  parked =
      put m.parked entry.subscriber
        (put (get_or m.parked entry.subscriber []) entry.event_id entry);
}

compare_positions : ParkedEvent → ParkedEvent → Ordering
compare_positions a b =
    if ltb_ℤ a.position b.position
    then Ordering.lt
    else if ltb_ℤ b.position a.position
    then Ordering.gt
    else Ordering.eq

-- List
unfoldable pub list_parked : String → MemoryParkingLot → List ParkedEvent
unfolding compare_positions sort_by
list_parked subscriber m =
    sort_by compare_positions (map (λ e. e.1) (get_or m.parked subscriber []))

-- `==` on ParkedEvent
abbrev pub same_entry : ParkedEvent → ParkedEvent → Bool
same_entry a b =
    a.subscriber == b.subscriber
    && a.event_id == b.event_id
    && a.event_type == b.event_type
    && eqb_ℤ a.position b.position
    && a.error == b.error
    && eqb_ℤ a.attempts b.attempts
    && eqb a.parked_at b.parked_at

-- The first critical section of Replay: the entry that it observed, or its error.
unfoldable pub begin_replay :
    String → String → MemoryParkingLot → MemoryParkingLot × Option ParkedEvent × Option ParkingError
begin_replay subscriber event_id m = elim (entry_of subscriber event_id m) [
  | none ↦ (m, none, some event_not_parked)
  | some observed ↦
      if get_or m.replaying (replay_key subscriber event_id) false
      then (m, none, some replay_in_flight)
      else (
        record m { replaying = put m.replaying (replay_key subscriber event_id) true },
        some observed,
        none,
      )
]

-- The deferred critical section of Replay.
abbrev pub end_replay : String → String → MemoryParkingLot → MemoryParkingLot
end_replay subscriber event_id m = record m {
  replaying = remove m.replaying (replay_key subscriber event_id);
}

-- The last critical section of Replay: only the entry that was replayed is cleared.
unfoldable pub clear_replayed : String → String → ParkedEvent → MemoryParkingLot → MemoryParkingLot
clear_replayed subscriber event_id observed m = elim (entry_of subscriber event_id m) [
  | none ↦ m
  | some current ↦
      if same_entry current observed
      then record m {
        parked = put m.parked subscriber (remove (get_or m.parked subscriber []) event_id);
      }
      else m
]

-- Replay past its first critical section.
unfoldable pub finish_replay :
    String
    → String
    → (MemoryParkingLot → MemoryParkingLot × Option String)
    → ParkedEvent
    → MemoryParkingLot
    → MemoryParkingLot × Option ParkingError
unfolding clear_replayed
finish_replay subscriber event_id handler observed m =
    let (m', error) = handler m in
    elim error [
      | some e ↦ (end_replay subscriber event_id m', some (handler_failed e))
      | none ↦
          (end_replay subscriber event_id (clear_replayed subscriber event_id observed m'), none)
    ]

-- Replay
unfoldable pub replay_parked :
    String
    → String
    → (MemoryParkingLot → MemoryParkingLot × Option String)
    → MemoryParkingLot
    → MemoryParkingLot × Option ParkingError
unfolding begin_replay finish_replay
replay_parked subscriber event_id handler m =
    let (m', entry, error) = begin_replay subscriber event_id m in
    elim entry [
      | none ↦ (m', error)
      | some observed ↦ finish_replay subscriber event_id handler observed m'
    ]
