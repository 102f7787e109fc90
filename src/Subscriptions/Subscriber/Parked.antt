-- ===== src/Subscriptions/Subscriber/Parked.antt =====
-- ResetCheckpoint, ListParked and ReplayParked of pkg/eventsourcing/subscriptions/subscriber.go, on
-- the stores in memory.
use pericarp.Prelude.{
  String, ◌==◌, eq_refl, false, ◌&&◌, ◌≡◌, refl, Option, none, some, List, arith, if◌then◌else◌,
}
use pericarp.Prelude.Int.{ℤ}
use pericarp.Prelude.Dict.{get_or}
use pericarp.Event.{Envelope, StoreError}
use pericarp.EventStore.Memory.{MemoryStore, ok, err, get_event_by_id}
use pericarp.Subscriptions.Checkpoint.{MemoryCheckpointStore, CheckpointError, reset}
use pericarp.Subscriptions.Parking.{
  ParkedEvent, ParkingError, MemoryParkingLot, replay_key, entry_of, park, list_parked,
  replay_parked,
}
use pericarp.Subscriptions.Parking.Replay.{replay_clears, entry_of-park, same_entry_refl, started}
use pericarp.Subscriptions.Subscriber.{Subscriber}

-- The errors of ReplayParked.
pub data ReplayError : Type 0 where
  no_parking_lot : ReplayError
  event_not_loaded : StoreError → ReplayError
  replay_error : ParkingError → ReplayError

-- ResetCheckpoint
unfoldable pub reset_checkpoint :
    Subscriber → ℤ → MemoryCheckpointStore → MemoryCheckpointStore × Option CheckpointError
unfolding reset
reset_checkpoint s position m = reset s.name position m

-- ListParked; without a parking lot it returns an error.
unfoldable pub list_parked_events : Subscriber → Option MemoryParkingLot → Option (List ParkedEvent)
unfolding list_parked
list_parked_events s none = none
list_parked_events s (some lot) = some (list_parked s.name lot)

-- ReplayParked, with the subscriber's handler.
unfoldable pub replay_parked_event :
    {Any : Type 0}
    → Subscriber
    → MemoryStore Any
    → (Envelope Any Any → MemoryParkingLot → MemoryParkingLot × Option String)
    → String
    → Option MemoryParkingLot
    → Option MemoryParkingLot × Option ReplayError
unfolding get_event_by_id replay_parked
replay_parked_event s store handler event_id none = (none, some no_parking_lot)
replay_parked_event s store handler event_id (some lot) = elim (get_event_by_id event_id store) [
  | err e ↦ (some lot, some (event_not_loaded e))
  | ok event ↦
      let (lot', error) = replay_parked s.name event_id (handler event) lot in
      (some lot', elim error [ none ↦ none | some e ↦ some (replay_error e) ])
]

-- The entry of an event in a lot that may be missing.
abbrev pub entry_in : String → String → Option MemoryParkingLot → Option ParkedEvent
entry_in subscriber event_id none = none
entry_in subscriber event_id (some lot) = entry_of subscriber event_id lot

park-replay :
    (e : ParkedEvent) (m : MemoryParkingLot)
    (handler : MemoryParkingLot → MemoryParkingLot × Option String)
    → get_or m.replaying (replay_key e.subscriber e.event_id) false ≡ false
    → ((lot : MemoryParkingLot) → handler lot ≡ (lot, none))
    → let r = replay_parked e.subscriber e.event_id handler (park e m) in
      (r.1 ≡ none)
      × ((subscriber event_id : String)
          → entry_of subscriber event_id r.0 ≡ (
              if e.subscriber == subscriber && e.event_id == event_id
              then none
              else entry_of subscriber event_id m))
unfolding park
park-replay e m handler idle works =
    let parked : entry_of e.subscriber e.event_id (park e m) ≡ some e = ground (
      arith,
      entry_of-park e m e.subscriber e.event_id,
      eq_refl e.subscriber,
      eq_refl e.event_id,
    ) in
    let (fine, entries) =
      replay_clears e.subscriber e.event_id (park e m) e handler parked idle
        (started e.subscriber e.event_id (park e m) e handler parked idle) (works _) in
    (
      fine,
      λ subscriber event_id. ground (
        arith,
        entries subscriber event_id,
        parked,
        same_entry_refl e,
        entry_of-park e m subscriber event_id,
      ),
    )

-- ReplayParked undoes Park: when an event that the store has is parked for the subscriber, is not
-- being replayed, and its handler now succeeds, ReplayParked returns no error, the event is parked
-- no more, and every other event is parked as before.
pub replay_undoes_park :
    {Any : Type 0} (s : Subscriber) (store : MemoryStore Any)
    (handler : Envelope Any Any → MemoryParkingLot → MemoryParkingLot × Option String)
    (e : ParkedEvent) (event : Envelope Any Any) (m : MemoryParkingLot)
    → get_event_by_id e.event_id store ≡ ok event
    → get_or m.replaying (replay_key s.name e.event_id) false ≡ false
    → ((lot : MemoryParkingLot) → handler event lot ≡ (lot, none))
    → let result =
        replay_parked_event s store handler e.event_id
          (some (park (record e { subscriber = s.name }) m)) in
      (result.1 ≡ none)
      × ((subscriber event_id : String)
          → entry_in subscriber event_id result.0 ≡ (
              if s.name == subscriber && e.event_id == event_id
              then none
              else entry_of subscriber event_id m))
unfolding replay_parked_event
replay_undoes_park s store handler e event m loaded idle works =
    let (fine, entries) =
      park-replay (record e { subscriber = s.name }) m (handler event) idle works in
    rw (loaded, fine, replay_parked_event) (refl, entries)
