-- ===== src/Subscriptions/Parking/Replay.antt =====
-- What Replay of a MemoryParkingLot clears and what it keeps (memory_parking.go).
use pericarp.Prelude.{
  String, ◌==◌, eq_refl, eq_iff, Bool, true, false, ◌&&◌, ◌≡◌, Option, none, some, [], arith,
  if◌then◌else◌,
}
use pericarp.Prelude.Dict.{put, remove, get_or, get-put, get-remove}
use pericarp.Prelude.Int.{eqb_ℤ_refl}
use pericarp.Subscriptions.Parking.{
  ParkedEvent, MemoryParkingLot, replay_in_flight, handler_failed, entry_of, park, same_entry,
  replay_key, finish_replay, clear_replayed, replay_parked,
}

-- A parked event is found under its subscriber and id, and every other entry is as before.
pub entry_of-park :
    (e : ParkedEvent) (m : MemoryParkingLot) (subscriber event_id : String)
    → entry_of subscriber event_id (park e m) ≡ (
        if e.subscriber == subscriber
        then (if e.event_id == event_id then some e else entry_of subscriber event_id m)
        else entry_of subscriber event_id m)
unfolding park
entry_of-park e m subscriber event_id =
    let own = get_or m.parked e.subscriber [] in
    ground (
      arith,
      get-put m.parked e.subscriber (put own e.event_id e) subscriber,
      get-put own e.event_id e event_id,
      eq_iff e.subscriber subscriber,
    )

pub same_entry_refl : (e : ParkedEvent) → same_entry e e ≡ true
same_entry_refl e = ground (
  arith,
  eq_refl e.subscriber,
  eq_refl e.event_id,
  eq_refl e.event_type,
  eq_refl e.error,
  eqb_ℤ_refl e.position,
  eqb_ℤ_refl e.attempts,
)

-- The handler's lot still holds the entry that the replay observed.
abbrev pub is_cleared : String → String → ParkedEvent → MemoryParkingLot → Bool
is_cleared subscriber event_id observed m = elim (entry_of subscriber event_id m) [
  | none ↦ false
  | some current ↦ same_entry current observed
]

entry_of-clear_replayed :
    (subscriber event_id : String) (observed : ParkedEvent) (m : MemoryParkingLot) (s i : String)
    → entry_of s i (clear_replayed subscriber event_id observed m) ≡ (
        if is_cleared subscriber event_id observed m && (subscriber == s && event_id == i)
        then none
        else entry_of s i m)
unfolding clear_replayed
entry_of-clear_replayed subscriber event_id observed m s i =
    let own = get_or m.parked subscriber [] in
    ground (
      arith,
      get-put m.parked subscriber (remove own event_id) s,
      get-remove own event_id i,
      eq_iff subscriber s,
      eq_iff event_id i,
    )

module _ (subscriber event_id : String) (m : MemoryParkingLot) (observed : ParkedEvent)
    (handler : MemoryParkingLot → MemoryParkingLot × Option String)
    (parked : entry_of subscriber event_id m ≡ some observed)
    (idle : get_or m.replaying (replay_key subscriber event_id) false ≡ false) where
  -- The lot in which the handler of the replay runs.
  abbrev pub started : MemoryParkingLot
  started = record m { replaying = put m.replaying (replay_key subscriber event_id) true }

  replay_started :
      replay_parked subscriber event_id handler m
      ≡ finish_replay subscriber event_id handler observed started
  unfolding replay_parked
  replay_started = ground (arith, parked, idle)

  -- A replay of a parked event whose handler succeeds clears that entry, if the entry is still the
  -- one that was parked when the replay began, and leaves every other entry as the handler left it.
  pub replay_clears :
      (m' : MemoryParkingLot)
      → handler started ≡ (m', none)
      → ((replay_parked subscriber event_id handler m).1 ≡ none)
        × ((s i : String)
            → entry_of s i (replay_parked subscriber event_id handler m).0 ≡ (
                if is_cleared subscriber event_id observed m' && (subscriber == s && event_id == i)
                then none
                else entry_of s i m'))
  unfolding finish_replay
  replay_clears m' ran = (
    ground (arith, replay_started, ran),
    λ s i.
        ground
          (arith, replay_started, ran, entry_of-clear_replayed subscriber event_id observed m' s i),
  )

  -- A replay whose handler fails reports the failure and clears nothing.
  pub replay_failed :
      (m' : MemoryParkingLot) (e : String)
      → handler started ≡ (m', some e)
      → ((replay_parked subscriber event_id handler m).1 ≡ some (handler_failed e))
        × ((s i : String)
            → entry_of s i (replay_parked subscriber event_id handler m).0 ≡ entry_of s i m')
  unfolding finish_replay
  replay_failed m' e ran =
      (ground (arith, replay_started, ran), λ s i. ground (arith, replay_started, ran))

  -- While the handler of a replay runs, a second replay of the same event is refused and its
  -- handler is not run: the lot stays as it is.
  pub replay_excludes :
      (other : MemoryParkingLot → MemoryParkingLot × Option String)
      → replay_parked subscriber event_id other started ≡ (started, some replay_in_flight)
  unfolding replay_parked
  replay_excludes other =
      let key = replay_key subscriber event_id in
      ground (arith, parked, get-put m.replaying key true key, eq_refl key)
