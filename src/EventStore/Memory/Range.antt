-- ===== src/EventStore/Memory/Range.antt =====
-- The version ranges of a MemoryStore: GetEventsRange and GetEventsFromVersion.
use pericarp.Prelude.{
  String, true, false, not, ◌&&◌, ◌||◌, ◌≡◌, ◌≢◌, refl, ap, sym, ◌∙◌, List, [], ◌∷◌, arith, select,
  if◌then◌else◌, Bool,
}
use pericarp.Prelude.Int.{ℤ, pos, negsuc, eqb_ℤ, leb_ℤ, ltb_ℤ, eqb_ℤ→eq, ◌≤ℤ◌, ◌<ℤ◌}
use pericarp.Prelude.Dict.{get_or}
use pericarp.Event.{Envelope}
use pericarp.EventStore.Memory.{
  MemoryStore, range_loop, get_events_range, get_events_from_version, get_events,
}

module _ {Any : Type 0} where
  -- No event has a smaller sequence number than one before it.
  abbrev pub IsInOrder : List (Envelope Any Any) → Type 0
  IsInOrder [] = Unit
  IsInOrder (x ∷ []) = Unit
  IsInOrder (x ∷ y ∷ rest) = (x.sequence_no ≤ℤ y.sequence_no) × IsInOrder (y ∷ rest)

  abbrev pub in_range : ℤ → ℤ → Envelope Any Any → Bool
  in_range from to event =
      leb_ℤ from event.sequence_no && (eqb_ℤ to (negsuc 0) || leb_ℤ event.sequence_no to)

  select_beyond :
      (from to : ℤ) (x : Envelope Any Any) (xs : List (Envelope Any Any))
      → IsInOrder (x ∷ xs)
      → to ≢ negsuc 0
      → to <ℤ x.sequence_no
      → select (in_range from to) xs ≡ []
  select_beyond from to x [] h b lt = refl
  select_beyond from to x (y ∷ xs) h b lt =
      ground (arith, select_beyond from to y xs h.1 b, eqb_ℤ→eq to (negsuc 0))

  beyond_bound :
      (to : ℤ) (x : Envelope Any Any)
      → (not (eqb_ℤ to (negsuc 0)) && ltb_ℤ to x.sequence_no) ≡ true
      → (to ≢ negsuc 0) × (to <ℤ x.sequence_no)
  beyond_bound to x h = (λ e. grind arith, ground arith)

  IsInOrder-tail :
      (x : Envelope Any Any) (xs : List (Envelope Any Any)) → IsInOrder (x ∷ xs) → IsInOrder xs
  IsInOrder-tail x [] h = tt
  IsInOrder-tail x (y ∷ xs) h = h.1

  in_range-eq :
      (from to : ℤ) (x : Envelope Any Any)
      → in_range from to x ≡ (
          not (ltb_ℤ x.sequence_no from)
          && not (not (eqb_ℤ to (negsuc 0)) && ltb_ℤ to x.sequence_no))
  in_range-eq from to x = ground arith

  -- Stopping at the first event beyond the range drops nothing of it.
  stop_or_skip :
      (below beyond : Bool) (x : Envelope Any Any) (rest : List (Envelope Any Any))
      → (beyond ≡ true → rest ≡ [])
      → (if below then rest else if beyond then [] else x ∷ rest)
        ≡ (if not below && not beyond then x ∷ rest else rest)
  stop_or_skip true beyond x rest h = refl
  stop_or_skip false true x rest h = sym (h refl)
  stop_or_skip false false x rest h = refl

  range_loop-select :
      (from to : ℤ) (xs : List (Envelope Any Any))
      → IsInOrder xs
      → range_loop from to xs ≡ select (in_range from to) xs
  unfolding range_loop
  range_loop-select from to [] h = refl
  range_loop-select from to (x ∷ xs) h =
      let beyond = not (eqb_ℤ to (negsuc 0)) && ltb_ℤ to x.sequence_no in
      let chosen = select (in_range from to) xs in
      ap (λ rest. if ltb_ℤ x.sequence_no from then rest else if beyond then [] else x ∷ rest)
        (range_loop-select from to xs (IsInOrder-tail x xs h))
      ∙ stop_or_skip (ltb_ℤ x.sequence_no from) beyond x chosen
          (λ e. select_beyond from to x xs h (beyond_bound to x e).0 (beyond_bound to x e).1)
      ∙ ap (λ b. if b then x ∷ chosen else chosen) (sym (in_range-eq from to x))

  -- On a stream in order, GetEventsRange returns exactly its events from the first to the last
  -- version, where -1 as the first version stands for 1 and -1 as the last for no bound.
  pub get_events_range-select :
      (a : String) (from to : ℤ) (m : MemoryStore Any)
      → IsInOrder (get_events a m)
      → get_events_range a from to m
        ≡ select (in_range (if eqb_ℤ from (negsuc 0) then pos 1 else from) to) (get_events a m)
  unfolding get_events_range get_events
  get_events_range-select a from to m h =
      range_loop-select (if eqb_ℤ from (negsuc 0) then pos 1 else from) to (get_or m.events a []) h

  range_loop_open :
      (from : ℤ) (xs : List (Envelope Any Any))
      → range_loop from (negsuc 0) xs ≡ select (λ event. leb_ℤ from event.sequence_no) xs
  unfolding range_loop
  range_loop_open from [] = refl
  range_loop_open from (x ∷ xs) = ground (arith, range_loop_open from xs)

  -- With no last version, GetEventsRange agrees with GetEventsFromVersion on every stream, but for
  -- -1 as the first version.
  pub get_events_range_open :
      (a : String) (from : ℤ) (m : MemoryStore Any)
      → from ≢ negsuc 0
      → get_events_range a from (negsuc 0) m ≡ get_events_from_version a from m
  unfolding get_events_range get_events_from_version
  get_events_range_open a from m h =
      ground (arith, range_loop_open from (get_or m.events a []), eqb_ℤ→eq from (negsuc 0))
