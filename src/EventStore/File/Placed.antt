-- ===== src/EventStore/File/Placed.antt =====
-- The positions that Append of a FileStore gives to new events (file_store.go).
use pericarp.Prelude.{◌≡◌, sym, ap, ◌∙◌, List, [], ◌∷◌, ◌++◌, append-nil, append_assoc}
use pericarp.Prelude.Int.{ℤ, pos, ◌+ℤ◌}
use pericarp.Event.{Envelope}
use pericarp.EventStore.File.{place_events}

module _ {Any : Type 0} where
  -- The events at the positions behind `p`, one after the other.
  abbrev pub numbered : ℤ → List (Envelope Any Any) → List (Envelope Any Any)
  numbered p [] = []
  numbered p (event ∷ events) =
      record event { position = p +ℤ pos 1 } ∷ numbered (p +ℤ pos 1) events

  -- The position of the last of them.
  abbrev pub counted : ℤ → List (Envelope Any Any) → ℤ
  counted p [] = p
  counted p (event ∷ events) = counted (p +ℤ pos 1) events

  pub place_events-numbered :
      (events : List (Envelope Any Any)) (p : ℤ) (current : List (Envelope Any Any))
      → place_events events p current ≡ (counted p events, current ++ numbered p events)
  unfolding place_events
  place_events-numbered [] p current = ap (λ l. (p, l)) (sym (append-nil current))
  place_events-numbered (event ∷ events) p current =
      let q = p +ℤ pos 1 in
      let placed : Envelope Any Any = record event { position = q } in
      place_events-numbered events q (current ++ placed ∷ [])
      ∙ ap (λ l. (counted q events, l)) (append_assoc current (placed ∷ []) (numbered q events))
