-- ===== src/UnitOfWork/Retry.antt =====
-- A failed Commit on a MemoryStore, tried again (unitofwork.go, memory_store.go).
use pericarp.Prelude.{String, ◌≡◌, ◌≢◌, ap, ◌∙◌, Option, none, some, List, [], ◌∷◌, last_or}
use pericarp.Prelude.Int.{ℤ, pos, negsuc}
use pericarp.Prelude.Dict.{Dict, get_or}
use pericarp.Event.{Envelope, StoreError, concurrency_conflict}
use pericarp.EventStore.Memory.{MemoryStore, append}
use pericarp.EventStore.Memory.Concurrency.{second_writer_conflicts}
use pericarp.EventStore.Memory.Append.{append_error_unchanged, accepted}
use pericarp.EventStore.Memory.Implements.{memory_event_store}
use pericarp.UnitOfWork.{persist, failed_to_persist}
use pericarp.UnitOfWork.Persist.{persist_next, persist_stop}

module _ {Any : Type 0} (versions : Dict ℤ) (a b : String) (e : Envelope Any Any)
    (es fs : List (Envelope Any Any)) (m : MemoryStore Any) where
  -- Two aggregates are persisted, the first is stored and the second refused. A second run with the
  -- same events and expected versions, as the uncleared entities give, is refused at the first
  -- aggregate with a concurrency conflict, if its expected version is not -1 and its events move it.
  pub retry_conflicts :
      (x : StoreError)
      → get_or versions a (pos 0) ≢ negsuc 0
      → (last_or e es).sequence_no ≢ get_or versions a (pos 0)
      → (append a (get_or versions a (pos 0)) (e ∷ es) m).1 ≡ none
      → (append b
          (get_or versions b (pos 0))
          fs
          (append a (get_or versions a (pos 0)) (e ∷ es) m).0).1
        ≡ some x
      → let batches : Dict (List (Envelope Any Any)) = (a, e ∷ es) ∷ (b, fs) ∷ [] in
        let first = persist memory_event_store versions batches m in
        (first.1 ≡ some (failed_to_persist b x))
        × ((persist memory_event_store versions batches first.0).1
            ≡ some (failed_to_persist a concurrency_conflict))
  retry_conflicts x checked moved stored refused =
      let v = get_or versions a (pos 0) in
      let w = get_or versions b (pos 0) in
      let m₁ = (append a v (e ∷ es) m).0 in
      let batches : Dict (List (Envelope Any Any)) = (a, e ∷ es) ∷ (b, fs) ∷ [] in
      let first_run =
        persist_next memory_event_store versions a (e ∷ es) ((b, fs) ∷ []) m stored
        ∙ persist_stop memory_event_store versions b fs [] m₁ x refused in
      let left = append_error_unchanged b w fs m₁ refused in
      let again =
        second_writer_conflicts a v e e es es m checked stored moved
          (accepted a v e es m stored).0 in
      let second = ap (λ (t : MemoryStore Any × Option StoreError). t.1) again in
      (
        ap (λ t. t.1) first_run,
        rw first_run (
            rw left (
              ap (λ t. t.1)
                (persist_stop memory_event_store versions a (e ∷ es) ((b, fs) ∷ []) m₁
                  concurrency_conflict second))),
      )
