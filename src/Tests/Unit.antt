-- ===== src/Tests/Unit.antt =====
-- The unit of work's theorems at concrete inputs.
use mathlib.Core.List.Perm
use pericarp.Prelude.{◌≡◌, refl, ℕ, none, some, List, [], ◌∷◌, arith, true, zero, suc}
use pericarp.Prelude.Int.{pos, ◌-ℤ◌}
use pericarp.Prelude.Dict.{Dict, get, put}
use pericarp.Event.{Envelope, concurrency_conflict}
use pericarp.EventStore.Memory.{MemoryStore, new_memory_store, append}
use pericarp.EventStore.Memory.Implements.{memory_event_store}
use pericarp.UnitOfWork.{
  UnitOfWork, Heap, new_unit_of_work, track, validate_all, has_duplicate, track_all,
  expected_version, commit, persist, failed_to_persist,
}
use pericarp.UnitOfWork.Tracking.{expected_version-base, track-Registered, Registered}
use pericarp.UnitOfWork.Batches.{tracked_batches}
use pericarp.UnitOfWork.Commit.{Succeeded, Failed}
use pericarp.UnitOfWork.Outcome.{commit-Succeeded, commit-Failed}
use pericarp.UnitOfWork.Retry.{retry_conflicts}
use pericarp.Tests.Data.{a1, a2, b1, envelope}

-- Two entities with uncommitted events, at the references 0 and 1.
abbrev heap : Heap ℕ
heap zero = record {
  aggregate_id = "a";
  sequence_no = pos 2;
  uncommitted_events = a1 ∷ a2 ∷ [];
  applied_event_ids = "e2" ∷ "e1" ∷ [];
}
heap (suc n) = record {
  aggregate_id = "b";
  sequence_no = pos 1;
  uncommitted_events = b1 ∷ [];
  applied_event_ids = "e3" ∷ [];
}

abbrev tracking : UnitOfWork
tracking = record {
  entities = ("a", 0) ∷ ("b", 1) ∷ [];
  expected_versions = ("a", pos 0) ∷ ("b", pos 0) ∷ [];
}

-- The store in which somebody else has already stored aggregate b.
abbrev taken : MemoryStore ℕ
taken = (append "b" (pos 0) (envelope "e9" "b" 1 ∷ []) new_memory_store).0

abbrev as_is : Dict (List (Envelope ℕ ℕ)) → Dict (List (Envelope ℕ ℕ))
as_is l = l

expected_version-base_example : expected_version (heap 0) ≡ pos 0
expected_version-base_example =
    expected_version-base 0 (heap 0) (omega arith)
      (record { run = (refl, (refl, tt)); last = refl })

tracked_two : track heap (some 0 ∷ some 1 ∷ []) new_unit_of_work ≡ (tracking, none)
unfolding track validate_all has_duplicate track_all get put ◌-ℤ◌ expected_version
tracked_two = refl

track-Registered_example :
    Registered heap new_unit_of_work
      (some 0 ∷ some 1 ∷ [])
      (track heap (some 0 ∷ some 1 ∷ []) new_unit_of_work).0
unfolding track validate_all has_duplicate track_all get
track-Registered_example = track-Registered heap new_unit_of_work (some 0 ∷ some 1 ∷ []) refl

commit-Succeeded_example :
    Succeeded memory_event_store "tx" true tracking heap new_memory_store
      (commit memory_event_store as_is as_is "tx" true tracking heap new_memory_store)
unfolding commit append get put
commit-Succeeded_example =
    commit-Succeeded memory_event_store as_is as_is "tx" true tracking heap new_memory_store
      Perm.refl Perm.refl refl

commit-Failed_example :
    Failed memory_event_store
      (as_is (tracked_batches "tx" heap tracking.entities))
      tracking
      heap
      taken
      (commit memory_event_store as_is as_is "tx" true tracking heap taken)
      (failed_to_persist "b" concurrency_conflict)
unfolding commit append get put
commit-Failed_example =
    commit-Failed memory_event_store as_is as_is "tx" true tracking heap taken
      (failed_to_persist "b" concurrency_conflict) refl

abbrev both : Dict (List (Envelope ℕ ℕ))
both = ("a", a1 ∷ a2 ∷ []) ∷ ("b", b1 ∷ []) ∷ []

retry_conflicts_example :
    let first = persist memory_event_store tracking.expected_versions both taken in
    (first.1 ≡ some (failed_to_persist "b" concurrency_conflict))
    × ((persist memory_event_store tracking.expected_versions both first.0).1
        ≡ some (failed_to_persist "a" concurrency_conflict))
unfolding append get put
retry_conflicts_example =
    retry_conflicts tracking.expected_versions "a" "b" a1 (a2 ∷ []) (b1 ∷ []) taken
      concurrency_conflict (λ e. absurd (cc e)) (λ e. ground (arith, e)) refl refl
