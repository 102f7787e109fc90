-- ===== src/Tests/Store.antt =====
-- The memory store's theorems at concrete inputs.
use pericarp.Prelude.{◌≡◌, refl, ℕ, some, [], ◌∷◌, ◌++◌, arith}
use pericarp.Prelude.Int.{pos, ◌+ℤ◌}
use pericarp.Prelude.Dict.{get, put}
use pericarp.Event.{Envelope, invalid_event, concurrency_conflict}
use pericarp.EventStore.Memory.{MemoryStore, new_memory_store, append, read_after, is_valid_batch}
use pericarp.EventStore.Memory.View.{IsView}
use pericarp.EventStore.Memory.Feed.{IsFeed, later}
use pericarp.EventStore.Memory.Append.{append-IsView}
use pericarp.EventStore.Memory.ReadAfter.{page, read_after-page, read_after_resumes, append-IsFeed}
use pericarp.EventStore.Memory.Concurrency.{second_writer_conflicts}
use pericarp.Tests.Data.{at, a1, a2, b1, two_aggregates, envelope}

abbrev empty : MemoryStore ℕ
empty = new_memory_store

abbrev a3 : Envelope ℕ ℕ
a3 = envelope "e4" "a" 3

empty-IsView : IsView empty
unfolding get
empty-IsView = record { by_aggregate = λ a. refl; by_version = λ a. refl; by_id = λ i. refl }

append-IsView_example : IsView (append "a" (pos 0) (a1 ∷ a2 ∷ []) empty).0
append-IsView_example = append-IsView "a" (pos 0) (a1 ∷ a2 ∷ []) empty empty-IsView

abbrev two_aggregates-IsFeed : IsFeed 3 two_aggregates
two_aggregates-IsFeed = record {
  at_head = refl;
  rises = (omega arith, (omega arith, (omega arith, omega arith)));
}

read_after-page_example :
    read_after (pos 1) (pos 1) two_aggregates ≡ page (pos 1) (later (pos 1) two_aggregates.log)
read_after-page_example = read_after-page (pos 1) (pos 1) two_aggregates

read_after_resumes_example :
    (at 2 a2 ∷ []) ++ read_after (pos 2) (pos 0) two_aggregates
    ≡ read_after (pos 1) (pos 0) two_aggregates
unfolding read_after
read_after_resumes_example =
    read_after_resumes 3 (pos 1) (pos 1) two_aggregates (at 2 a2) [] two_aggregates-IsFeed refl

append-IsFeed_example : IsFeed 4 (append "a" (pos 2) (a3 ∷ []) two_aggregates).0
unfolding append get
append-IsFeed_example =
    append-IsFeed 3 "a" (pos 2) (a3 ∷ []) two_aggregates (omega arith) two_aggregates-IsFeed refl

second_writer_conflicts_example :
    append "a" (pos 2) (a3 ∷ []) (append "a" (pos 2) (a3 ∷ []) two_aggregates).0
    ≡ ((append "a" (pos 2) (a3 ∷ []) two_aggregates).0, some concurrency_conflict)
unfolding append get is_valid_batch
second_writer_conflicts_example =
    second_writer_conflicts "a" (pos 2) a3 a3 [] [] two_aggregates (ground arith) refl
      (ground arith) refl

stored_twice :
    (append "b" (pos 0) (b1 ∷ []) (append "a" (pos 0) (a1 ∷ a2 ∷ []) empty).0).0 ≡ two_aggregates
unfolding append get put ◌+ℤ◌
stored_twice = refl

mixed_batch : (append "a" (pos 0) (a1 ∷ b1 ∷ []) empty).1 ≡ some invalid_event
unfolding append
mixed_batch = refl
