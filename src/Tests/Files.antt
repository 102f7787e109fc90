-- ===== src/Tests/Files.antt =====
-- The theorems on the file store at concrete inputs. The codec knows the empty list and that of one
-- event.
use mathlib.Core.List.{Perm}
use pericarp.Prelude.{
  String, Bool, ◌↔◌, ◌==◌, eq_true, true, false, ◌≡◌, ◌≢◌, refl, ap, subst, ℕ, Option, none, some,
  List, [], ◌∷◌, select, ◌++◌, All, arith, if◌then◌else◌,
}
use pericarp.Prelude.Int.{pos, ltb_ℤ, ◌+ℤ◌}
use pericarp.Prelude.Dict.{get, put}
use pericarp.Event.{Envelope, concurrency_conflict}
use pericarp.EventStore.Memory.{is_valid_batch, sort_by}
use pericarp.EventStore.File.{
  FileStore, refused, place_events, load_from_file, append_file, append_to, save_to_file,
  finish_append,
}
use pericarp.EventStore.File.Placed.{numbered}
use pericarp.EventStore.File.Durable.{IsStored, ReadsBack, append_file-IsStored}
use pericarp.EventStore.File.Shared.{shared_file-conflicts}
use pericarp.EventStore.File.Feed.{read_file_after, collect_after, load_entries, load_uncached}
use pericarp.EventStore.File.Feed.Loaded.{IsCached}
use pericarp.EventStore.File.Feed.Returns.{AllLoad, read_file_after-returns_iff}
use pericarp.EventStore.File.Feed.Sorted.{
  cached_events, IsAscending, IsAfter, read_file_after-IsAscending,
}
use pericarp.Tests.Data.{a1, at, envelope}

abbrev marshal : List (Envelope ℕ ℕ) → Option String
marshal [] = some "[]"
marshal (e ∷ []) = some "[e1]"
marshal (e ∷ f ∷ events) = none

abbrev unmarshal : String → Option (List (Envelope ℕ ℕ))
unmarshal text =
    if text == "[]" then some [] else if text == "[e1]" then some (at 1 a1 ∷ []) else none

-- filepath.Base on "b/a".
abbrev base : String → String
base id = if id == "b/a" then "a" else id

abbrev empty_store : FileStore ℕ
empty_store = record { files = []; cache = []; last_pos = pos 0 }

-- The file of a1, and nothing in the cache.
abbrev reopened : FileStore ℕ
reopened = record { files = ("a", "[e1]") ∷ []; cache = []; last_pos = pos 1 }

abbrev IsRead : List (Envelope ℕ ℕ) → String → Type 0
IsRead current text = (text ≢ "") × (unmarshal text ≡ some (current ++ numbered (pos 0) (a1 ∷ [])))

one_event : IsRead [] "[e1]"
unfolding ◌+ℤ◌
one_event = ((λ e. ground (arith, eq_true "[e1]" "" e)), refl)

-- The value of an option that has one.
abbrev value {ℓ} : {A : Type ℓ} → A → Option A → A
value d none = d
value d (some a) = a

reads_back : ReadsBack marshal unmarshal base empty_store "a" (a1 ∷ [])
unfolding get load_from_file place_events ◌+ℤ◌
reads_back current had text given =
    subst (λ l. (t : String) → marshal (l ++ numbered (pos 0) (a1 ∷ [])) ≡ some t → IsRead l t)
      (ap (value []) had) (λ t made. subst (IsRead []) (ap (value "") made) one_event) text given

append_file-IsStored_example :
    (current : List (Envelope ℕ ℕ)) × IsStored marshal unmarshal base empty_store "a"
      (a1 ∷ [])
      current
      (append_file marshal unmarshal base true true "a" (pos 0) (a1 ∷ []) empty_store).0
unfolding append_file append_to is_valid_batch get load_from_file place_events save_to_file
    finish_append
append_file-IsStored_example =
    append_file-IsStored marshal unmarshal base true "a" (pos 0) a1 [] empty_store reads_back refl

shared_file-conflicts_example :
    (append_file marshal unmarshal base true true "b/a"
      (pos 0)
      (envelope "e9" "b/a" 1 ∷ [])
      reopened).1
    ≡ some (refused concurrency_conflict)
unfolding get load_from_file is_valid_batch
shared_file-conflicts_example =
    shared_file-conflicts marshal unmarshal base true "a" "b/a" (envelope "e9" "b/a" 1) []
      (at 1 a1 ∷ []) reopened refl refl (λ e. ground (arith, e)) refl refl

read_file_after-IsAscending_example :
    let r = read_file_after marshal unmarshal base true true (pos 0) (pos 0) reopened in
    IsAscending (at 1 a1 ∷ [])
    × All (IsAfter (pos 0)) (at 1 a1 ∷ [])
    × (ltb_ℤ (pos 0) (pos 0) ≡ false
        → Perm (at 1 a1 ∷ []) (select (λ e. ltb_ℤ (pos 0) e.position) (cached_events r.0.cache)))
    × ((name : String) → IsCached marshal unmarshal base true reopened reopened.files r.0 name)
unfolding read_file_after load_uncached load_entries get load_from_file put collect_after sort_by
read_file_after-IsAscending_example =
    read_file_after-IsAscending marshal unmarshal base true true (pos 0) (pos 0) reopened
      (at 1 a1 ∷ []) refl

read_file_after-returns_iff_example :
    ((l : List (Envelope ℕ ℕ)) × ((read_file_after marshal unmarshal base true true
          (pos 0)
          (pos 0)
          reopened).1
        ≡ some l))
    ↔ (◌≡◌ {A = Bool} true true × AllLoad marshal unmarshal base true reopened.files reopened)
read_file_after-returns_iff_example =
    read_file_after-returns_iff marshal unmarshal base true true (pos 0) (pos 0) reopened
