-- ===== src/EventStore/Memory/Concurrency.antt =====
-- The version check of a MemoryStore's Append.
use pericarp.Prelude.{
  String, ◌==◌, eq_refl, true, ◌≡◌, ◌≢◌, ap, ◌∙◌, none, some, List, [], ◌∷◌, arith, last_or,
  if◌then◌else◌,
}
use pericarp.Prelude.Int.{ℤ, pos, negsuc, eqb_ℤ→eq}
use pericarp.Prelude.Dict.{get-put, get_or}
use pericarp.Event.{Envelope, concurrency_conflict}
use pericarp.EventStore.Memory.{MemoryStore, is_valid_batch, append, get_current_version}
use pericarp.EventStore.Memory.Append.{accepted, append_outcome, stored}
use pericarp.EventStore.Memory.View.{versions-append_loop}

module _ {Any : Type 0} where
  version-stored :
      (a : String) (e : Envelope Any Any) (es : List (Envelope Any Any)) (m : MemoryStore Any)
      (b : String)
      → get_current_version b (stored a e es m)
        ≡ (if a == b then (last_or e es).sequence_no else get_current_version b m)
  unfolding get_current_version
  version-stored a e es m b = ground (
    arith,
    get-put m.versions a (last_or e es).sequence_no b,
    versions-append_loop (e ∷ es) m (get_or m.events a []),
  )

  -- After a successful append the aggregate's version is the sequence number of the batch's last
  -- event, and the versions of the other aggregates are as before.
  pub version-append :
      (a : String) (v : ℤ) (e : Envelope Any Any) (es : List (Envelope Any Any))
      (m : MemoryStore Any) (b : String)
      → (append a v (e ∷ es) m).1 ≡ none
      → get_current_version b (append a v (e ∷ es) m).0
        ≡ (if a == b then (last_or e es).sequence_no else get_current_version b m)
  version-append a v e es m b done =
      ap (get_current_version b) (accepted a v e es m done).2 ∙ version-stored a e es m b

  pub conflict_of_version :
      (a : String) (v : ℤ) (e : Envelope Any Any) (es : List (Envelope Any Any))
      (m : MemoryStore Any)
      → is_valid_batch a (e ∷ es) ≡ true
      → v ≢ negsuc 0
      → get_current_version a m ≢ v
      → append a v (e ∷ es) m ≡ (m, some concurrency_conflict)
  unfolding get_current_version
  conflict_of_version a v e es m valid checked stale =
      append_outcome a v e es m
      ∙ ground (arith, eqb_ℤ→eq v (negsuc 0), eqb_ℤ→eq (get_or m.versions a (pos 0)) v)

  -- Of two writers that append to one aggregate at the same expected version, and not at -1, the
  -- second gets a conflict and changes nothing, if the first succeeded and moved the version and
  -- the events of the second are valid: they all have an id and belong to the aggregate.
  pub second_writer_conflicts :
      (a : String) (v : ℤ) (e e' : Envelope Any Any) (es es' : List (Envelope Any Any))
      (m : MemoryStore Any)
      → v ≢ negsuc 0
      → (append a v (e ∷ es) m).1 ≡ none
      → (last_or e es).sequence_no ≢ v
      → is_valid_batch a (e' ∷ es') ≡ true
      → append a v (e' ∷ es') (append a v (e ∷ es) m).0
        ≡ ((append a v (e ∷ es) m).0, some concurrency_conflict)
  second_writer_conflicts a v e e' es es' m checked done moved valid =
      let m' = (append a v (e ∷ es) m).0 in
      conflict_of_version a v e' es' m' valid checked
        (λ same. moved (ground (arith, version-append a v e es m a done, eq_refl a, same)))
