-- ===== src/UnitOfWork/Tracking.antt =====
-- What Track of a SimpleUnitOfWork registers (unitofwork.go).
use pericarp.Prelude.{
  String, eq_iff, eq_refl, eq_true, subst, true, false, ◌≡◌, ◌≢◌, refl, ap, sym, ◌∙◌, ℕ, ◌+◌, ◌<◌,
  ◌^◌, Option, none, some, List, [], ◌∷◌, map, contains, length, arith, All, Bool-cases, inl, inr,
  ◌⊎◌,
}
use pericarp.Prelude.Int.{pos, ◌-ℤ◌}
use pericarp.Prelude.Dict.{get, put, get-put}
use pericarp.Entity.{BaseEntity}
use pericarp.Entity.Numbered.{IsNumbered}
use pericarp.UnitOfWork.{
  UnitOfWork, UowError, Heap, validate_all, has_duplicate, expected_version, track_all, track,
}

-- Below 2^63 the difference of a sum and a summand does not wrap.
sub_pos : (a b : ℕ) → a + b < 2 ^ 63 → pos (a + b) -ℤ pos b ≡ pos a
unfolding ◌-ℤ◌
sub_pos a b room = ground arith

module _ {Any : Type 0} where
  -- For an entity with events recorded on top of version `base`, fewer than reach 2^63, the version
  -- that Track expects in the store is `base`, whatever the number of uncommitted events.
  pub expected_version-base :
      (base : ℕ) (e : BaseEntity Any)
      → base + length e.uncommitted_events < 2 ^ 63
      → IsNumbered base e
      → expected_version e ≡ pos base
  unfolding expected_version
  expected_version-base base e room h = rw h.last (sub_pos base (length e.uncommitted_events) room)

module _ {Any : Type 0} (h : Heap Any) where
  abbrev pub ids : List ℕ → List String
  ids [] = []
  ids (r ∷ refs) = (h r).aggregate_id ∷ ids refs

  -- The entity is registered under its id, with the version before its uncommitted events.
  pub record IsTracked (u : UnitOfWork) (r : ℕ) : Type 0 where
    pub entity : get u.entities (h r).aggregate_id ≡ some r
    pub version : get u.expected_versions (h r).aggregate_id ≡ some (expected_version (h r))

  abbrev pub IsNew : UnitOfWork → ℕ → Type 0
  IsNew u r = ((h r).aggregate_id ≢ "") × (get u.entities (h r).aggregate_id ≡ none)

  -- A refused Track leaves the unit of work as it was.
  pub track_error_unchanged :
      (u : UnitOfWork) (entities : List (Option ℕ)) {x : UowError}
      → (track h entities u).1 ≡ some x
      → (track h entities u).0 ≡ u
  unfolding track
  track_error_unchanged u entities e = ground arith

  validate_step :
      (u : UnitOfWork) (r : ℕ) (rest : List (Option ℕ))
      → (validate_all h u (some r ∷ rest)).1 ≡ none
      → IsNew u r
        × ((validate_all h u rest).1 ≡ none)
        × ((validate_all h u (some r ∷ rest)).0 ≡ r ∷ (validate_all h u rest).0)
  unfolding validate_all
  validate_step u r rest e = (
    (λ p. ground (arith, eq_true (h r).aggregate_id "" p), ground arith),
    ground arith,
    ground arith,
  )

  validated :
      (u : UnitOfWork) (entities : List (Option ℕ))
      → (validate_all h u entities).1 ≡ none
      → (entities ≡ map some (validate_all h u entities).0)
        × All (IsNew u) (validate_all h u entities).0
  unfolding validate_all
  validated u [] e = (refl, tt)
  validated u (none ∷ rest) e = absurd (cc)
  validated u (some r ∷ rest) e =
      let (new, ok, refs) = validate_step u r rest e in
      let (same, all_new) = validated u rest ok in
      rw refs (ap (λ l. some r ∷ l) same, (new, all_new))

  unseen_after :
      (a : String) (seen : List String) (refs : List ℕ)
      → has_duplicate h seen refs ≡ false
      → contains seen a ≡ true
      → contains (ids refs) a ≡ false
  unfolding has_duplicate
  unseen_after a seen [] d s = refl
  unseen_after a seen (r ∷ refs) d s =
      ground (arith, eq_iff (h r).aggregate_id a, unseen_after a ((h r).aggregate_id ∷ seen) refs)

  entities-track_all_other :
      (refs : List ℕ) (u : UnitOfWork) (k : String)
      → contains (ids refs) k ≡ false
      → get (track_all h refs u).entities k ≡ get u.entities k
  unfolding track_all
  entities-track_all_other [] u k e = refl
  entities-track_all_other (r ∷ refs) u k e =
      let id = (h r).aggregate_id in
      let version = expected_version (h r) in
      entities-track_all_other refs
        (record u {
          entities = put u.entities id r;
          expected_versions = put u.expected_versions id version;
        })
        k (ground arith)
      ∙ ground (arith, get-put u.entities id r k)

  versions-track_all_other :
      (refs : List ℕ) (u : UnitOfWork) (k : String)
      → contains (ids refs) k ≡ false
      → get (track_all h refs u).expected_versions k ≡ get u.expected_versions k
  unfolding track_all
  versions-track_all_other [] u k e = refl
  versions-track_all_other (r ∷ refs) u k e =
      let id = (h r).aggregate_id in
      let version = expected_version (h r) in
      versions-track_all_other refs
        (record u {
          entities = put u.entities id r;
          expected_versions = put u.expected_versions id version;
        })
        k (ground arith)
      ∙ ground (arith, get-put u.expected_versions id version k)

  tracked :
      (refs : List ℕ) (seen : List String) (u : UnitOfWork)
      → has_duplicate h seen refs ≡ false
      → All (IsTracked (track_all h refs u)) refs
  unfolding has_duplicate track_all
  tracked [] seen u d = tt
  tracked (r ∷ refs) seen u d =
      let id = (h r).aggregate_id in
      let version = expected_version (h r) in
      let u' : UnitOfWork = record u {
        entities = put u.entities id r;
        expected_versions = put u.expected_versions id version;
      } in
      let rest_differs : contains (ids refs) id ≡ false =
        unseen_after id (id ∷ seen) refs (ground arith) (ground (arith, eq_refl id)) in
      (
        record {
          entity =
              entities-track_all_other refs u' id rest_differs
              ∙ ground (arith, get-put u.entities id r id, eq_refl id);
          version =
              versions-track_all_other refs u' id rest_differs
              ∙ ground (arith, get-put u.expected_versions id version id, eq_refl id);
        },
        tracked refs (id ∷ seen) u' (ground arith),
      )

  -- What an accepted Track did: no entity was nil, every id was new and not empty, every entity
  -- is registered under its id at its expected version, and other ids are registered as before.
  pub record Registered (u : UnitOfWork) (entities : List (Option ℕ)) (u' : UnitOfWork)
      : Type 0 where
    pub refs : List ℕ
    pub no_nil : entities ≡ map some refs
    pub all_new : All (IsNew u) refs
    pub all_tracked : All (IsTracked u') refs
    pub others :
        (k : String) → (get u'.entities k ≡ get u.entities k) ⊎ (contains (ids refs) k ≡ true)

  track_outcome :
      (u : UnitOfWork) (entities : List (Option ℕ))
      → (track h entities u).1 ≡ none
      → ((validate_all h u entities).1 ≡ none)
        × (has_duplicate h [] (validate_all h u entities).0 ≡ false)
        × ((track h entities u).0 ≡ track_all h (validate_all h u entities).0 u)
  unfolding track
  track_outcome u entities e = ground arith

  -- An accepted Track met no nil entity and only new ids that are not empty, and registers every
  -- entity of the batch at its expected version, and no other.
  pub track-Registered :
      (u : UnitOfWork) (entities : List (Option ℕ))
      → (track h entities u).1 ≡ none
      → Registered u entities (track h entities u).0
  track-Registered u entities e =
      let (valid, distinct, state) = track_outcome u entities e in
      let (no_nil, all_new) = validated u entities valid in
      let refs = (validate_all h u entities).0 in
      subst (Registered u entities) (sym state) (record {
        refs = refs;
        no_nil = no_nil;
        all_new = all_new;
        all_tracked = tracked refs [] u distinct;
        others = λ k. elim (Bool-cases (contains (ids refs) k)) [
          | inl in_batch ↦ inr in_batch
          | inr other ↦ inl (entities-track_all_other refs u k other)
        ];
      })
