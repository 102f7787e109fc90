-- ===== src/UnitOfWork/Batches.antt =====
-- The batches of a SimpleUnitOfWork's Commit and the clearing of the entities (unitofwork.go).
use mathlib.Core.List.Perm
use mathlib.Core.List.{Perm, Permᴰ, Perm-prop, perm_append_comm}
use mathlib.Core.Logic.{∥∥₁_elim}
use pericarp.Prelude.{
  String, Bool, true, false, ◌||◌, ◌≡◌, refl, ap, subst, ℕ, List, [], ◌∷◌, ◌++◌, append_assoc, eqb,
  map, List-cases, arith, if◌then◌else◌, inl, inr,
}
use pericarp.Prelude.Dict.{Dict}
use pericarp.Event.{Envelope}
use pericarp.Entity.{BaseEntity, clear_uncommitted_events}
use pericarp.UnitOfWork.{Heap, collect, stamp, stamp_all, all_events, clear_all}

-- The reference stands in the map of tracked entities.
abbrev pub is_listed : ℕ → Dict ℕ → Bool
is_listed r [] = false
is_listed r ((k, q) ∷ rest) = eqb r q || is_listed r rest

module _ {Any : Type 0} where
  swap_blocks : (xs ys zs : List (Envelope Any Any)) → Perm (xs ++ (ys ++ zs)) (ys ++ (xs ++ zs))
  swap_blocks xs ys zs =
      subst (λ l. Perm l (ys ++ (xs ++ zs))) (append_assoc xs ys zs)
        (subst (λ l. Perm ((xs ++ ys) ++ zs) l) (append_assoc ys xs zs)
          (Perm.append_right zs (perm_append_comm xs ys)))

  all_events-permᴰ :
      {xs ys : Dict (List (Envelope Any Any))} → Permᴰ xs ys → Perm (all_events xs) (all_events ys)
  all_events-permᴰ Permᴰ.nil = Perm.refl []
  all_events-permᴰ (Permᴰ.cons {a} {b} {l₁} {l₂} e p) =
      subst (λ c. Perm (a.1 ++ all_events l₁) (c.1 ++ all_events l₂)) e
        (Perm.append_left a.1 (all_events-permᴰ p))
  all_events-permᴰ (Permᴰ.swap {a} {b} {a'} {b'} {l} e f) =
      subst (λ c. Perm (a.1 ++ (b.1 ++ all_events l)) (c.1 ++ (b'.1 ++ all_events l))) f
        (subst (λ c. Perm (a.1 ++ (b.1 ++ all_events l)) (b.1 ++ (c.1 ++ all_events l))) e
          (swap_blocks a.1 b.1 (all_events l)))
  all_events-permᴰ (Permᴰ.trans p q) = Perm.trans (all_events-permᴰ p) (all_events-permᴰ q)

  pub all_events-perm :
      {xs ys : Dict (List (Envelope Any Any))} → Perm xs ys → Perm (all_events xs) (all_events ys)
  all_events-perm p = ∥∥₁_elim p Perm-prop all_events-permᴰ

  pub clear_all-eq :
      (entities : Dict ℕ) (h : Heap Any) (r : ℕ)
      → clear_all entities h r
        ≡ (if is_listed r entities then clear_uncommitted_events (h r) else h r)
  unfolding clear_all clear_uncommitted_events
  clear_all-eq [] h r = refl
  clear_all-eq ((k, q) ∷ rest) h r =
      ground
        (arith, clear_all-eq rest (λ p. if eqb p q then clear_uncommitted_events (h p) else h p) r)

  pub nothing_collected :
      (entities : Dict ℕ) (h : Heap Any) (r : ℕ)
      → collect h entities ≡ []
      → is_listed r entities ≡ true
      → (h r).uncommitted_events ≡ []
  unfolding collect
  nothing_collected [] h r e l = absurd (cc)
  nothing_collected ((k, q) ∷ rest) h r e l = ground (arith, nothing_collected rest h r)

  -- The uncommitted events of the tracked entities, each with the transaction id.
  abbrev pub tracked_events : String → Heap Any → Dict ℕ → List (Envelope Any Any)
  tracked_events transaction_id h [] = []
  tracked_events transaction_id h ((aggregate_id, r) ∷ rest) =
      map (λ (event : Envelope Any Any). record event { transaction_id = transaction_id })
        (h r).uncommitted_events
      ++ tracked_events transaction_id h rest

  pub all_events-tracked :
      (tx : String) (h : Heap Any) (entities : Dict ℕ)
      → all_events (stamp_all tx (collect h entities)) ≡ tracked_events tx h entities
  unfolding collect
  all_events-tracked tx h [] = refl
  all_events-tracked tx h ((k, q) ∷ rest) = elim (List-cases (h q).uncommitted_events) [
    | inl empty ↦ rw (empty, collect) (all_events-tracked tx h rest)
    | inr (event, events, some_events) ↦
        rw (some_events, collect)
          (ap (λ l. map (stamp tx) (event ∷ events) ++ l) (all_events-tracked tx h rest))
  ]

  -- The same events by aggregate, without the entities that have none.
  abbrev pub tracked_batches : String → Heap Any → Dict ℕ → Dict (List (Envelope Any Any))
  tracked_batches transaction_id h [] = []
  tracked_batches transaction_id h ((aggregate_id, r) ∷ rest) =
      let later = tracked_batches transaction_id h rest in
      elim (h r).uncommitted_events [
        | [] ↦ later
        | event ∷ events ↦
            (
              aggregate_id,
              map (λ (e : Envelope Any Any). record e { transaction_id = transaction_id })
                  (event ∷ events),
            )
            ∷ later
      ]

  pub stamp_all-collect :
      (tx : String) (h : Heap Any) (entities : Dict ℕ)
      → stamp_all tx (collect h entities) ≡ tracked_batches tx h entities
  unfolding collect
  stamp_all-collect tx h [] = refl
  stamp_all-collect tx h ((k, q) ∷ rest) = elim (List-cases (h q).uncommitted_events) [
    | inl empty ↦ rw (empty, collect, tracked_batches) (stamp_all-collect tx h rest)
    | inr (event, events, some_events) ↦
        rw (some_events, collect, tracked_batches)
          (ap (λ l. (k, map (stamp tx) (event ∷ events)) ∷ l) (stamp_all-collect tx h rest))
  ]

  pub given :
      (d : Bool) (xs ys : List (Envelope Any Any))
      → Perm xs ys
      → Perm (if d then xs else []) (if d then ys else [])
  given true xs ys p = p
  given false xs ys p = Perm.refl []

  pub no_events : (d : Bool) → Perm {A = Envelope Any Any} [] (if d then [] else [])
  no_events true = Perm.refl []
  no_events false = Perm.refl []

  pub clear_nothing :
      (e : BaseEntity Any) → e.uncommitted_events ≡ [] → clear_uncommitted_events e ≡ e
  unfolding clear_uncommitted_events
  clear_nothing e h = ground arith
