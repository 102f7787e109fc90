-- ===== src/EventStore/Memory/Feed.antt =====
-- Logs whose positions rise, and what lies behind a position in them (memory_store.go).
use pericarp.Prelude.{
  ◌≡◌, refl, ap, sym, subst, ◌∙◌, ℕ, ◌+◌, ◌<◌, ◌^◌, List, [], ◌∷◌, ◌++◌, append_assoc, arith,
  select, length,
}
use pericarp.Prelude.Int.{ℤ, pos, ◌<ℤ◌, ◌≤ℤ◌, ltb_ℤ, leb_ℤ, step_pos}
use pericarp.Event.{Envelope}
use pericarp.EventStore.Contract.{last_position}
use pericarp.EventStore.Memory.{MemoryStore}
use pericarp.EventStore.Memory.View.{place}

module _ {Any : Type 0} where
  -- Positions above `lo` that rise strictly and stay at most `hi`.
  abbrev pub Rises : ℤ → List (Envelope Any Any) → ℤ → Type 0
  Rises lo [] hi = lo ≤ℤ hi
  Rises lo (event ∷ events) hi = (lo <ℤ event.position) × Rises event.position events hi

  pub Rises-le : (lo : ℤ) (xs : List (Envelope Any Any)) (hi : ℤ) → Rises lo xs hi → lo ≤ℤ hi
  Rises-le lo [] hi h = h
  Rises-le lo (x ∷ xs) hi h = omega (arith, Rises-le x.position xs hi h.1)

  Rises-lower :
      (lo mid : ℤ) (xs : List (Envelope Any Any)) (hi : ℤ)
      → lo ≤ℤ mid
      → Rises mid xs hi
      → Rises lo xs hi
  Rises-lower lo mid [] hi le h = omega arith
  Rises-lower lo mid (x ∷ xs) hi le h = (omega arith, h.1)

  pub Rises-append :
      (lo : ℤ) (xs : List (Envelope Any Any)) (mid : ℤ) (ys : List (Envelope Any Any)) (hi : ℤ)
      → Rises lo xs mid
      → Rises mid ys hi
      → Rises lo (xs ++ ys) hi
  Rises-append lo [] mid ys hi hx hy = Rises-lower lo mid ys hi hx hy
  Rises-append lo (x ∷ xs) mid ys hi hx hy = (hx.0, Rises-append x.position xs mid ys hi hx.1 hy)

  pub Rises-place :
      (head : ℕ) (es : List (Envelope Any Any))
      → head + length es < 2 ^ 63
      → Rises (pos head) (place (pos head) es) (pos (head + length es))
  Rises-place head [] room = omega arith
  Rises-place head (e ∷ es) room = rw (step_pos head (omega arith)) (
    omega arith,
    subst (λ n. Rises (pos (head + 1)) (place (pos (head + 1)) es) (pos n)) (omega arith)
        (Rises-place (head + 1) es (omega arith)),
  )

  -- The log's positions rise strictly from 1 on, and none passes the head.
  pub record IsFeed (head : ℕ) (m : MemoryStore Any) : Type 0 where
    pub at_head : m.last_pos ≡ pos head
    pub rises : Rises (pos 0) m.log (pos head)

  -- The events after a position, in the order of the log.
  abbrev pub later : ℤ → List (Envelope Any Any) → List (Envelope Any Any)
  later p = select (λ event. ltb_ℤ p event.position)

  abbrev early : ℤ → List (Envelope Any Any) → List (Envelope Any Any)
  early p = select (λ event. leb_ℤ event.position p)

  pub later_all :
      (p lo : ℤ) (xs : List (Envelope Any Any)) (hi : ℤ)
      → p ≤ℤ lo
      → Rises lo xs hi
      → later p xs ≡ xs
  later_all p lo [] hi le h = refl
  later_all p lo (x ∷ xs) hi le h = ground (arith, later_all p x.position xs hi)

  early_none :
      (p lo : ℤ) (xs : List (Envelope Any Any)) (hi : ℤ)
      → p <ℤ lo
      → Rises lo xs hi
      → early p xs ≡ []
  early_none p lo [] hi le h = refl
  early_none p lo (x ∷ xs) hi le h = ground (arith, early_none p x.position xs hi)

  early-later :
      (p lo : ℤ) (xs : List (Envelope Any Any)) (hi : ℤ)
      → Rises lo xs hi
      → early p xs ++ later p xs ≡ xs
  early-later p lo [] hi h = refl
  early-later p lo (x ∷ xs) hi h = ground (
    arith,
    early_none p x.position xs hi,
    later_all p x.position xs hi,
    early-later p x.position xs hi,
  )

  Rises-last_position :
      (lo : ℤ) (xs ys : List (Envelope Any Any)) (hi : ℤ)
      → Rises lo (xs ++ ys) hi
      → lo ≤ℤ last_position lo xs
  Rises-last_position lo [] ys hi h = omega arith
  Rises-last_position lo (x ∷ xs) ys hi h =
      omega (arith, Rises-last_position x.position xs ys hi h.1)

  later_prefix :
      (lo : ℤ) (xs ys : List (Envelope Any Any)) (hi : ℤ)
      → Rises lo (xs ++ ys) hi
      → later (last_position lo xs) (xs ++ ys) ≡ ys
  later_prefix lo [] ys hi h = later_all lo lo ys hi (omega arith) h
  later_prefix lo (x ∷ xs) ys hi h =
      ground (arith, Rises-last_position x.position xs ys hi, later_prefix x.position xs ys hi)

  last_position-append :
      (lo p : ℤ) (xs : List (Envelope Any Any)) (y : Envelope Any Any)
      (ys : List (Envelope Any Any))
      → last_position lo (xs ++ y ∷ ys) ≡ last_position p (y ∷ ys)
  last_position-append lo p [] y ys = refl
  last_position-append lo p (x ∷ xs) y ys = last_position-append x.position p xs y ys

  -- Past a page that starts after `p`, what is left of the events after `p` is the events after
  -- the page's last position.
  pub later_page :
      (p lo : ℤ) (log : List (Envelope Any Any)) (hi : ℤ) (x : Envelope Any Any)
      (page rest : List (Envelope Any Any))
      → Rises lo log hi
      → later p log ≡ (x ∷ page) ++ rest
      → later (last_position p (x ∷ page)) log ≡ rest
  later_page p lo log hi x page rest h split =
      let whole : (early p log ++ x ∷ page) ++ rest ≡ log =
        append_assoc (early p log) (x ∷ page) rest
        ∙ ap (λ l. early p log ++ l) (sym split)
        ∙ early-later p lo log hi h in
      subst (λ l. later (last_position p (x ∷ page)) l ≡ rest) whole
        (subst (λ q. later q ((early p log ++ x ∷ page) ++ rest) ≡ rest)
          (last_position-append lo p (early p log) x page)
          (later_prefix lo (early p log ++ x ∷ page) rest hi
            (subst (λ l. Rises lo l hi) (sym whole) h)))
