-- ===== src/EventStore/Memory/ReadAfter.antt =====
-- ReadAfter of a MemoryStore as a resumable feed.
use pericarp.Prelude.{
  String, ◌≡◌, refl, ap, sym, subst, ◌∙◌, ℕ, zero, suc, ◌+◌, ◌<◌, ◌^◌, none, List, [], ◌∷◌, ◌++◌,
  append-nil, arith, select-append, ap₂, length, take, drop, take-append-drop,
}
use pericarp.Prelude.Int.{ℤ, pos, negsuc, ◌≤ℤ◌, ltb_ℤ, step_pos}
use pericarp.Event.{Envelope}
use pericarp.EventStore.Contract.{last_position}
use pericarp.EventStore.Memory.{MemoryStore, append, read_after, read_loop, close}
use pericarp.EventStore.Memory.View.{place, head_after}
use pericarp.EventStore.Memory.Append.{log-append, head-append}
use pericarp.EventStore.Memory.Feed.{
  IsFeed, Rises-append, Rises-place, later, later_all, later_page,
}

module _ {Any : Type 0} where
  read_loop_unlimited :
      (p limit : ℤ) (n : ℕ) (log : List (Envelope Any Any))
      → limit ≤ℤ pos 0
      → read_loop p limit n log ≡ later p log
  unfolding read_loop
  read_loop_unlimited p limit n [] h = refl
  read_loop_unlimited p limit n (x ∷ log) h =
      ground (arith, read_loop_unlimited p limit n log, read_loop_unlimited p limit (suc n) log)

  read_loop_limited :
      (p : ℤ) (n k : ℕ) (log : List (Envelope Any Any))
      → read_loop p (pos (n + suc k)) n log ≡ take (suc k) (later p log)
  unfolding read_loop
  read_loop_limited p n k [] = refl
  read_loop_limited p n zero (x ∷ log) = ground (arith, read_loop_limited p n zero log)
  read_loop_limited p n (suc k) (x ∷ log) =
      let shift : suc n + suc k ≡ n + suc (suc k) = omega arith in
      ground (
        arith,
        read_loop_limited p n (suc k) log,
        subst (λ t. read_loop p (pos t) (suc n) log ≡ take (suc k) (later p log)) shift
            (read_loop_limited p (suc n) k log),
      )

  -- At most `limit` events, all of them for a limit that is not positive.
  abbrev pub page : ℤ → List (Envelope Any Any) → List (Envelope Any Any)
  page (pos zero) xs = xs
  page (pos (suc k)) xs = take (suc k) xs
  page (negsuc n) xs = xs

  -- ReadAfter returns the first `limit` events of the log that lie behind the position, and all of
  -- them for a limit that is not positive.
  pub read_after-page :
      (p limit : ℤ) (m : MemoryStore Any) → read_after p limit m ≡ page limit (later p m.log)
  unfolding read_after
  read_after-page p (pos zero) m = read_loop_unlimited p (pos 0) 0 m.log (omega arith)
  read_after-page p (pos (suc k)) m =
      subst (λ n. read_loop p (pos n) 0 m.log ≡ take (suc k) (later p m.log)) (omega arith)
        (read_loop_limited p 0 k m.log)
  read_after-page p (negsuc n) m = read_loop_unlimited p (negsuc n) 0 m.log (omega arith)

  pub page_split :
      (limit : ℤ) (xs : List (Envelope Any Any))
      → (rest : List (Envelope Any Any)) × (page limit xs ++ rest ≡ xs)
  page_split (pos zero) xs = ([], append-nil xs)
  page_split (pos (suc k)) xs = (drop (suc k) xs, take-append-drop (suc k) xs)
  page_split (negsuc n) xs = ([], append-nil xs)

  -- In a store whose positions rise, a page of the feed that is not empty, followed by everything
  -- behind the page's last position, is everything behind the position that the page was read from.
  pub read_after_resumes :
      (head : ℕ) (p limit : ℤ) (m : MemoryStore Any) (x : Envelope Any Any)
      (xs : List (Envelope Any Any))
      → IsFeed head m
      → read_after p limit m ≡ x ∷ xs
      → (x ∷ xs) ++ read_after (last_position p (x ∷ xs)) (pos 0) m ≡ read_after p (pos 0) m
  read_after_resumes head p limit m x xs feed read =
      let (rest, split) = page_split limit (later p m.log) in
      let got : page limit (later p m.log) ≡ x ∷ xs = sym (read_after-page p limit m) ∙ read in
      let whole : (x ∷ xs) ++ rest ≡ later p m.log =
        subst (λ l. l ++ rest ≡ later p m.log) got split in
      ap (λ l. (x ∷ xs) ++ l)
        (read_after-page (last_position p (x ∷ xs)) (pos 0) m
          ∙ later_page p (pos 0) m.log (pos head) x xs rest feed.rises (sym whole))
      ∙ whole
      ∙ sym (read_after-page p (pos 0) m)

  page_empty : (limit : ℤ) (xs : List (Envelope Any Any)) → page limit xs ≡ [] → xs ≡ []
  page_empty (pos zero) xs h = h
  page_empty (pos (suc k)) [] h = refl
  page_empty (pos (suc k)) (x ∷ xs) h = cc
  page_empty (negsuc n) xs h = h

  -- An empty page means that nothing lies behind the position.
  pub read_after_empty :
      (p limit : ℤ) (m : MemoryStore Any) → read_after p limit m ≡ [] → read_after p (pos 0) m ≡ []
  read_after_empty p limit m read =
      read_after-page p (pos 0) m
      ∙ page_empty limit (later p m.log) (sym (read_after-page p limit m) ∙ read)

  head_after-pos :
      (head : ℕ) (es : List (Envelope Any Any))
      → head + length es < 2 ^ 63
      → head_after (pos head) es ≡ pos (head + length es)
  head_after-pos head [] room = ground arith
  head_after-pos head (e ∷ es) room =
      rw (step_pos head (omega arith))
        (head_after-pos (head + 1) es (omega arith) ∙ ap pos (omega arith))

  -- A successful append of fewer events than reach 2^63 keeps the log's positions rising to its
  -- head, which moves by the number of events.
  pub append-IsFeed :
      (head : ℕ) (a : String) (v : ℤ) (es : List (Envelope Any Any)) (m : MemoryStore Any)
      → head + length es < 2 ^ 63
      → IsFeed head m
      → (append a v es m).1 ≡ none
      → IsFeed (head + length es) (append a v es m).0
  append-IsFeed head a v es m room feed done =
      let placed = Rises-place head es room in
      record {
        at_head =
            head-append a v es m done
            ∙ ap (λ p. head_after p es) feed.at_head
            ∙ head_after-pos head es room;
        rises = rw (log-append a v es m done) (
            rw feed.at_head (
              Rises-append (pos 0) m.log (pos head) (place (pos head) es) (pos (head + length es))
                feed.rises placed));
      }

  close-IsFeed : (head : ℕ) (m : MemoryStore Any) → IsFeed head m → IsFeed head (close m)
  unfolding close
  close-IsFeed head m feed = record { at_head = feed.at_head; rises = omega arith }

  -- In a store whose positions rise and stay below 2^63, whoever has read the feed up to a position
  -- at most the head finds behind it, after a successful append, what was there before and then the
  -- new batch.
  pub read_after-append :
      (head : ℕ) (p : ℤ) (a : String) (v : ℤ) (es : List (Envelope Any Any)) (m : MemoryStore Any)
      → head + length es < 2 ^ 63
      → IsFeed head m
      → p ≤ℤ pos head
      → (append a v es m).1 ≡ none
      → read_after p (pos 0) (append a v es m).0 ≡ read_after p (pos 0) m ++ place m.last_pos es
  read_after-append head p a v es m room feed le done =
      read_after-page p (pos 0) (append a v es m).0
      ∙ ap (later p) (log-append a v es m done)
      ∙ select-append (λ event. ltb_ℤ p event.position) m.log (place m.last_pos es)
      ∙ ap₂ (λ xs ys. xs ++ ys) (sym (read_after-page p (pos 0) m))
          (rw feed.at_head (
            later_all p (pos head) (place (pos head) es) (pos (head + length es)) le
              (Rises-place head es room)))

  -- A store that was closed and reused gives no position twice: while its positions rise and stay
  -- below 2^63, the feed behind any position at most the head is exactly what a successful append
  -- stores after Close, placed behind the head.
  pub read_after-close_append :
      (head : ℕ) (p : ℤ) (a : String) (v : ℤ) (es : List (Envelope Any Any)) (m : MemoryStore Any)
      → head + length es < 2 ^ 63
      → IsFeed head m
      → p ≤ℤ pos head
      → (append a v es (close m)).1 ≡ none
      → read_after p (pos 0) (append a v es (close m)).0 ≡ place m.last_pos es
  read_after-close_append head p a v es m room feed le done =
      read_after-append head p a v es (close m) room (close-IsFeed head m feed) le done
      ∙ (unfold close read_after in refl)
