-- ===== src/Subscriptions/Subscriber/Backoff.antt =====
-- The retry delays of a Subscriber (backoffDelay in subscriber.go).
use Prim.Native.Nat.{min}
use native.Mathlib.Nat.{pow-suc}
use pericarp.Prelude.{
  ℕ, zero, suc, ◌+◌, ◌*◌, ◌/◌, ◌^◌, ◌≤◌, ◌<◌, ◌≡◌, ap, sym, ◌∙◌, arith, Bool-cases, inl, inr,
}
use pericarp.Prelude.Int.{pos, ◌+ℤ◌, ltb_ℤ}
use pericarp.Subscriptions.Subscriber.{Subscriber, half, backoff_loop, backoff_delay}

double_pos : (i : ℕ) → i + i < 2 ^ 63 → pos i +ℤ pos i ≡ pos (i + i)
unfolding ◌+ℤ◌
double_pos i h = ground arith

pow_pos : (n : ℕ) → 0 < 2 ^ n
pow_pos zero = omega arith
pow_pos (suc n) = rw pow-suc (omega (arith, pow_pos n))

le_mul_pos : (i p : ℕ) → 0 < p → i ≤ i * p
le_mul_pos i p h = grind arith

-- Past half of the cap, the cap is the delay for every number of doublings.
above_cap : (m n i : ℕ) → m / 2 < i → min (i * 2 ^ suc n) m ≡ m
above_cap m n i h = rw pow-suc (omega (arith, le_mul_pos i (2 ^ n) (pow_pos n)))

backoff_loop-min :
    (m : ℕ) (n i : ℕ) → m < 2 ^ 63 → backoff_loop (pos m) n (pos i) ≡ pos (min (i * 2 ^ n) m)
unfolding backoff_loop
backoff_loop-min m zero i room = elim (Bool-cases (ltb_ℤ (pos i) (pos m))) [
  | inl small ↦ rw small (ap pos (ground arith))
  | inr large ↦ rw large (ap pos (ground arith))
]
backoff_loop-min m (suc n) i room = elim (Bool-cases (ltb_ℤ (half (pos m)) (pos i))) [
  | inl above ↦ rw above (ap pos (sym (above_cap m n i (ground arith))))
  | inr below ↦ rw below (
      ap (backoff_loop (pos m) n) (double_pos i (ground arith))
      ∙ backoff_loop-min m n (i + i) room
      ∙ ap (λ t. pos (min t m)) (rw pow-suc (omega arith)))
]

-- The delay behind an attempt is the first delay doubled as many times, capped: it never wraps
-- round, whatever the number of attempts, for delays that are not negative.
pub backoff_delay-min :
    (s : Subscriber) (initial cap attempt : ℕ)
    → cap < 2 ^ 63
    → s.retry_backoff ≡ pos initial
    → s.max_backoff ≡ pos cap
    → backoff_delay s attempt ≡ pos (min (initial * 2 ^ attempt) cap)
unfolding backoff_delay
backoff_delay-min s initial cap attempt room e f =
    rw e (rw f (backoff_loop-min cap attempt initial room))
