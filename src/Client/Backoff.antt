-- ===== src/Client/Backoff.antt =====
-- GetExponentialBackoffTime of client/client.go. The loop counter c runs over 0, 3, 6, … up to
-- `tried`; `left` is `tried - c`. The durations are natural numbers of nanoseconds.
use Prim.Native.Nat.{max}
use native.Mathlib.Nat.{pow-suc}
use mender.Prelude.{
  ℕ, zero, suc, ◌+◌, ◌*◌, ◌^◌, ◌≡◌, ◌≤◌, ◌<◌, ◌⊎◌, leb, ltb, Result, ok, err, other, if◌then◌else◌,
  arith,
}

-- ExponentialBackoffSmallestUnit: a minute.
abbrev pub smallest_unit : ℕ
smallest_unit = 60 * 10 ^ 9

-- The interval is not below the maximum: give up after three tries with it.
at_max : ℕ → ℕ → Result ℕ
at_max (suc (suc (suc left))) max_interval = err (other "Tried maximum amount of times")
at_max left max_interval =
    if ltb max_interval smallest_unit then ok smallest_unit else ok max_interval

backoff_loop : ℕ → ℕ → ℕ → Result ℕ
backoff_loop (suc (suc (suc left))) interval max_interval =
    let next = backoff_loop left (interval * 2) max_interval in
    if leb max_interval interval then at_max (suc (suc (suc left))) max_interval else next
backoff_loop left interval max_interval =
    if leb max_interval interval then at_max left max_interval else ok interval

unfoldable pub get_exponential_backoff_time : ℕ → ℕ → Result ℕ
unfolding backoff_loop at_max
get_exponential_backoff_time tried max_interval = backoff_loop tried smallest_unit max_interval

backoff_loop_bounds :
    (left interval max_interval t : ℕ)
    → smallest_unit ≤ interval
    → backoff_loop left interval max_interval ≡ ok t
    → (smallest_unit ≤ t) × (t ≤ max_interval)
      ⊎ (max_interval < smallest_unit) × (t ≡ smallest_unit)
unfolding backoff_loop at_max
backoff_loop_bounds (suc (suc (suc left))) interval m t h e =
    ground (arith, backoff_loop_bounds left (interval * 2) m t)
backoff_loop_bounds zero interval m t h e = ground arith
backoff_loop_bounds (suc zero) interval m t h e = ground arith
backoff_loop_bounds (suc (suc zero)) interval m t h e = ground arith

-- A wait is at least the smallest unit, and at most the maximal interval unless that is below the
-- smallest unit, when the wait is the smallest unit.
backoff_bounds :
    (tried max_interval t : ℕ)
    → get_exponential_backoff_time tried max_interval ≡ ok t
    → (smallest_unit ≤ t) × (t ≤ max_interval)
      ⊎ (max_interval < smallest_unit) × (t ≡ smallest_unit)
unfolding get_exponential_backoff_time
backoff_bounds tried m t e = backoff_loop_bounds tried smallest_unit m t (omega arith) e

double_pow : (a k : ℕ) → a * 2 ^ suc k ≡ a * 2 * 2 ^ k
double_pow a k = rw pow-suc (omega arith)

le_pow : (a k : ℕ) → a ≤ a * 2 ^ suc k
le_pow a zero = omega arith
le_pow a (suc k) = omega (arith, le_pow a k, double_pow a (suc k), double_pow a k)

backoff_loop_ends :
    (k left interval max_interval : ℕ)
    → max_interval ≤ interval * 2 ^ k
    → 3 * k + 3 ≤ left
    → backoff_loop left interval max_interval ≡ err (other "Tried maximum amount of times")
unfolding backoff_loop at_max
backoff_loop_ends zero (suc (suc (suc left))) interval m h l = ground arith
backoff_loop_ends (suc k) (suc (suc (suc left))) interval m h l =
    ground (arith, double_pow interval k, backoff_loop_ends k left (interval * 2) m)
backoff_loop_ends k zero interval m h l = absurd (omega arith)
backoff_loop_ends k (suc zero) interval m h l = absurd (omega arith)
backoff_loop_ends k (suc (suc zero)) interval m h l = absurd (omega arith)

-- Once k doublings of the smallest unit reach the maximal interval, 3 k + 3 tries are the end.
pub backoff_gives_up :
    (k tried max_interval : ℕ)
    → max_interval ≤ smallest_unit * 2 ^ k
    → 3 * k + 3 ≤ tried
    → get_exponential_backoff_time tried max_interval ≡ err (other "Tried maximum amount of times")
unfolding get_exponential_backoff_time
backoff_gives_up k tried m h l = backoff_loop_ends k tried smallest_unit m h l

backoff_loop_doubles :
    (q left interval max_interval : ℕ)
    → 3 * q ≤ left
    → left < 3 * q + 3
    → interval * 2 ^ q < max_interval
    → backoff_loop left interval max_interval ≡ ok (interval * 2 ^ q)
unfolding backoff_loop
backoff_loop_doubles zero zero interval m l h b = ground arith
backoff_loop_doubles zero (suc zero) interval m l h b = ground arith
backoff_loop_doubles zero (suc (suc zero)) interval m l h b = ground arith
backoff_loop_doubles zero (suc (suc (suc left))) interval m l h b = absurd (omega arith)
backoff_loop_doubles (suc q) (suc (suc (suc left))) interval m l h b =
    ground (
      arith,
      double_pow interval q,
      le_pow interval q,
      backoff_loop_doubles q left (interval * 2) m,
    )
backoff_loop_doubles (suc q) zero interval m l h b = absurd (omega arith)
backoff_loop_doubles (suc q) (suc zero) interval m l h b = absurd (omega arith)
backoff_loop_doubles (suc q) (suc (suc zero)) interval m l h b = absurd (omega arith)

-- Three tries with each interval: as long as the q-th doubling is below the maximum, the tries
-- 3 q, 3 q + 1 and 3 q + 2 wait for the smallest unit doubled q times.
backoff_doubles :
    (q tried max_interval : ℕ)
    → 3 * q ≤ tried
    → tried < 3 * q + 3
    → smallest_unit * 2 ^ q < max_interval
    → get_exponential_backoff_time tried max_interval ≡ ok (smallest_unit * 2 ^ q)
unfolding get_exponential_backoff_time
backoff_doubles q tried m l h b = backoff_loop_doubles q tried smallest_unit m l h b

le_pow_all : (a k : ℕ) → a ≤ a * 2 ^ k
le_pow_all a zero = omega arith
le_pow_all a (suc k) = le_pow a k

at_max_lem :
    (left interval m : ℕ)
    → left < 3
    → m ≤ interval
    → backoff_loop left interval m ≡ ok (max smallest_unit m)
unfolding backoff_loop at_max
at_max_lem zero interval m l h = ground arith
at_max_lem (suc zero) interval m l h = ground arith
at_max_lem (suc (suc zero)) interval m l h = ground arith
at_max_lem (suc (suc (suc left))) interval m l h = absurd (omega arith)

backoff_loop_at_max :
    (q left interval m : ℕ)
    → 3 * q ≤ left
    → left < 3 * q + 3
    → m ≤ interval * 2 ^ q
    → (q ≡ 0) ⊎ (interval * 2 ^ q < 2 * m)
    → backoff_loop left interval m ≡ ok (max smallest_unit m)
unfolding backoff_loop
backoff_loop_at_max zero left interval m l h b c = at_max_lem left interval m h (omega arith)
backoff_loop_at_max (suc q) (suc (suc (suc left))) interval m l h b c = ground (
  arith,
  double_pow interval q,
  le_pow_all (interval * 2) q,
  backoff_loop_at_max q left (interval * 2) m,
)
backoff_loop_at_max (suc q) zero interval m l h b c = absurd (omega arith)
backoff_loop_at_max (suc q) (suc zero) interval m l h b c = absurd (omega arith)
backoff_loop_at_max (suc q) (suc (suc zero)) interval m l h b c = absurd (omega arith)

-- The three tries with the first interval that is not below the maximum: they wait for the maximum,
-- or for the smallest unit if that is longer.
backoff_at_max :
    (q tried max_interval : ℕ)
    → 3 * q ≤ tried
    → tried < 3 * q + 3
    → max_interval ≤ smallest_unit * 2 ^ q
    → (q ≡ 0) ⊎ (smallest_unit * 2 ^ q < 2 * max_interval)
    → get_exponential_backoff_time tried max_interval ≡ ok (max smallest_unit max_interval)
unfolding get_exponential_backoff_time
backoff_at_max q tried m l h b c = backoff_loop_at_max q tried smallest_unit m l h b c
