-- ===== src/Exchanges/Backoff.antt =====
-- exchanges/session.py: `BackoffPolicy`. Doubling, comparing and taking a minimum are exact on finite
-- floats, so that seconds are counted in a unit of which all four are multiples; the sum with the jitter
-- is exact here and rounded there.
mod Runs
use cvf.Prelude.{
  ℕ, zero, suc, ◌+◌, ◌*◌, ◌≤◌, ◌<◌, min, ◌≡◌, refl, sym, ap, ◌∙◌, Bool, true, false, ltb, leb, ◌==◌,
  ==→eq, ==→ne, le→ltb, if◌then◌else◌, ℤ, pos, negsuc, inl, inr, Bool-cases, arith,
}
use cvf.Outcome.{Result, ok, raise, value_error}

-- The two signed fields that the constructor tests against zero are natural once it has.
pub record BackoffPolicy : Type 0 where
  pub initial_seconds : ℕ
  pub maximum_seconds : ℕ
  pub jitter_seconds : ℕ
  pub stable_reset_seconds : ℕ

-- `BackoffPolicy(...)`, the tests in order.
unfoldable pub init : ℤ → ℤ → ℤ → ℤ → Result BackoffPolicy
init (pos (suc initial)) (pos maximum) jitter reset =
    if ltb maximum (suc initial)
    then raise value_error
    else init_rest (suc initial) maximum jitter reset
  where
    init_rest : ℕ → ℕ → ℤ → ℤ → Result BackoffPolicy
    init_rest i m (pos j) (pos (suc r)) = ok (record {
      initial_seconds = i;
      maximum_seconds = m;
      jitter_seconds = j;
      stable_reset_seconds = suc r;
    })
    init_rest i m _ _ = raise value_error
init _ _ jitter reset = raise value_error

-- The loop of `delay`, with its break.
unfoldable pub delay_loop : ℕ → ℕ → ℕ → ℕ
delay_loop maximum zero base = base
delay_loop maximum (suc rounds) base =
    let doubled = min maximum (base * 2) in
    let rest = delay_loop maximum rounds doubled in if doubled == maximum then doubled else rest

-- `delay`, with `uniform` for `random.uniform`.
unfoldable pub delay : (ℕ → ℕ → ℕ) → BackoffPolicy → ℤ → Result ℕ
unfolding delay_loop
delay uniform policy (pos (suc rounds)) = ok (
    delay_loop policy.maximum_seconds rounds policy.initial_seconds
    + uniform 0 policy.jitter_seconds)
delay uniform policy _ = raise value_error

-- A delay doubled a number of times.
abbrev pub doubled_times : ℕ → ℕ → ℕ
doubled_times zero base = base
doubled_times (suc n) base = doubled_times n (base * 2)

doubled_times_grows : (n base : ℕ) → base ≤ doubled_times n base
doubled_times_grows zero base = omega arith
doubled_times_grows (suc n) base = omega (arith, doubled_times_grows n (base * 2))

delay_loop-min :
    (maximum n base : ℕ)
    → base ≤ maximum
    → delay_loop maximum n base ≡ min maximum (doubled_times n base)
unfolding delay_loop
delay_loop-min maximum zero base h = omega (arith, h)
delay_loop-min maximum (suc n) base h = elim (Bool-cases (min maximum (base * 2) == maximum)) [
  | inl e ↦ rw e (
      let reached = ==→eq (min maximum (base * 2)) maximum e in
      omega (arith, reached, doubled_times_grows n (base * 2)))
  | inr e ↦
      let below = ==→ne (min maximum (base * 2)) maximum e in
      let same : min maximum (base * 2) ≡ base * 2 = omega (arith, below) in
      rw e (rw same (delay_loop-min maximum n (base * 2) (omega (arith, below))))
]

-- For a policy whose first delay is within its maximum, the delay of attempt `n + 1` is the first delay
-- doubled `n` times, cut at the maximum, and the jitter: so it is at most the maximum and the largest
-- jitter, for a `uniform` that stays within its bounds.
pub delay-doubled_times :
    (uniform : ℕ → ℕ → ℕ) (policy : BackoffPolicy) (n : ℕ)
    → ((low high : ℕ) → low ≤ high → uniform low high ≤ high)
    → policy.initial_seconds ≤ policy.maximum_seconds
    → (delay uniform policy (pos (suc n))
        ≡ ok (
            min policy.maximum_seconds (doubled_times n policy.initial_seconds)
            + uniform 0 policy.jitter_seconds))
      × (min policy.maximum_seconds (doubled_times n policy.initial_seconds)
            + uniform 0 policy.jitter_seconds
          ≤ policy.maximum_seconds + policy.jitter_seconds)
unfolding delay
delay-doubled_times uniform policy n bounded h = (
  ap (λ base. ok (base + uniform 0 policy.jitter_seconds))
      (delay_loop-min policy.maximum_seconds n policy.initial_seconds h),
  omega (arith, bounded 0 policy.jitter_seconds (omega arith)),
)
