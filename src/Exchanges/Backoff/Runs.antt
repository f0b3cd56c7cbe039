-- ===== src/Exchanges/Backoff/Runs.antt =====
-- Delays of one policy.
use cvf.Prelude.{◌+◌, ◌≤◌, min, ◌≡◌, refl, pos, arith}
use cvf.Outcome.{ok, raise, value_error}
use cvf.Exchanges.Backoff.{
  BackoffPolicy, init, delay_loop, delay, doubled_times, delay-doubled_times,
}

abbrev policy : BackoffPolicy
policy = record {
  initial_seconds = 3;
  maximum_seconds = 20;
  jitter_seconds = 4;
  stable_reset_seconds = 60;
}

constructed : init (pos 3) (pos 20) (pos 4) (pos 60) ≡ ok policy
unfolding init
constructed = refl

rejected : init (pos 3) (pos 2) (pos 4) (pos 60) ≡ raise value_error
unfolding init
rejected = refl

third : delay (λ low high. high) policy (pos 3) ≡ ok 16
unfolding delay delay_loop
third = refl

fourth : delay (λ low high. high) policy (pos 4) ≡ ok 24
unfolding delay delay_loop
fourth = refl

delay-doubled_times_example :
    (delay (λ low high. high) policy (pos 4) ≡ ok (min 20 (doubled_times 3 3) + 4))
    × (min 20 (doubled_times 3 3) + 4 ≤ 20 + 4)
delay-doubled_times_example =
    delay-doubled_times (λ low high. high) policy 3 (λ low high h. omega arith) (omega arith)
