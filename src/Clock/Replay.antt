-- ===== src/Clock/Replay.antt =====
-- clock/replay.py: `ReplayClock`.
mod Runs
use cvf.Prelude.{
  ℕ, ◌≤◌, ◌<◌, ◌≡◌, refl, ap, ◌∙◌, Bool, true, false, List, [], ◌∷◌, ltb, max, if◌then◌else◌, inl,
  inr, Bool-cases, ltb→lt, ltb→le, arith,
}
use cvf.Outcome.{Result, ok, raise, value_error, ◌>>=◌}
use cvf.Exec.{Exec}
use cvf.Time.{DateTime, aware, naive, utc}

pub record ReplayClock : Type 0 where
  pub current : ℕ

unfoldable pub init : DateTime → Result ReplayClock
init start = utc start >>= λ t. ok (record { current = t })

unfoldable pub now : ReplayClock → ℕ
now clock = clock.current

unfoldable pub advance_to : DateTime → Exec ReplayClock (Unit {0})
advance_to (naive t) clock = (raise value_error, clock)
advance_to (aware t) clock =
    if ltb t clock.current then (raise value_error, clock) else (ok tt, record { current = t })

unfoldable pub sleep_until : DateTime → Exec ReplayClock (Unit {0})
unfolding advance_to
sleep_until target = advance_to target

-- The clock after some targets; one that raises does not stop the next.
abbrev pub after_targets : List DateTime → ReplayClock → ReplayClock
after_targets [] clock = clock
after_targets (target ∷ targets) clock = after_targets targets (advance_to target clock).1

-- The latest of a time and the aware ones of some targets.
abbrev pub latest_of : List DateTime → ℕ → ℕ
latest_of [] t = t
latest_of (aware u ∷ targets) t = latest_of targets (max t u)
latest_of (naive u ∷ targets) t = latest_of targets t

max_left : (a b : ℕ) → b < a → max a b ≡ a
max_left a b h = omega (arith, h)

max_right : (a b : ℕ) → a ≤ b → max a b ≡ b
max_right a b h = omega (arith, h)

-- After any targets the clock shows the latest of its start and the aware targets: it is never moved
-- back, and a target that is refused leaves it as it was.
pub now-after_targets :
    (targets : List DateTime) (clock : ReplayClock)
    → now (after_targets targets clock) ≡ latest_of targets (now clock)
unfolding now advance_to
now-after_targets [] clock = refl
now-after_targets (naive u ∷ targets) clock = now-after_targets targets clock
now-after_targets (aware u ∷ targets) clock = elim (Bool-cases (ltb u clock.current)) [
  | inl e ↦
      rw (e, advance_to)
        (rw (max_left clock.current u (ltb→lt u clock.current e)) (now-after_targets targets clock))
  | inr e ↦
      rw (e, advance_to)
        (rw (max_right clock.current u (ltb→le u clock.current e))
          (now-after_targets targets (record { current = u })))
]
