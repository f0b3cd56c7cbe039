-- ===== src/Features/Timeline/Bounded.antt =====
-- features/runtime.py: the bound on the driver's buffer, whatever the sinks do.
use cvf.Prelude.{Bool, ℕ, ◌-◌, ◌≤◌, true, Option, none, some, length, Bool-cases, inl, inr}
use cvf.Outcome.{Result, ok, raise, runtime_error, Result-cases}
use cvf.Exec.{Exec, ◌>>◌}
use cvf.Time.{DateTime, utc}
use cvf.Features.Timeline.{
  TimelineEvent, Sinks, Driver, TimelineSettings, later, is_behind, on_world, advance_locked,
  enqueue, publish_locked, run_transition, unless_failed, await_task_completion, publish_at_time,
  publish_under, advance_time, advance_under, advance_through, finish_locked, utc_of, finish_under,
}
use cvf.Features.Timeline.Shrinking.{
  Leaves, Shrinks, continue-Leaves, if-Leaves, then-Leaves, on_world-Shrinks,
  advance_locked-Shrinks, enqueue-Leaves,
}

-- A call of a public method; `take_call` is told whether its caller is cancelled.
pub data Call (P : Type 0) : Type 0 where
  publishing : TimelineEvent P → Call P
  advancing : DateTime → Call P
  finishing : Option DateTime → Call P

module _ {P W : Type 0} (k : Sinks (TimelineEvent P) W) (settings : TimelineSettings) where
  unfoldable pub take_call : Bool → Call P → Exec (Driver P W) (Unit {0})
  take_call cancelled (publishing event) = publish_under k settings cancelled event
  take_call cancelled (advancing t) = advance_under k settings cancelled t
  take_call cancelled (finishing t) = finish_under k settings cancelled t

module _ {P W : Type 0} (k : Sinks (TimelineEvent P) W) (settings : TimelineSettings) where
  publish_locked-Leaves :
      (event : TimelineEvent P) (t : ℕ) (s : Driver P W)
      → length s.events ≤ settings.capacity
      → Leaves settings.capacity (publish_locked k settings event t s)
  unfolding publish_locked
  publish_locked-Leaves event t s h =
      let q = advance_locked k settings (t - settings.lateness) s in
      let held = advance_locked-Shrinks k settings (t - settings.lateness) settings.capacity s h in
      continue-Leaves settings.capacity q.0 (λ _. enqueue k settings event t) q.1 held
        (enqueue-Leaves k settings event t q.1 held)

  run_transition-Leaves :
      (cancelled : Bool) (op : Exec (Driver P W) (Unit {0})) (n : ℕ) (s : Driver P W)
      → Leaves n (op s)
      → Leaves n (run_transition cancelled op s)
  unfolding run_transition
  run_transition-Leaves cancelled op n s h =
      elim (Result-cases (await_task_completion cancelled (op s).0)) [
        | inl done ↦ rw (done.1, run_transition) h
        | inr failing ↦ rw (failing.1, run_transition) h
      ]

  unless_failed-Leaves :
      (op : Exec (Driver P W) (Unit {0})) (n : ℕ) (s : Driver P W)
      → length s.events ≤ n
      → Leaves n (op s)
      → Leaves n (unless_failed op s)
  unfolding unless_failed
  unless_failed-Leaves op n s h g = if-Leaves n s.failed (raise runtime_error, s) (op s) h g

  publish_at_time-Leaves :
      (cancelled : Bool) (event : TimelineEvent P) (r : Result ℕ) (s : Driver P W)
      → length s.events ≤ settings.capacity
      → Leaves settings.capacity (publish_at_time k settings cancelled event r s)
  unfolding publish_at_time
  publish_at_time-Leaves cancelled event (raise e) s h = h
  publish_at_time-Leaves cancelled event (ok t) s h = elim (Bool-cases (is_behind t s.watermark)) [
    | inl behind ↦ rw behind h
    | inr ahead ↦ rw ahead (
        run_transition-Leaves cancelled (publish_locked k settings event t) settings.capacity s
          (publish_locked-Leaves event t s h))
  ]

  advance_time-Shrinks :
      (cancelled : Bool) (r : Result ℕ) → Shrinks (advance_time k settings cancelled r)
  unfolding advance_time
  advance_time-Shrinks cancelled (raise e) n s h = h
  advance_time-Shrinks cancelled (ok t) n s h =
      run_transition-Leaves cancelled (advance_locked k settings t) n s
        (advance_locked-Shrinks k settings t n s h)

  advance_through-Shrinks :
      (m : Option ℕ) (through : Option (Result ℕ)) → Shrinks (advance_through k settings m through)
  unfolding advance_through
  advance_through-Shrinks none none n s h = h
  advance_through-Shrinks (some v) none n s h = advance_locked-Shrinks k settings v n s h
  advance_through-Shrinks m (some (ok t)) n s h =
      advance_locked-Shrinks k settings (later m t) n s h
  advance_through-Shrinks m (some (raise e)) n s h = h

  seal-Shrinks : Shrinks {P = P} {W = W} (λ s. (ok tt, record s { sealed = true }))
  seal-Shrinks n s h = h

  finish_locked-Shrinks : (through : Option (Result ℕ)) → Shrinks (finish_locked k settings through)
  unfolding finish_locked
  finish_locked-Shrinks through n s h =
      then-Leaves n
        (advance_through k settings s.maximum_seen through >> on_world k settings k.drain) _ s
        (then-Leaves n (advance_through k settings s.maximum_seen through) _ s
          (advance_through-Shrinks s.maximum_seen through n s h)
          (on_world-Shrinks k settings k.drain))
        seal-Shrinks

  -- Whatever the sinks do, whether the caller is cancelled and whether the call raises: a call of `publish`, `advance_to` or `finish`
  -- on a buffer within its capacity leaves it within its capacity.
  pub take_call-capacity :
      (cancelled : Bool) (call : Call P) (s : Driver P W)
      → length s.events ≤ settings.capacity
      → length (take_call k settings cancelled call s).1.events ≤ settings.capacity
  unfolding take_call publish_under advance_under finish_under
  take_call-capacity cancelled (publishing event) s h =
      unless_failed-Leaves _ settings.capacity s h (
        if-Leaves settings.capacity s.sealed (raise runtime_error, s) _ h
          (publish_at_time-Leaves cancelled event (utc event.local_receive_timestamp) s h))
  take_call-capacity cancelled (advancing t) s h = unless_failed-Leaves _ settings.capacity s h (
      if-Leaves settings.capacity s.sealed (ok tt, s) _ h
        (advance_time-Shrinks cancelled (utc t) settings.capacity s h))
  take_call-capacity cancelled (finishing t) s h = unless_failed-Leaves _ settings.capacity s h (
      if-Leaves settings.capacity s.sealed (ok tt, s) _ h
        (run_transition-Leaves cancelled (finish_locked k settings (utc_of t)) settings.capacity s
          (finish_locked-Shrinks (utc_of t) settings.capacity s h)))
