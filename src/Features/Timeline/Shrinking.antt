-- ===== src/Features/Timeline/Shrinking.antt =====
-- features/runtime.py: what the steps of a call do to the length of the buffer, whatever the
-- sinks do.
use cvf.Prelude.{
  ℕ, zero, suc, ◌-◌, ◌≤◌, ◌≡◌, refl, ap, List, [], ◌∷◌, Bool, true, false, Option, none, some,
  length, arith, leb, leb→lt, if◌then◌else◌, ◌==◌, ltb, Bool-cases, inl, inr, pos,
}
use cvf.Outcome.{Result, ok, raise, Result-cases}
use cvf.Exec.{Exec, continue, ◌>>=◌, ◌>>◌}
use cvf.Time.{aware}
use cvf.Clock.Scheduler.{DecisionTick, DecisionScheduler, init, has_due_tick, advance_to}
use cvf.Features.Timeline.{
  TimelineEvent, QueuedEvent, Sinks, Driver, TimelineSettings, is_behind, on_world, consume_ticks,
  take_ticks, emit_if_due, emit_from, emit_ticks_through, ensure_from, ensure_scheduler, publish_at,
  release, flush, advance_locked, enqueue,
}
use cvf.Features.Timeline.Ordered.{length-push_event}

module _ {P W : Type 0} where
  -- A step after which the buffer holds `n` events at most.
  abbrev pub Leaves : ℕ → Result (Unit {0}) × Driver P W → Type 0
  Leaves n q = length q.1.events ≤ n

  -- Steps that add nothing to the buffer.
  abbrev pub Shrinks : Exec (Driver P W) (Unit {0}) → Type 0
  Shrinks op = (n : ℕ) (s : Driver P W) → length s.events ≤ n → Leaves n (op s)

  pub continue-Leaves :
      (n : ℕ) (r : Result (Unit {0})) (f : Unit {0} → Exec (Driver P W) (Unit {0})) (s : Driver P W)
      → length s.events ≤ n
      → Leaves n (f tt s)
      → Leaves n (continue r f s)
  continue-Leaves n (ok _) f s h g = g
  continue-Leaves n (raise e) f s h g = h

  pub if-Leaves :
      (n : ℕ) (b : Bool) (x y : Result (Unit {0}) × Driver P W)
      → Leaves n x
      → Leaves n y
      → Leaves n (if b then x else y)
  if-Leaves n true x y h g = h
  if-Leaves n false x y h g = g

  pub then-Leaves :
      (n : ℕ) (m : Exec (Driver P W) (Unit {0})) (f : Unit {0} → Exec (Driver P W) (Unit {0}))
      (s : Driver P W)
      → Leaves n (m s)
      → Shrinks (f tt)
      → Leaves n ((m >>= f) s)
  then-Leaves n m f s h g = continue-Leaves n (m s).0 f (m s).1 h (g n (m s).1 h)

module _ {P W : Type 0} (k : Sinks (TimelineEvent P) W) (settings : TimelineSettings) where
  pub on_world-Shrinks : (call : Exec W (Unit {0})) → Shrinks (on_world k settings call)
  unfolding on_world
  on_world-Shrinks call n s h = h

  consume_ticks-Shrinks : (ticks : List DecisionTick) → Shrinks (consume_ticks k settings ticks)
  unfolding consume_ticks
  consume_ticks-Shrinks [] n s h = h
  consume_ticks-Shrinks (t ∷ ts) n s h =
      then-Leaves n (on_world k settings (k.consume_tick t)) _ s
        (on_world-Shrinks (k.consume_tick t) n s h) (consume_ticks-Shrinks ts)

  take_ticks-Shrinks :
      (target : ℕ) (scheduler : DecisionScheduler)
      → Shrinks (take_ticks k settings target scheduler)
  unfolding take_ticks
  take_ticks-Shrinks target scheduler n s h =
      elim (Result-cases (advance_to scheduler (aware target))) [
        | inl done ↦
            rw (done.1, take_ticks)
              (consume_ticks-Shrinks done.0.0 n (record s { scheduler = some done.0.1 }) h)
        | inr failing ↦ rw (failing.1, take_ticks) h
      ]

  emit_if_due-Shrinks :
      (r : Result Bool) (target : ℕ) (scheduler : DecisionScheduler)
      → Shrinks (emit_if_due k settings r target scheduler)
  unfolding emit_if_due
  emit_if_due-Shrinks (ok true) target scheduler n s h =
      then-Leaves n (on_world k settings k.drain) _ s (on_world-Shrinks k.drain n s h)
        (take_ticks-Shrinks target scheduler)
  emit_if_due-Shrinks (ok false) target scheduler n s h = h
  emit_if_due-Shrinks (raise e) target scheduler n s h = h

  emit_from-Shrinks :
      (o : Option DecisionScheduler) (target : ℕ) → Shrinks (emit_from k settings o target)
  unfolding emit_from
  emit_from-Shrinks none target n s h = h
  emit_from-Shrinks (some c) target n s h = elim (Bool-cases (ltb target c.cursor)) [
    | inl behind ↦ rw behind h
    | inr ahead ↦ rw ahead (emit_if_due-Shrinks (has_due_tick c (aware target)) target c n s h)
  ]

  emit_ticks_through-Shrinks : (target : ℕ) → Shrinks (emit_ticks_through k settings target)
  unfolding emit_ticks_through
  emit_ticks_through-Shrinks target n s h = emit_from-Shrinks s.scheduler target n s h

  ensure_from-Shrinks :
      (o : Option DecisionScheduler) (t : ℕ) → Shrinks (ensure_from k settings o t)
  unfolding ensure_from
  ensure_from-Shrinks (some c) t n s h = h
  ensure_from-Shrinks none t n s h =
      elim (Result-cases
        (init (aware t) (pos settings.feature_interval) (pos settings.signal_interval))) [
          | inl done ↦ rw (done.1, ensure_from) h
          | inr failing ↦ rw (failing.1, ensure_from) h
        ]

  ensure_scheduler-Shrinks : (t : ℕ) → Shrinks (ensure_scheduler k settings t)
  unfolding ensure_scheduler
  ensure_scheduler-Shrinks t n s h = ensure_from-Shrinks s.scheduler t n s h

  -- The events of the list are what the buffer holds, or are gone already.
  publish_at-Leaves :
      (t : ℕ) (xs : List (QueuedEvent P)) (n : ℕ) (s : Driver P W)
      → length xs ≤ n
      → length s.events ≤ n
      → Leaves n (publish_at k settings t xs s)
  unfolding publish_at on_world
  publish_at-Leaves t [] n s le h = h
  publish_at-Leaves t (x ∷ xs) n s le h = elim (Bool-cases (x.receive_timestamp == t)) [
    | inl now ↦
        let (r, w) = k.publish x.event s.world in
        let next : Driver P W = record s { events = xs; world = w } in
        rw (now, publish_at)
          (continue-Leaves n r (λ _. publish_at k settings t xs) next (omega arith)
            (publish_at-Leaves t xs n next (omega arith) (omega arith)))
    | inr other ↦ rw (other, publish_at) h
  ]

  publish_held-Shrinks : (t : ℕ) → Shrinks (λ s. publish_at k settings t s.events s)
  publish_held-Shrinks t n s h = publish_at-Leaves t s.events n s h h

  release-Shrinks : (t : ℕ) → Shrinks (release k settings t)
  unfolding release
  release-Shrinks t n s h =
      then-Leaves n (ensure_scheduler k settings t >> emit_ticks_through k settings (t - 1)) _ s
        (then-Leaves n (ensure_scheduler k settings t) _ s (ensure_scheduler-Shrinks t n s h)
          (emit_ticks_through-Shrinks (t - 1)))
        (publish_held-Shrinks t)

  flush-Leaves :
      (fuel target : ℕ) (xs : List (QueuedEvent P)) (n : ℕ) (s : Driver P W)
      → s.events ≡ xs
      → length s.events ≤ n
      → Leaves n (flush k settings fuel target s)
  unfolding flush
  flush-Leaves zero target xs n s e h = h
  flush-Leaves (suc fuel) target [] n s e h = rw (e, flush) (omega arith)
  flush-Leaves (suc fuel) target (x ∷ xs) n s e h =
      elim (Bool-cases (leb x.receive_timestamp target)) [
        | inl now ↦
            rw (e, now, flush)
              (then-Leaves n (release k settings x.receive_timestamp) _ s
                (release-Shrinks x.receive_timestamp n s h)
                (λ m s' h'. flush-Leaves fuel target s'.events m s' refl h'))
        | inr rest ↦ rw (e, rest, flush) (omega (arith, ap length e))
      ]

  flush-Shrinks : (fuel target : ℕ) → Shrinks (flush k settings fuel target)
  flush-Shrinks fuel target n s h = flush-Leaves fuel target s.events n s refl h

  mark-Shrinks :
      (target : ℕ) → Shrinks {P = P} {W = W} (λ s. (ok tt, record s { watermark = some target }))
  mark-Shrinks target n s h = h

  pub advance_locked-Shrinks : (target : ℕ) → Shrinks (advance_locked k settings target)
  unfolding advance_locked
  advance_locked-Shrinks target n s h = elim (Bool-cases (is_behind target s.watermark)) [
    | inl behind ↦ rw behind h
    | inr ahead ↦ rw ahead (
        then-Leaves n
          (flush k settings (length s.events) target >> emit_ticks_through k settings target) _ s
          (then-Leaves n (flush k settings (length s.events) target) _ s
            (flush-Shrinks (length s.events) target n s h) (emit_ticks_through-Shrinks target))
          (mark-Shrinks target))
  ]

  pub enqueue-Leaves :
      (event : TimelineEvent P) (t : ℕ) (s : Driver P W)
      → length s.events ≤ settings.capacity
      → Leaves settings.capacity (enqueue k settings event t s)
  unfolding enqueue
  enqueue-Leaves event t s h = elim (Bool-cases (leb settings.capacity (length s.events))) [
    | inl full ↦ rw full h
    | inr room ↦
        let lt = leb→lt settings.capacity (length s.events) room in
        rw room (omega (arith, length-push_event _ s.events))
  ]
