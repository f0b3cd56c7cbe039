-- ===== src/Features/Timeline.antt =====
-- features/runtime.py: `ReceiveTimeFeatureDriver`, which orders normalized events by the time of their
-- receipt and emits the decision ticks between them. Each method runs under a lock, so that a call
-- is one function; the event bus and the runtime that it calls are `Sinks`.
pub mod Spec
pub mod Ordered
pub mod Ticks
pub mod Publishing
pub mod Flushing
pub mod Advancing
pub mod Calls
pub mod Finishing
pub mod Delivered
pub mod Shrinking
pub mod Bounded
pub mod Failing
mod Runs
use Prim.Native.Nat.{Ordering, compare}
use Prim.Native.String.{String, compare as compare_text, then as or_then}
use cvf.Prelude.{
  ℕ, zero, suc, ◌+◌, ◌-◌, max, Bool, true, false, Option, none, some, List, [], ◌∷◌, ◌++◌, pos, leb,
  ltb, ◌==◌, length, if◌then◌else◌,
}
use cvf.Outcome.{Error, Result, ok, raise, value_error, runtime_error, cancelled_error}
use cvf.Exec.{Exec, continue, ◌>>=◌, ◌>>◌}
use cvf.Time.{DateTime, aware, utc}
use cvf.Clock.Scheduler
use cvf.Clock.Scheduler.{DecisionTick, DecisionScheduler, has_due_tick, advance_to}

-- What the driver reads of a normalized event, its payload apart: `sequence_id` is the text of the
-- event's, and `content_identity` the digest of its JSON.
pub record TimelineEvent (P : Type 0) : Type 0 where
  pub exchange : String
  pub symbol : String
  pub event_type : String
  pub sequence_id : Option String
  pub raw_payload_reference : Option String
  pub content_identity : String
  pub local_receive_timestamp : DateTime
  pub payload : P

-- What the driver calls, over the world `W` that it changes: `publish` and `drain` of the event bus,
-- and `consume_tick` of the runtime.
pub record Sinks (E W : Type 0) : Type 0 where
  pub publish : E → Exec W (Unit {0})
  pub drain : Exec W (Unit {0})
  pub consume_tick : DecisionTick → Exec W (Unit {0})

-- The settings, in microseconds and events.
pub record TimelineSettings : Type 0 where
  pub lateness : ℕ
  pub capacity : ℕ
  pub feature_interval : ℕ
  pub signal_interval : ℕ

module _ (P : Type 0) where
  pub record QueuedEvent : Type 0 where
    pub receive_timestamp : ℕ
    pub ordinal : ℕ
    pub event : TimelineEvent P

  -- `events` is the heap, as the list in which it gives its items out.
  pub record Driver (W : Type 0) : Type 0 where
    pub scheduler : Option DecisionScheduler
    pub events : List QueuedEvent
    pub ordinal : ℕ
    pub watermark : Option ℕ
    pub maximum_seen : Option ℕ
    pub sealed : Bool
    pub failed : Bool
    pub world : W

unfoldable pub or_empty : Option String → String
or_empty none = ""
or_empty (some text) = text

module _ {P : Type 0} where
  -- The comparison of two `_QueuedFeatureEvent`s, field by field.
  unfoldable pub order : QueuedEvent P → QueuedEvent P → Ordering
  unfolding or_empty
  order x y =
      let a = x.event in
      let b = y.event in
      or_then (compare x.receive_timestamp y.receive_timestamp) (
        or_then (compare_text a.exchange b.exchange) (
          or_then (compare_text a.symbol b.symbol) (
            or_then (compare_text a.event_type b.event_type) (
              or_then (compare_text (or_empty a.sequence_id) (or_empty b.sequence_id)) (
                or_then
                  (compare_text (or_empty a.raw_payload_reference)
                    (or_empty b.raw_payload_reference))
                  (or_then (compare_text a.content_identity b.content_identity)
                    (compare x.ordinal y.ordinal)))))))

  unfoldable pub before : QueuedEvent P → QueuedEvent P → Bool
  before x y = elim (order x y) [ Ordering.gt ↦ false | _ ↦ true ]

  -- `heappush`; ordinals differ, so that no two items are equal and the order of the heap is this list.
  unfoldable pub push_event : QueuedEvent P → List (QueuedEvent P) → List (QueuedEvent P)
  push_event x [] = x ∷ []
  push_event x (y ∷ ys) = let rest = push_event x ys in if before x y then x ∷ y ∷ ys else y ∷ rest

unfoldable pub later : Option ℕ → ℕ → ℕ
later none t = t
later (some m) t = max m t

-- `watermark is not None and t <= watermark`.
unfoldable pub is_behind : ℕ → Option ℕ → Bool
is_behind t none = false
is_behind t (some w) = leb t w

module _ {P W : Type 0} (k : Sinks (TimelineEvent P) W) (settings : TimelineSettings) where
  -- A call of a sink.
  unfoldable pub on_world : Exec W (Unit {0}) → Exec (Driver P W) (Unit {0})
  on_world call s = let (r, w) = call s.world in (r, record s { world = w })

  unfoldable pub consume_ticks : List DecisionTick → Exec (Driver P W) (Unit {0})
  consume_ticks [] s = (ok tt, s)
  consume_ticks (tick ∷ ticks) s = (on_world (k.consume_tick tick) >> consume_ticks ticks) s

  -- `for tick in scheduler.advance_to(target)`, the scheduler advanced before the first tick.
  unfoldable pub take_ticks : ℕ → DecisionScheduler → Exec (Driver P W) (Unit {0})
  take_ticks target scheduler s = elim (advance_to scheduler (aware target)) [
    | ok (ticks, moved) ↦ consume_ticks ticks (record s { scheduler = some moved })
    | raise e ↦ (raise e, s)
  ]

  unfoldable pub emit_if_due : Result Bool → ℕ → DecisionScheduler → Exec (Driver P W) (Unit {0})
  emit_if_due (ok true) target scheduler s = (on_world k.drain >> take_ticks target scheduler) s
  emit_if_due (ok false) target scheduler s = (ok tt, s)
  emit_if_due (raise e) target scheduler s = (raise e, s)

  unfoldable pub emit_from : Option DecisionScheduler → ℕ → Exec (Driver P W) (Unit {0})
  emit_from none target s = (ok tt, s)
  emit_from (some scheduler) target s =
      if ltb target scheduler.cursor
      then (ok tt, s)
      else emit_if_due (has_due_tick scheduler (aware target)) target scheduler s

  unfoldable pub emit_ticks_through : ℕ → Exec (Driver P W) (Unit {0})
  emit_ticks_through target s = emit_from s.scheduler target s

  unfoldable pub ensure_from : Option DecisionScheduler → ℕ → Exec (Driver P W) (Unit {0})
  ensure_from (some scheduler) start s = (ok tt, s)
  ensure_from none start s =
      elim (Scheduler.init (aware start) (pos settings.feature_interval)
        (pos settings.signal_interval)) [
          | ok scheduler ↦ (ok tt, record s { scheduler = some scheduler })
          | raise e ↦ (raise e, s)
        ]

  -- The scheduler starts at the first event.
  unfoldable pub ensure_scheduler : ℕ → Exec (Driver P W) (Unit {0})
  ensure_scheduler start s = ensure_from s.scheduler start s

  -- The inner `while` of `_advance_locked`, over what the heap holds: each event is popped, then published.
  unfoldable pub publish_at : ℕ → List (QueuedEvent P) → Exec (Driver P W) (Unit {0})
  publish_at t [] s = (ok tt, s)
  publish_at t (x ∷ xs) s = elim (x.receive_timestamp == t) [
    | true ↦ (on_world (k.publish x.event) >> publish_at t xs) (record s { events = xs })
    | false ↦ (ok tt, s)
  ]

  -- One round of the outer `while`, for the earliest event time `t`.
  unfoldable pub release : ℕ → Exec (Driver P W) (Unit {0})
  release t = ensure_scheduler t >> emit_ticks_through (t - 1) >> λ s. publish_at t s.events s

  -- The outer `while`, on fuel: each round publishes an event at least.
  unfoldable pub flush : ℕ → ℕ → Exec (Driver P W) (Unit {0})
  unfolding release
  flush zero target s = (ok tt, s)
  flush (suc fuel) target s = elim s.events [
    | [] ↦ (ok tt, s)
    | x ∷ xs ↦ elim (leb x.receive_timestamp target) [
      | true ↦ (release x.receive_timestamp >> flush fuel target) s
      | false ↦ (ok tt, s)
    ]
  ]

  unfoldable pub advance_locked : ℕ → Exec (Driver P W) (Unit {0})
  unfolding is_behind
  advance_locked target s =
      if is_behind target s.watermark
      then (ok tt, s)
      else (flush (length s.events) target >> emit_ticks_through target >> λ s'.
            (ok tt, record s' { watermark = some target }))
          s

  -- The end of `_publish_locked`: the buffer's bound, then the push.
  unfoldable pub enqueue : TimelineEvent P → ℕ → Exec (Driver P W) (Unit {0})
  unfolding later
  enqueue event timestamp s =
      if leb settings.capacity (length s.events)
      then (raise runtime_error, s)
      else (let ordinal = s.ordinal + 1 in
          (
            ok tt,
            record s {
              ordinal = ordinal;
              events =
                  push_event
                    (record { receive_timestamp = timestamp; ordinal = ordinal; event = event })
                    s.events;
              maximum_seen = some (later s.maximum_seen timestamp);
            },
          ))

  unfoldable pub publish_locked : TimelineEvent P → ℕ → Exec (Driver P W) (Unit {0})
  publish_locked event timestamp =
      advance_locked (timestamp - settings.lateness) >> enqueue event timestamp

unfoldable pub utc_of : Option DateTime → Option (Result ℕ)
utc_of none = none
utc_of (some t) = some (utc t)

-- `_complete_despite_cancellation`, that is `await_task_completion` of utils/async_lifecycle.py: the
-- operation runs to its end also where its waiter is cancelled meanwhile, and its own exception goes
-- before the cancellation.
unfoldable pub await_task_completion : Bool → Result (Unit {0}) → Result (Unit {0})
await_task_completion cancelled (raise e) = raise e
await_task_completion true (ok x) = raise cancelled_error
await_task_completion false (ok x) = ok x

-- The exceptions that `_run_transition` remembers, all but `CancelledError`.
unfoldable pub fails : Error → Bool → Bool
fails cancelled_error failed = failed
fails _ failed = true

unfoldable pub run_transition :
    {P W : Type 0} → Bool → Exec (Driver P W) (Unit {0}) → Exec (Driver P W) (Unit {0})
unfolding await_task_completion fails
run_transition cancelled operation s =
    let (r, s') = operation s in
    elim (await_task_completion cancelled r) [
      | ok _ ↦ (ok tt, s')
      | raise e ↦ (raise e, record s' { failed = fails e s'.failed })
    ]

-- `_raise_if_failed`.
unfoldable pub unless_failed :
    {P W : Type 0} → Exec (Driver P W) (Unit {0}) → Exec (Driver P W) (Unit {0})
unless_failed operation s = if s.failed then (raise runtime_error, s) else operation s

module _ {P W : Type 0} (k : Sinks (TimelineEvent P) W) (settings : TimelineSettings) where
  unfoldable pub publish_at_time : Bool → TimelineEvent P → Result ℕ → Exec (Driver P W) (Unit {0})
  unfolding is_behind
  publish_at_time cancelled event (raise e) s = (raise e, s)
  publish_at_time cancelled event (ok timestamp) s =
      if is_behind timestamp s.watermark
      then (raise runtime_error, s)
      else run_transition cancelled (publish_locked k settings event timestamp) s

  -- The public methods; `cancelled` tells whether the caller is cancelled while the transition runs.
  unfoldable pub publish_under : Bool → TimelineEvent P → Exec (Driver P W) (Unit {0})
  publish_under cancelled event = unless_failed λ s.
      if s.sealed
      then (raise runtime_error, s)
      else publish_at_time cancelled event (utc event.local_receive_timestamp) s

  unfoldable pub advance_time : Bool → Result ℕ → Exec (Driver P W) (Unit {0})
  advance_time cancelled (raise e) s = (raise e, s)
  advance_time cancelled (ok timestamp) s =
      run_transition cancelled (advance_locked k settings timestamp) s

  unfoldable pub advance_under : Bool → DateTime → Exec (Driver P W) (Unit {0})
  advance_under cancelled timestamp =
      unless_failed λ s. if s.sealed then (ok tt, s) else advance_time cancelled (utc timestamp) s

  -- `finish_locked`, its candidates the largest time seen and the given one.
  unfoldable pub advance_through : Option ℕ → Option (Result ℕ) → Exec (Driver P W) (Unit {0})
  unfolding later
  advance_through none none s = (ok tt, s)
  advance_through (some m) none s = advance_locked k settings m s
  advance_through m (some (ok t)) s = advance_locked k settings (later m t) s
  advance_through m (some (raise e)) s = (raise e, s)

  unfoldable pub finish_locked : Option (Result ℕ) → Exec (Driver P W) (Unit {0})
  finish_locked through s =
      (advance_through s.maximum_seen through >> on_world k settings k.drain >> λ s'.
      (ok tt, record s' { sealed = true }))
        s

  unfoldable pub finish_under : Bool → Option DateTime → Exec (Driver P W) (Unit {0})
  finish_under cancelled through = unless_failed λ s.
      if s.sealed then (ok tt, s) else run_transition cancelled (finish_locked (utc_of through)) s

  -- The methods where nobody cancels their caller.
  unfoldable pub publish : TimelineEvent P → Exec (Driver P W) (Unit {0})
  unfolding publish_under
  publish = publish_under false

  unfoldable pub advance : DateTime → Exec (Driver P W) (Unit {0})
  unfolding advance_under
  advance = advance_under false

  unfoldable pub finish : Option DateTime → Exec (Driver P W) (Unit {0})
  unfolding finish_under
  finish = finish_under false
