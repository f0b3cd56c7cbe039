-- ===== src/Features/Timeline/Runs.antt =====
-- Tests of the timeline driver, and its theorems at concrete inputs.
use cvf.Prelude.{true, false, ℕ, ◌≤◌, ◌≡◌, refl, none, some, List, [], ◌∷◌, true, length, arith}
use cvf.Outcome.{ok, raise, runtime_error}
use cvf.Time.{aware}
use cvf.Clock.Scheduler.{
  feature, signal, init, next_boundary, has_due_tick, advance_to, advance_loop, due_ticks,
  pass_boundary,
}
use cvf.Features.Timeline.{
  TimelineEvent, QueuedEvent, Driver, TimelineSettings, or_empty, order, before, push_event, later,
  is_behind, on_world, consume_ticks, take_ticks, emit_if_due, emit_from, emit_ticks_through,
  ensure_from, ensure_scheduler, publish_at, release, flush, advance_locked, enqueue,
  publish_locked, await_task_completion, fails, publish_under, advance_under, finish_under,
  run_transition, unless_failed, publish_at_time, publish, advance_time, advance, advance_through,
  finish_locked, utc_of, finish,
}
use cvf.Features.Timeline.Spec.{Action, published, ticked, trace}
use cvf.Features.Timeline.Calls.{IsUsable, ordered, fresh, queued}
use cvf.Features.Timeline.Delivered.{
  Reached, Reached.start, Reached.accepted, Delivers, shown, Reached-Delivers, finish-shown,
}
use cvf.Features.Timeline.Flushing.{Shows.idle, Flushed, flush-Flushed}
use cvf.Features.Timeline.Bounded.{Call.publishing, Call.finishing, take_call, take_call-capacity}

driver_opened : Unit {0}
unfolding or_empty order before push_event later is_behind on_world consume_ticks take_ticks
    emit_if_due emit_from emit_ticks_through ensure_from ensure_scheduler publish_at release flush
    advance_locked enqueue publish_locked await_task_completion fails run_transition unless_failed
    publish_at_time publish_under publish advance_time advance_under finish_under advance
    advance_through finish_locked utc_of finish init next_boundary has_due_tick advance_to
    advance_loop due_ticks pass_boundary take_call
driver_opened = tt

-- Two microseconds of lateness, two events at most, features every five microseconds and signals every
-- ten.
abbrev small : TimelineSettings
small = record { lateness = 2; capacity = 2; feature_interval = 5; signal_interval = 10 }

small-IsUsable : IsUsable small
small-IsUsable = record { intervals = (omega arith, omega arith); lateness = omega arith }

abbrev event_at : ℕ → TimelineEvent ℕ
event_at t = record {
  exchange = "binance";
  symbol = "BTCUSDT";
  event_type = "trade";
  sequence_id = none;
  raw_payload_reference = none;
  content_identity = "a";
  local_receive_timestamp = aware t;
  payload = t;
}

abbrev item : ℕ → ℕ → QueuedEvent ℕ
item t n = record { receive_timestamp = t; ordinal = n; event = event_at t }

-- After an event at 12, and after a late one at 11.
abbrev state1 : Driver ℕ (List (Action ℕ))
state1 = record fresh {
  events = item 12 1 ∷ [];
  ordinal = 1;
  watermark = some 10;
  maximum_seen = some 12;
}

abbrev state2 : Driver ℕ (List (Action ℕ))
state2 = record state1 { events = item 11 2 ∷ item 12 1 ∷ []; ordinal = 2 }

run1 : publish trace small (event_at 12) fresh ≡ (ok tt, state1)
unfolding driver_opened
run1 = refl

run2 : publish trace small (event_at 11) state1 ≡ (ok tt, state2)
unfolding driver_opened
run2 = refl

abbrev state3 : Driver ℕ (List (Action ℕ))
state3 = (finish trace small (some (aware 20)) state2).1

-- The late event comes out first, and the ticks follow.
run3 :
    state3.world
    ≡ published (event_at 11)
      ∷ published (event_at 12)
      ∷ ticked (record { timestamp = 15; kind = feature })
      ∷ ticked (record { timestamp = 20; kind = feature })
      ∷ ticked (record { timestamp = 20; kind = signal })
      ∷ []
unfolding driver_opened
run3 = refl

finished3 : finish trace small (some (aware 20)) state2 ≡ (ok tt, state3)
unfolding driver_opened
finished3 = refl

behind : publish trace small (event_at 10) state2 ≡ (raise runtime_error, state2)
unfolding driver_opened
behind = refl

full :
    publish trace small (event_at 12) state2
    ≡ (raise runtime_error, record state2 { failed = true })
unfolding driver_opened
full = refl

two-Reached :
    Reached small (queued (event_at 11) 11 state2 ∷ queued (event_at 12) 12 state1 ∷ []) state2
two-Reached =
    accepted _ state1 state2 (event_at 11) 11
      (accepted _ fresh state1 (event_at 12) 12 start refl (omega arith) run1) refl (omega arith)
      run2

Reached-Delivers_example :
    Delivers small (queued (event_at 11) 11 state2 ∷ queued (event_at 12) 12 state1 ∷ []) state2
Reached-Delivers_example =
    Reached-Delivers small small-IsUsable
      (queued (event_at 11) 11 state2 ∷ queued (event_at 12) 12 state1 ∷ []) state2 two-Reached

finish-shown_example :
    (state3.events ≡ [])
    × (state3.world
        ≡ shown small
            (ordered (queued (event_at 11) 11 state2 ∷ queued (event_at 12) 12 state1 ∷ []))
            state3.watermark)
finish-shown_example =
    finish-shown small small-IsUsable
      (queued (event_at 11) 11 state2 ∷ queued (event_at 12) 12 state1 ∷ []) state2 state3
      (some (aware 20)) two-Reached refl finished3

take_call-capacity_example :
    length (take_call trace small false (publishing (event_at 12)) state2).1.events ≤ 2
take_call-capacity_example =
    take_call-capacity trace small false (publishing (event_at 12)) state2 (omega arith)

full_call :
    take_call trace small false (publishing (event_at 12)) state2
    ≡ (raise runtime_error, record state2 { failed = true })
unfolding driver_opened
full_call = refl

interrupted_and_on : (take_call trace small false (finishing (some (aware 20))) state2).0 ≡ ok tt
unfolding driver_opened
interrupted_and_on = refl

flush-Flushed_example :
    (sent : List (QueuedEvent ℕ)) × (s' : Driver ℕ (List (Action ℕ))) × (flush trace small 2 11
        state2
      ≡ (ok tt, s'))
    × Flushed small (omega arith, omega arith) 11 [] sent state2 s'
flush-Flushed_example =
    flush-Flushed small (omega arith, omega arith) 2 11 (some 10) (item 11 2 ∷ item 12 1 ∷ []) []
      state2 refl (omega arith) (omega arith) (idle refl refl refl) (omega arith, (omega arith, tt))
      ((omega arith, tt), (tt, tt))
