-- ===== src/Monitoring/Health/Runs.antt =====
-- Tests of the stream states, and their theorems at concrete inputs.
use cvf.Prelude.{
  ℕ, ◌+◌, ◌-◌, ◌/◌, max, ltb, pos_part, pos, negsuc, All, ◌≡◌, ◌⊎◌, refl, true, false, none, [],
  ◌∷◌, List,
}
use cvf.Outcome.{ok, raise, value_error}
use cvf.Dict.{lookup, assign, text_discrete}
use cvf.Monitoring.Health.Registry.{
  StreamKey, key_discrete, StreamHealthRegistry, keys, or_fresh, state_of, store,
  StreamHealthSnapshot, snapshot,
}
use cvf.Time.{aware, naive}
use cvf.Monitoring.Health.{
  Floats, fresh, difference, or_else, message_times, adjusted, raised_to, message_at,
  mark_connected, mark_disconnected, record_message, mark_resyncing, record_sequence_gap,
  mark_book_live,
}
use cvf.Monitoring.Health.Status.{
  connected, degraded, stale, resyncing, disconnected, Thresholds, stream_stale_threshold,
  is_open_interest_channel, passed, passed_since, unknown_or_passed, above, above_either_way,
  is_stale, is_open_interest_stale, is_degraded, status_at,
}
use cvf.Monitoring.Health.Streams.{
  is_refused, record_event, record_events, own, snapshot-record_events,
}
use cvf.Monitoring.Health.Gap.{
  book_live, KeepsGap, Event, connects, disconnects, message, sequence_gap, duplicate, take_event,
  after_events, status_at-record_sequence_gap,
}

opened : Unit {0}
unfolding lookup fresh difference or_else message_times adjusted raised_to message_at mark_connected
    mark_disconnected record_message mark_resyncing record_sequence_gap mark_book_live
    stream_stale_threshold is_open_interest_channel passed passed_since unknown_or_passed above
    above_either_way is_stale is_open_interest_stale is_degraded status_at take_event
opened = tt

-- Whole milliseconds.
abbrev whole : Floats
whole = record {
  Value = ℕ;
  milliseconds = λ t. pos_part t / 1000;
  minus = λ a b. a - b;
  plus = λ a b. a + b;
  greatest = max;
  magnitude = λ a. a;
  zero_value = 0;
  divided = λ a n. a / n;
  exceeds = λ a limit. ltb limit a;
}

abbrev thresholds : Thresholds
thresholds = record {
  stale_after_ms = 5;
  maximum_core_latency_ms = 3;
  clock_skew_warning_ms = 2;
  open_interest_stale_after_ms = 9;
  channel_stale_after_ms = [];
}

abbrev message_at_9 : Event whole
message_at_9 = message (aware 8000) (aware 9000) (aware 9500) none false

abbrev healthy : List (Event whole)
healthy = connects (aware 1000) ∷ message_at_9 ∷ []

is_healthy :
    status_at whole thresholds "trades" 12000 (after_events healthy (fresh whole)) ≡ connected
unfolding opened
is_healthy = refl

grows_stale : status_at whole thresholds "trades" 15000 (after_events healthy (fresh whole)) ≡ stale
unfolding opened
grows_stale = refl

slow_message :
    status_at whole thresholds "trades" 12000 (
      after_events
        (connects (aware 1000) ∷ message (aware 2000) (aware 9000) (aware 9500) none false ∷ [])
        (fresh whole))
    ≡ degraded
unfolding opened
slow_message = refl

-- A disconnection ends the resynchronization, and leaves the detected gap.
gap_flag_stays :
    (after_events
      (sequence_gap (pos 1) ∷ disconnects none ∷ healthy)
      (fresh whole)).sequence_gap_detected
    ≡ true
unfolding opened
gap_flag_stays = refl

naive_time : (mark_connected (naive 3) (fresh whole)).0 ≡ raise value_error
unfolding opened
naive_time = refl

status_at-record_sequence_gap_example :
    ((after_events
        (connects (aware 1000) ∷ message_at_9 ∷ duplicate ∷ [])
        (record_sequence_gap {f = whole} (pos 1) (fresh whole)).1).sequence_gap_detected
      ≡ true)
    × ((status_at whole thresholds "trades" 12000 (
            after_events
              (connects (aware 1000) ∷ message_at_9 ∷ duplicate ∷ [])
              (record_sequence_gap {f = whole} (pos 1) (fresh whole)).1)
          ≡ resyncing)
        ⊎ (status_at whole thresholds "trades" 12000 (
              after_events
                (connects (aware 1000) ∷ message_at_9 ∷ duplicate ∷ [])
                (record_sequence_gap {f = whole} (pos 1) (fresh whole)).1)
            ≡ disconnected))
status_at-record_sequence_gap_example =
    status_at-record_sequence_gap thresholds "trades" 12000 1
      (connects (aware 1000) ∷ message_at_9 ∷ duplicate ∷ []) (fresh whole) (tt, (tt, (tt, tt)))

abbrev trades_key : StreamKey
trades_key = record { exchange = "OKX"; symbol = "BTC-USDT-PERP"; channel = "trades" }

abbrev books_key : StreamKey
books_key = record { exchange = "OKX"; symbol = "BTC-USDT-PERP"; channel = "books" }

abbrev one_stream : StreamHealthRegistry whole
one_stream = record { thresholds = thresholds; states = (trades_key, fresh whole) ∷ [] }

new_stream :
    keys (record_event books_key (connects (aware 5)) one_stream).1.states
    ≡ trades_key ∷ books_key ∷ []
unfolding opened keys record_event is_refused state_of store or_fresh key_discrete text_discrete
    assign
new_stream = refl

-- A negative generation makes no state.
refused : record_event books_key (book_live (negsuc 0)) one_stream ≡ (raise value_error, one_stream)
unfolding record_event is_refused
refused = refl

-- The book of the other stream goes live meanwhile.
abbrev other_calls : List (StreamKey × Event whole)
other_calls =
    (books_key, connects (aware 1000))
    ∷ (trades_key, book_live (pos 2))
    ∷ (books_key, message_at_9)
    ∷ []

other_calls-KeepsGap : All KeepsGap (own books_key other_calls)
unfolding own key_discrete text_discrete
other_calls-KeepsGap = (tt, (tt, tt))

snapshot-record_events_example :
    (v : StreamHealthSnapshot whole) × ((snapshot books_key
        (aware 12000)
        (record_events ((books_key, sequence_gap (pos 1)) ∷ other_calls) one_stream)).0
      ≡ ok v)
    × (v.state.sequence_gap_detected ≡ true)
    × ((v.status ≡ resyncing) ⊎ (v.status ≡ disconnected))
snapshot-record_events_example =
    snapshot-record_events books_key 1 12000 other_calls one_stream other_calls-KeepsGap
