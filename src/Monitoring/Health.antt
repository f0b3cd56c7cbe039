-- ===== src/Monitoring/Health.antt =====
-- monitoring/health.py: the state of counters and flags that `StreamHealthRegistry` keeps for each
-- stream, and its methods on the state of one key. The status is in Health/Status.antt.
pub mod Status
pub mod Gap
pub mod Streams
pub mod Registry
pub mod Reports
mod Runs
use Prim.Native.String.{String}
use text.Mathlib.Text.{◌==◌ as str_eq}
use cvf.Prelude.{
  ℕ, suc, ◌+◌, ◌-◌, ◌≡◌, refl, ap, ap₂, Bool, true, false, not, Option, none, some, List, [], ◌∷◌,
  ltb, ℤ, pos, negsuc, ltb_ℤ, if◌then◌else◌,
}
use cvf.Outcome.{Result, ok, raise, value_error, ◌>>=◌}
use cvf.Exec.{Exec, throw, modify, gets, pure, ◌>>=◌ as ◌>>=ₑ◌, ◌>>◌}
use cvf.Dict.{Dict, lookup, assign, text_discrete}
use cvf.Time.{DateTime, utc}

-- Python's `float`: milliseconds of a timedelta in microseconds, and the operations used on them.
pub record Floats : Type 1 where
  pub Value : Type 0
  pub milliseconds : ℤ → Value
  pub minus : Value → Value → Value
  pub plus : Value → Value → Value
  pub greatest : Value → Value → Value
  pub magnitude : Value → Value
  pub zero_value : Value
  pub divided : Value → ℕ → Value
  pub exceeds : Value → ℕ → Bool

module _ (f : Floats) where
  pub record StreamState : Type 0 where
    pub is_connected : Bool
    pub connected_at : Option ℕ
    pub last_event_timestamp : Option ℕ
    pub last_receive_timestamp : Option ℕ
    pub last_latency_ms : Option f.Value
    pub latency_sum_ms : f.Value
    pub maximum_latency_ms : Option f.Value
    pub last_normalization_latency_ms : Option f.Value
    pub clock_skew_ms : Option f.Value
    pub message_count : ℕ
    pub duplicate_count : ℕ
    pub sequence_gap_count : ℕ
    pub checksum_failure_count : ℕ
    pub reconnect_count : ℕ
    pub resubscribe_count : ℕ
    pub parse_error_count : ℕ
    pub dropped_event_count : ℕ
    pub backpressure_count : ℕ
    pub sequence_gap_detected : Bool
    pub resyncing : Bool
    pub book_generation : ℕ
    pub rest_healthy : Bool
    pub last_open_interest_receive_timestamp : Option ℕ
    pub last_error : Option String

  unfoldable pub fresh : StreamState
  fresh = record {
    is_connected = false;
    connected_at = none;
    last_event_timestamp = none;
    last_receive_timestamp = none;
    last_latency_ms = none;
    latency_sum_ms = f.zero_value;
    maximum_latency_ms = none;
    last_normalization_latency_ms = none;
    clock_skew_ms = none;
    message_count = 0;
    duplicate_count = 0;
    sequence_gap_count = 0;
    checksum_failure_count = 0;
    reconnect_count = 0;
    resubscribe_count = 0;
    parse_error_count = 0;
    dropped_event_count = 0;
    backpressure_count = 0;
    sequence_gap_detected = false;
    resyncing = false;
    book_generation = 0;
    rest_healthy = true;
    last_open_interest_receive_timestamp = none;
    last_error = none;
  }

-- `received_at - exchange_at`, in microseconds.
unfoldable pub difference : ℕ → ℕ → ℤ
difference a b = if ltb a b then negsuc (b - (a + 1)) else pos (a - b)

unfoldable pub or_else : {A : Type 0} → Option A → Option A → Option A
or_else none o = o
or_else (some a) o = some a

-- The three timestamps of a message, validated in the order of the method.
unfoldable pub message_times : DateTime → DateTime → DateTime → Result (ℕ × ℕ × ℕ)
message_times exchange_timestamp receive_timestamp normalization_timestamp = do
  exchange_at ← utc exchange_timestamp
  received_at ← utc receive_timestamp
  normalized_at ← utc normalization_timestamp
  if ltb normalized_at received_at
      then raise value_error
      else ok (exchange_at, received_at, normalized_at)

module _ (f : Floats) where
  unfoldable pub adjusted : f.Value → Option f.Value → f.Value
  adjusted observed none = observed
  adjusted observed (some skew) = f.minus observed skew

  unfoldable pub raised_to : Option f.Value → f.Value → f.Value
  raised_to none latency = latency
  raised_to (some maximum) latency = f.greatest maximum latency

-- `error or "REST health check failed"`: an empty text counts as none.
unfoldable pub error_or_default : Option String → String
error_or_default none = "REST health check failed"
error_or_default (some error) = if str_eq error "" then "REST health check failed" else error

-- A recorded failure of the REST check goes when the check succeeds.
unfoldable pub without_rest_failure : Option String → Option String
without_rest_failure none = none
without_rest_failure (some error) =
    if str_eq error "REST health check failed" then none else some error

module _ {f : Floats} where
  -- The methods, on the state of their key. `at` is read after the flag is set.
  unfoldable pub mark_connected : DateTime → Exec (StreamState f) (Unit {0})
  mark_connected at s = elim (utc at) [
    | ok t ↦ (ok tt, record s { is_connected = true; connected_at = some t; last_error = none })
    | raise e ↦ (raise e, record s { is_connected = true })
  ]

  unfoldable pub mark_disconnected : Option String → Exec (StreamState f) (Unit {0})
  mark_disconnected error =
      modify (λ s. record s { is_connected = false; resyncing = false; last_error = error })

  unfoldable pub record_reconnect : Option String → Exec (StreamState f) (Unit {0})
  record_reconnect error =
      modify (λ s. record s { reconnect_count = s.reconnect_count + 1; last_error = error })

  unfoldable pub record_resubscribe : Exec (StreamState f) (Unit {0})
  record_resubscribe = modify (λ s. record s { resubscribe_count = s.resubscribe_count + 1 })

  -- `record_message` once its timestamps are valid.
  unfoldable pub message_at : ℕ → ℕ → ℕ → Option f.Value → Bool → StreamState f → StreamState f
  unfolding adjusted or_else raised_to difference
  message_at exchange_at received_at normalized_at clock_skew is_open_interest s =
      let latency = adjusted f (f.milliseconds (difference received_at exchange_at)) clock_skew in
      record s {
        clock_skew_ms = or_else clock_skew s.clock_skew_ms;
        last_event_timestamp = some exchange_at;
        last_receive_timestamp = some received_at;
        last_latency_ms = some latency;
        latency_sum_ms = f.plus s.latency_sum_ms latency;
        maximum_latency_ms = some (raised_to f s.maximum_latency_ms latency);
        last_normalization_latency_ms =
            some (f.milliseconds (difference normalized_at received_at));
        message_count = s.message_count + 1;
        last_open_interest_receive_timestamp =
            if is_open_interest then some received_at else s.last_open_interest_receive_timestamp;
      }

  unfoldable pub record_message :
      DateTime → DateTime → DateTime → Option f.Value → Bool → Exec (StreamState f) (Unit {0})
  unfolding message_times message_at
  record_message exchange_timestamp receive_timestamp normalization_timestamp clock_skew
        is_open_interest s =
      elim (message_times exchange_timestamp receive_timestamp normalization_timestamp) [
        | raise e ↦ (raise e, s)
        | ok (exchange_at, received_at, normalized_at) ↦
            (ok tt, message_at exchange_at received_at normalized_at clock_skew is_open_interest s)
      ]

  unfoldable pub record_duplicate : Exec (StreamState f) (Unit {0})
  record_duplicate = modify (λ s. record s { duplicate_count = s.duplicate_count + 1 })

  unfoldable pub mark_resyncing : ℤ → String → Exec (StreamState f) (Unit {0})
  mark_resyncing (negsuc n) reason s = (raise value_error, s)
  mark_resyncing (pos n) reason s =
      (ok tt, record s { resyncing = true; book_generation = n; last_error = some reason })

  unfoldable pub record_sequence_gap : ℤ → Exec (StreamState f) (Unit {0})
  unfolding mark_resyncing
  record_sequence_gap generation s =
      mark_resyncing generation "order-book sequence gap"
        (record s { sequence_gap_count = s.sequence_gap_count + 1; sequence_gap_detected = true })

  unfoldable pub record_checksum_failure : ℤ → Exec (StreamState f) (Unit {0})
  unfolding mark_resyncing
  record_checksum_failure generation s =
      mark_resyncing generation "order-book checksum mismatch"
        (record s { checksum_failure_count = s.checksum_failure_count + 1 })

  unfoldable pub mark_book_live : ℤ → Exec (StreamState f) (Unit {0})
  mark_book_live (negsuc n) s = (raise value_error, s)
  mark_book_live (pos n) s = (
    ok tt,
    record s {
      resyncing = false;
      sequence_gap_detected = false;
      book_generation = n;
      last_error = none;
    },
  )

  unfoldable pub record_parse_error : String → Exec (StreamState f) (Unit {0})
  record_parse_error error =
      modify
        (λ s. record s { parse_error_count = s.parse_error_count + 1; last_error = some error })

  unfoldable pub record_drop : Bool → Exec (StreamState f) (Unit {0})
  record_drop backpressure = modify (λ s. record s {
    dropped_event_count = s.dropped_event_count + 1;
    backpressure_count = if backpressure then s.backpressure_count + 1 else s.backpressure_count;
    last_error = some (if backpressure then "event dropped by backpressure" else "event dropped");
  })

  unfoldable pub record_rest_result : Bool → Option String → Exec (StreamState f) (Unit {0})
  unfolding error_or_default without_rest_failure
  record_rest_result true error s =
      (ok tt, record s { rest_healthy = true; last_error = without_rest_failure s.last_error })
  record_rest_result false error s =
      (ok tt, record s { rest_healthy = false; last_error = some (error_or_default error) })
