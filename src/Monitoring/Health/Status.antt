-- ===== src/Monitoring/Health/Status.antt =====
-- monitoring/health.py: the status that `snapshot` computes. The other fields of a snapshot are copies
-- of the state's.
use Prim.Native.String.{String}
use text.Mathlib.Text.{◌==◌ as str_eq}
use cvf.Prelude.{ℕ, Bool, true, false, not, ◌&&◌, ◌||◌, Option, none, some, if◌then◌else◌}
use cvf.Outcome.{Result, ok, ◌>>=◌}
use cvf.Dict.{Dict, lookup, text_discrete}
use cvf.Time.{DateTime, utc}
use cvf.Monitoring.Health.{Floats, StreamState, difference, or_else}

-- models/enums.py, `HealthStatus`.
pub data HealthStatus : Type 0 where
  connected degraded stale resyncing disconnected : HealthStatus

-- The thresholds of the registry, `open_interest_stale_after_ms` as `__post_init__` leaves it.
pub record Thresholds : Type 0 where
  pub stale_after_ms : ℕ
  pub maximum_core_latency_ms : ℕ
  pub clock_skew_warning_ms : ℕ
  pub open_interest_stale_after_ms : ℕ
  pub channel_stale_after_ms : Dict String (Option ℕ)

unfoldable pub is_open_interest_channel : String → Bool
is_open_interest_channel channel = str_eq channel "open_interest" || str_eq channel "open-interest"

-- A channel that is configured has its threshold, which may be none.
unfoldable pub stream_stale_threshold : Thresholds → String → Option ℕ
unfolding is_open_interest_channel
stream_stale_threshold t channel = elim (lookup text_discrete channel t.channel_stale_after_ms) [
  | some threshold ↦ threshold
  | none ↦ some (
      if is_open_interest_channel channel then t.open_interest_stale_after_ms else t.stale_after_ms)
]

module _ (f : Floats) where
  -- More than `threshold` milliseconds have passed since `reference`.
  unfoldable pub passed : ℕ → ℕ → ℕ → Bool
  passed now reference threshold = f.exceeds (f.milliseconds (difference now reference)) threshold

  unfoldable pub passed_since : ℕ → Option ℕ → Option ℕ → Bool
  unfolding passed
  passed_since now (some reference) (some threshold) = passed now reference threshold
  passed_since now _ _ = false

  unfoldable pub unknown_or_passed : ℕ → Option ℕ → ℕ → Bool
  unfolding passed
  unknown_or_passed now none threshold = true
  unknown_or_passed now (some reference) threshold = passed now reference threshold

  unfoldable pub above : Option f.Value → ℕ → Bool
  above none limit = false
  above (some value) limit = f.exceeds value limit

  unfoldable pub above_either_way : Option f.Value → ℕ → Bool
  above_either_way none limit = false
  above_either_way (some value) limit = f.exceeds (f.magnitude value) limit

  unfoldable pub is_stale : Thresholds → String → ℕ → StreamState f → Bool
  unfolding passed_since or_else stream_stale_threshold
  is_stale t channel now s =
      s.is_connected
      && passed_since now (or_else s.last_receive_timestamp s.connected_at)
          (stream_stale_threshold t channel)

  unfoldable pub is_open_interest_stale : Thresholds → String → ℕ → StreamState f → Bool
  unfolding unknown_or_passed is_open_interest_channel
  is_open_interest_stale t channel now s =
      is_open_interest_channel channel
      && unknown_or_passed now s.last_open_interest_receive_timestamp t.open_interest_stale_after_ms

  unfoldable pub is_degraded : Thresholds → StreamState f → Bool
  unfolding above above_either_way
  is_degraded t s =
      above s.last_latency_ms t.maximum_core_latency_ms
      || above_either_way s.clock_skew_ms t.clock_skew_warning_ms
      || not s.rest_healthy

  unfoldable pub status_at : Thresholds → String → ℕ → StreamState f → HealthStatus
  unfolding is_stale is_open_interest_stale is_degraded
  status_at t channel now s =
      if not s.is_connected
      then disconnected
      else if s.resyncing
      then resyncing
      else if is_stale t channel now s || is_open_interest_stale t channel now s
      then stale
      else if is_degraded t s
      then degraded
      else connected

  unfoldable pub status : Thresholds → String → DateTime → StreamState f → Result HealthStatus
  unfolding status_at
  status t channel now s = utc now >>= λ checked_at. ok (status_at t channel checked_at s)
