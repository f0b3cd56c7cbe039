-- ===== src/Monitoring/Health/Reports.antt =====
-- monitoring/health.py: the registry's constructor, the health event of a stream and the clock-skew estimate.
use Prim.Native.String.{String}
use cvf.Prelude.{
  ℕ, ◌+◌, ◌-◌, ◌/◌, ◌%◌, Bool, Option, none, some, [], ◌∷◌, ltb, ◌==◌, ℤ, if◌then◌else◌,
}
use cvf.Outcome.{Result, ok, raise, value_error, ◌>>=◌}
use cvf.Exec.{Exec}
use cvf.Dict.{Dict}
use cvf.Time.{DateTime, utc, positive}
use cvf.Monitoring.Health.{Floats, difference}
use cvf.Monitoring.Health.Registry.{
  StreamKey, StreamHealthRegistry, StreamHealthSnapshot, snapshot_at,
}

-- The threshold of one configured channel.
unfoldable pub channel_threshold : Option ℤ → Result (Option ℕ)
channel_threshold none = ok none
channel_threshold (some z) = positive z >>= λ n. ok (some n)

unfoldable pub channel_thresholds :
    (String → Bool) → Dict String (Option ℤ) → Result (Dict String (Option ℕ))
unfolding channel_threshold
channel_thresholds is_blank [] = ok []
channel_thresholds is_blank ((channel, threshold) ∷ rest) =
    if is_blank channel
    then raise value_error
    else (channel_threshold threshold >>= λ t.
        channel_thresholds is_blank rest >>= λ ts. ok ((channel, t) ∷ ts))

-- Without a threshold of its own, open interest has the streams'.
unfoldable pub open_interest_threshold : ℕ → Option ℤ → Result ℕ
open_interest_threshold stale none = ok stale
open_interest_threshold stale (some z) = positive z

unfoldable pub init :
    {f : Floats}
    → (String → Bool)
    → ℤ
    → ℤ
    → ℤ
    → Option ℤ
    → Dict String (Option ℤ)
    → Result (StreamHealthRegistry f)
unfolding open_interest_threshold channel_thresholds
init is_blank stale_after maximum_latency skew_warning open_interest channels = do
  stale ← positive stale_after
  latency ← positive maximum_latency
  skew ← positive skew_warning
  open_interest_stale ← open_interest_threshold stale open_interest
  thresholds ← channel_thresholds is_blank channels
  ok (record {
    thresholds = record {
      stale_after_ms = stale;
      maximum_core_latency_ms = latency;
      clock_skew_warning_ms = skew;
      open_interest_stale_after_ms = open_interest_stale;
      channel_stale_after_ms = thresholds;
    };
    states = [];
  })

-- `timedelta / 2`, rounded to a whole microsecond, a half to the even one.
unfoldable pub half : ℕ → ℕ
half n = let k = n / 2 in if n % 2 == 0 then k else if k % 2 == 0 then k else k + 1

unfoldable pub estimate_clock_skew_ms :
    (f : Floats) → DateTime → DateTime → DateTime → Result f.Value
unfolding half difference
estimate_clock_skew_ms f request_sent_at response_received_at exchange_timestamp = do
  sent_at ← utc request_sent_at
  received_at ← utc response_received_at
  exchange_at ← utc exchange_timestamp
  if ltb received_at sent_at
      then raise value_error
      else ok (f.milliseconds (difference (sent_at + half (received_at - sent_at)) exchange_at))

module _ (f : Floats) where
  -- `ExchangeHealth`; the fields that the event takes from the snapshot are the snapshot's.
  pub record ExchangeHealth : Type 0 where
    pub exchange_timestamp : ℕ
    pub local_receive_timestamp : ℕ
    pub raw_payload_reference : Option String
    pub health : StreamHealthSnapshot f

unfoldable pub or_time : Option ℕ → ℕ → ℕ
or_time none t = t
or_time (some u) t = u

module _ {f : Floats} where
  unfoldable pub health_at :
      StreamKey → ℕ → Option String → Exec (StreamHealthRegistry f) (ExchangeHealth f)
  unfolding or_time
  health_at key now reference registry =
      let (r, registry') = snapshot_at key now registry in
      elim r [
        | ok taken ↦ (
          ok (record {
            exchange_timestamp = or_time taken.state.last_event_timestamp now;
            local_receive_timestamp = now;
            raw_payload_reference = reference;
            health = taken;
          }),
          registry',
        )
        | raise e ↦ (raise e, registry')
      ]

  unfoldable pub exchange_health :
      StreamKey → DateTime → Option String → Exec (StreamHealthRegistry f) (ExchangeHealth f)
  unfolding health_at
  exchange_health key now reference registry = elim (utc now) [
    | ok t ↦ health_at key t reference registry
    | raise e ↦ (raise e, registry)
  ]
