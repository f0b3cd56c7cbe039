-- ===== src/Monitoring/Health/Registry.antt =====
-- monitoring/health.py: `StreamKey`, the dictionary of `StreamHealthRegistry`, and `snapshot`.
use Prim.Native.String.{String}
use cvf.Prelude.{ℕ, ◌≡◌, ap, Bool, true, Option, none, some, List, [], ◌∷◌, ◌==◌, if◌then◌else◌}
use cvf.Outcome.{Result, ok, raise, value_error, ◌>>=◌}
use cvf.Exec.{Exec}
use cvf.Dict.{Dict, lookup, assign, text_discrete}
use cvf.Time.{DateTime, utc}
use cvf.Exchanges.Symbols.{Texts, validate_canonical_symbol}
use cvf.Monitoring.Health.{Floats, StreamState, fresh}
use cvf.Monitoring.Health.Status.{HealthStatus, Thresholds, is_open_interest_stale, status_at}

-- The exchange is the value of the enumeration.
pub record StreamKey : Type 0 where
  pub exchange : String
  pub symbol : String
  pub channel : String

-- The constructor; `is_blank` tells a channel that is empty or blank.
unfoldable pub stream_key : Texts → (String → Bool) → String → String → String → Result StreamKey
stream_key texts is_blank exchange symbol channel =
    validate_canonical_symbol texts true symbol >>= λ canonical.
    if is_blank channel
    then raise value_error
    else ok (record { exchange = exchange; symbol = canonical; channel = channel })

unfoldable decide_key :
    (a b : StreamKey)
    → Dec (a.exchange ≡ b.exchange)
    → Dec (a.symbol ≡ b.symbol)
    → Dec (a.channel ≡ b.channel)
    → Dec (a ≡ b)
decide_key a b (yes p) (yes q) (yes r) =
    yes (λ i. record { exchange = p i; symbol = q i; channel = r i })
decide_key a b (yes p) (yes q) (no n) = no (λ e. n (ap (λ k. k.channel) e))
decide_key a b (yes p) (no n) r = no (λ e. n (ap (λ k. k.symbol) e))
decide_key a b (no n) q r = no (λ e. n (ap (λ k. k.exchange) e))

unfoldable pub key_discrete : Discrete StreamKey
unfolding decide_key text_discrete
key_discrete a b =
    decide_key a b (text_discrete a.exchange b.exchange) (text_discrete a.symbol b.symbol)
      (text_discrete a.channel b.channel)

module _ (f : Floats) where
  pub record StreamHealthRegistry : Type 0 where
    pub thresholds : Thresholds
    pub states : Dict StreamKey (StreamState f)

  pub record StreamHealthSnapshot : Type 0 where
    pub key : StreamKey
    pub status : HealthStatus
    pub average_latency_ms : Option f.Value
    pub open_interest_stale : Bool
    -- The fields that are copied from the stream's state.
    pub state : StreamState f

  unfoldable pub average : ℕ → f.Value → Option f.Value
  average count sum = if count == 0 then none else some (f.divided sum count)

module _ {f : Floats} where
  unfoldable pub keys : Dict StreamKey (StreamState f) → List StreamKey
  keys [] = []
  keys ((key, _) ∷ states) = key ∷ keys states

  unfoldable pub or_fresh : Option (StreamState f) → StreamState f
  or_fresh none = fresh f
  or_fresh (some s) = s

  -- `_state`: the state of a key, made when it is first asked for.
  unfoldable pub state_of : StreamKey → StreamHealthRegistry f → StreamState f
  unfolding or_fresh
  state_of key registry = or_fresh (lookup key_discrete key registry.states)

  -- `_state` gives the state that the dictionary holds, so that what a method makes of it stays there.
  unfoldable pub store : StreamKey → StreamHealthRegistry f → StreamState f → StreamHealthRegistry f
  store key registry s = record registry { states = assign key_discrete key s registry.states }

  unfoldable pub snapshot_at :
      StreamKey → ℕ → Exec (StreamHealthRegistry f) (StreamHealthSnapshot f)
  unfolding state_of average store
  snapshot_at key now registry =
      let s = state_of key registry in
      (
        ok (record {
          key = key;
          status = status_at f registry.thresholds key.channel now s;
          average_latency_ms = average f s.message_count s.latency_sum_ms;
          open_interest_stale = is_open_interest_stale f registry.thresholds key.channel now s;
          state = s;
        }),
        store key registry s,
      )

  unfoldable pub snapshot :
      StreamKey → DateTime → Exec (StreamHealthRegistry f) (StreamHealthSnapshot f)
  unfolding snapshot_at
  snapshot key now registry = elim (utc now) [
    | ok checked_at ↦ snapshot_at key checked_at registry
    | raise e ↦ (raise e, registry)
  ]
