-- ===== src/Features/Store/Market.antt =====
-- features/state.py: `MarketStateStore`, whose states are kept by exchange and symbol, with
-- `ingest`, `update_health` and `update_stream_health`.
use Prim.Native.String.{String}
use text.Mathlib.Text.{◌==◌ as str_eq}
use cvf.Prelude.{Option, none, some, [], ◌∷◌, if◌then◌else◌, List}
use cvf.Outcome.{Result, ok, raise, value_error}
use cvf.Exec.{Exec, pure, throw, modify, ◌>>=◌, ◌>>◌}
use cvf.Decimals.{Decimals}
use cvf.Dict.{Dict, lookup, assign}
use cvf.Monitoring.Health.Status.{HealthStatus}
use cvf.Exchanges.Symbols.{Exchange}
use cvf.Time.{aware}
use cvf.Features.Rolling.{BoundedTimeWindow, append}
use cvf.Features.Book.{StateUpdateStatus, Int10, Arithmetic, Digests}
use cvf.Features.Store.{HealthEvent, VenueSymbolState, StateEvent, is_accepted, append_status}
use cvf.Features.Store.Created.{
  Venue, same_venue, venue_of, StateKey, state_key_discrete, MarketStateStore, create_state,
}
use cvf.Features.Store.Ingest.{ingest_state, ingest_health, set_channel}

-- What a call gives is put back with what it has changed.
unfoldable pub put_back : {A S T : Type 0} → (S → T) → Result A × S → Result A × T
put_back place (r, s) = (r, place s)

-- The calls that change the store.
pub data StoreCall (d : Decimals) (P : Type 0) : Type 0 where
  market_event : Exchange → String → StateEvent d P → StoreCall d P
  health_event : Exchange → String → HealthEvent → StoreCall d P
  stream_health : Exchange → String → String → HealthStatus → StoreCall d P

module _ {d : Decimals} {P : Type 0} where
  unfoldable pub put_state :
      StateKey → MarketStateStore d P → VenueSymbolState d P → MarketStateStore d P
  unfolding assign state_key_discrete
  put_state key m s = record m { states = assign state_key_discrete key s m.states }

  -- A method of a state that is there; one that is missing is made first, and stays also where the
  -- method raises.
  unfoldable pub run_created :
      {A : Type 0}
      → StateKey
      → Exec (VenueSymbolState d P) A
      → Result (VenueSymbolState d P)
      → Exec (MarketStateStore d P) A
  unfolding put_back put_state
  run_created key method (raise e) m = (raise e, m)
  run_created key method (ok s) m = put_back (put_state key m) (method s)

  unfoldable pub run_found :
      {A : Type 0}
      → StateKey
      → Exec (VenueSymbolState d P) A
      → Option (VenueSymbolState d P)
      → Exec (MarketStateStore d P) A
  unfolding put_back put_state run_created create_state
  run_found key method none m = run_created key method (create_state d P m.config) m
  run_found key method (some s) m = put_back (put_state key m) (method s)

  unfoldable pub on_state :
      {A : Type 0}
      → Option Venue
      → String
      → Exec (VenueSymbolState d P) A
      → Exec (MarketStateStore d P) A
  unfolding run_found lookup state_key_discrete
  on_state none symbol method m = (raise value_error, m)
  on_state (some venue) symbol method m =
      run_found (venue, symbol) method (lookup state_key_discrete (venue, symbol) m.states) m

  -- The loop over the states of one exchange.
  unfoldable pub set_channels :
      Venue
      → String
      → HealthStatus
      → Dict StateKey (VenueSymbolState d P)
      → Dict StateKey (VenueSymbolState d P)
  unfolding same_venue set_channel
  set_channels venue channel status [] = []
  set_channels venue channel status ((key, s) ∷ states) =
      (key, if same_venue key.0 venue then set_channel channel status s else s)
      ∷ set_channels venue channel status states

  unfoldable pub place_health :
      Venue → MarketStateStore d P → BoundedTimeWindow HealthEvent → MarketStateStore d P
  unfolding same_venue
  place_health venue m window = record m {
    exchange_health_events = λ v. if same_venue v venue then window else m.exchange_health_events v;
  }

  unfoldable pub set_states :
      Venue → String → HealthStatus → MarketStateStore d P → MarketStateStore d P
  unfolding set_channels
  set_states venue channel status m = record m {
    states = set_channels venue channel status m.states;
  }

  unfoldable pub append_exchange_health :
      Venue → HealthEvent → Exec (MarketStateStore d P) StateUpdateStatus
  unfolding append_status place_health
  append_exchange_health venue health m =
      append_status
        (append (m.exchange_health_events venue) (aware health.exchange_timestamp) health)
        (place_health venue m) m

  unfoldable pub set_if_accepted :
      Venue → HealthEvent → StateUpdateStatus → MarketStateStore d P → MarketStateStore d P
  unfolding is_accepted set_states
  set_if_accepted venue health status m =
      if is_accepted status then set_states venue health.channel health.status m else m

  -- A health event of a whole exchange has the symbol `*`.
  unfoldable pub update_health :
      Option Venue → String → HealthEvent → Exec (MarketStateStore d P) StateUpdateStatus
  unfolding append_exchange_health set_if_accepted on_state ingest_health
  update_health none symbol health = throw value_error
  update_health (some venue) symbol health =
      if str_eq symbol "*"
      then (append_exchange_health venue health >>= λ status.
          modify (set_if_accepted venue health status) >> pure status)
      else on_state (some venue) symbol (ingest_health health)

  unfoldable pub set_venue_states :
      Option Venue → String → HealthStatus → MarketStateStore d P → MarketStateStore d P
  unfolding set_states
  set_venue_states none channel status m = m
  set_venue_states (some venue) channel status m = set_states venue channel status m

  unfoldable pub update_stream_health :
      Exchange → String → String → HealthStatus → Exec (MarketStateStore d P) (Unit {0})
  unfolding venue_of set_venue_states on_state set_channel
  update_stream_health exchange symbol channel status =
      if str_eq symbol "*"
      then modify (set_venue_states (venue_of exchange) channel status)
      else on_state (venue_of exchange) symbol (modify (set_channel channel status))

  unfoldable pub ingest :
      Arithmetic d.Value
      → Digests d
      → Int10
      → Exchange
      → String
      → StateEvent d P
      → Exec (MarketStateStore d P) StateUpdateStatus
  unfolding venue_of on_state ingest_state
  ingest a g int10 exchange symbol event m =
      on_state (venue_of exchange) symbol (ingest_state a g int10 m.config.order_book_depth event) m

  unfoldable pub take_call :
      Arithmetic d.Value
      → Digests d
      → Int10
      → StoreCall d P
      → MarketStateStore d P
      → MarketStateStore d P
  unfolding ingest update_health update_stream_health
  take_call a g int10 (market_event exchange symbol event) m =
      (ingest a g int10 exchange symbol event m).1
  take_call a g int10 (health_event exchange symbol health) m =
      (update_health (venue_of exchange) symbol health m).1
  take_call a g int10 (stream_health exchange symbol channel status) m =
      (update_stream_health exchange symbol channel status m).1

  unfoldable pub take_calls :
      Arithmetic d.Value
      → Digests d
      → Int10
      → List (StoreCall d P)
      → MarketStateStore d P
      → MarketStateStore d P
  unfolding take_call
  take_calls a g int10 [] m = m
  take_calls a g int10 (call ∷ calls) m = take_calls a g int10 calls (take_call a g int10 call m)
