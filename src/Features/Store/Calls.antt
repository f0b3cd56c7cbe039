-- ===== src/Features/Store/Calls.antt =====
-- features/state.py: the methods of `MarketStateStore` that change it keep every state's invariant.
use Prim.Native.String.{String}
use text.Mathlib.Text.{◌==◌ as str_eq}
use cvf.Prelude.{Bool, true, false, Option, none, some, [], if◌then◌else◌, List, ◌∷◌, ◌≡◌}
use mathlib.Core.Path.{subst}
use cvf.Outcome.{Result, ok, raise, ok_injective}
use cvf.Exec.{Exec, modify, continue}
use cvf.Decimals.{Decimals}
use cvf.Monitoring.Health.Status.{HealthStatus}
use cvf.Exchanges.Symbols.{Exchange}
use cvf.Features.Rolling.{BoundedTimeWindow}
use cvf.Features.Rolling.Kept.{IsValid}
use cvf.Features.Book.{Int10, Arithmetic, Digests}
use cvf.Features.Store.{HealthEvent, is_accepted}
use cvf.Features.Store.Held.{placed}
use cvf.Features.Store.StateHeld.{ingest_state-Saves}
use cvf.Features.Store.Ingest.{StoreConfig, set_channel, ingest_health, ingest_state}
use cvf.Features.Store.Created.{
  binance_venue, init, Yields, bind-Yields, window_of-Yields, Venue, same_venue, venue_of,
  MarketStateStore,
}
use cvf.Features.Store.MarketHeld.{
  Kept, on_state-Kept, set_channel-Holds, ingest_health-Saves, set_channels-All,
}
use cvf.Features.Store.Market.{
  StoreCall, market_event, health_event, stream_health, take_call, take_calls, on_state,
  place_health, set_states, append_exchange_health, set_if_accepted, update_health,
  set_venue_states, update_stream_health, ingest,
}

either-IsValid :
    {A : Type 0} (b : Bool) (v w : BoundedTimeWindow A)
    → IsValid v
    → IsValid w
    → IsValid (if b then v else w)
either-IsValid true v w h k = h
either-IsValid false v w h k = k

module _ {d : Decimals} {P : Type 0} where
  choose-IsValid :
      (on_binance on_okx : BoundedTimeWindow HealthEvent) (config : StoreConfig)
      → IsValid on_binance
      → IsValid on_okx
      → Kept {d = d} {P = P} (record {
        config = config;
        exchange_health_events =
            λ venue. if same_venue venue binance_venue then on_binance else on_okx;
        states = [];
      })
  choose-IsValid v w config h k = record {
    each = tt;
    health = λ venue. either-IsValid (same_venue venue binance_venue) v w h k;
  }

  -- A store that is made keeps to the bounds.
  init-Kept :
      (config : StoreConfig) → Yields (λ (m : MarketStateStore d P). Kept m) (init d P config)
  unfolding init
  init-Kept config =
      bind-Yields IsValid Kept _ _
        (window_of-Yields config config.late_policy config.maximum_lateness)
        (λ v h.
          bind-Yields IsValid Kept _ _
            (window_of-Yields config config.late_policy config.maximum_lateness)
            (λ w k m e. subst Kept (ok_injective e) (choose-IsValid v w config h k)))

  set_states-Kept :
      (venue : Venue) (channel : String) (status : HealthStatus) (m : MarketStateStore d P)
      → Kept m
      → Kept (set_states venue channel status m)
  unfolding set_states
  set_states-Kept venue channel status m h = record {
    each = set_channels-All venue channel status m.states h.each;
    health = h.health;
  }

  set_venue_states-Kept :
      (venue : Option Venue) (channel : String) (status : HealthStatus) (m : MarketStateStore d P)
      → Kept m
      → Kept (set_venue_states venue channel status m)
  unfolding set_venue_states
  set_venue_states-Kept none channel status m h = h
  set_venue_states-Kept (some venue) channel status m h = set_states-Kept venue channel status m h

  set_if_accepted-Kept :
      (b : Bool) (venue : Venue) (channel : String) (status : HealthStatus)
      (m : MarketStateStore d P)
      → Kept m
      → Kept (if b then set_states venue channel status m else m)
  set_if_accepted-Kept true venue channel status m h = set_states-Kept venue channel status m h
  set_if_accepted-Kept false venue channel status m h = h

  append_exchange_health-Kept :
      (venue : Venue) (health : HealthEvent) (m : MarketStateStore d P)
      → Kept m
      → Kept (append_exchange_health venue health m).1
  unfolding append_exchange_health place_health
  append_exchange_health-Kept venue health m h =
      placed Kept (m.exchange_health_events venue) health.exchange_timestamp health
        (place_health venue m) m (h.health venue)
        (λ w valid. record {
          each = h.each;
          health = λ v. either-IsValid (same_venue v venue) w _ valid (h.health v);
        })

  continue-Kept :
      {A B : Type 0} (r : Result A) (f : A → Exec (MarketStateStore d P) B)
      (m : MarketStateStore d P)
      → Kept m
      → ((x : A) (n : MarketStateStore d P) → Kept n → Kept (f x n).1)
      → Kept (continue r f m).1
  continue-Kept (ok x) f m h k = k x m h
  continue-Kept (raise e) f m h k = h

  if-Kept :
      {A : Type 0} (b : Bool) (x y : Exec (MarketStateStore d P) A) (m : MarketStateStore d P)
      → Kept (x m).1
      → Kept (y m).1
      → Kept ((if b then x else y) m).1
  if-Kept true x y m h k = h
  if-Kept false x y m h k = k

  update_health-Kept :
      (venue : Option Venue) (symbol : String) (health : HealthEvent) (m : MarketStateStore d P)
      → Kept m
      → Kept (update_health venue symbol health m).1
  unfolding update_health set_if_accepted
  update_health-Kept none symbol health m h = h
  update_health-Kept (some venue) symbol health m h =
      if-Kept (str_eq symbol "*") _ (on_state (some venue) symbol (ingest_health health)) m
        (continue-Kept _ _ _ (append_exchange_health-Kept venue health m h) (λ status n k.
          set_if_accepted-Kept (is_accepted status) venue health.channel health.status n k))
        (on_state-Kept (some venue) symbol (ingest_health health) m (ingest_health-Saves health) h)

  update_stream_health-Kept :
      (exchange : Exchange) (symbol channel : String) (status : HealthStatus)
      (m : MarketStateStore d P)
      → Kept m
      → Kept (update_stream_health exchange symbol channel status m).1
  unfolding update_stream_health
  update_stream_health-Kept exchange symbol channel status m h =
      if-Kept (str_eq symbol "*") (modify (set_venue_states (venue_of exchange) channel status))
        (on_state (venue_of exchange) symbol (modify (set_channel channel status))) m
        (set_venue_states-Kept (venue_of exchange) channel status m h)
        (on_state-Kept (venue_of exchange) symbol (modify (set_channel channel status)) m
          (set_channel-Holds channel status) h)

  module _ (a : Arithmetic d.Value) (g : Digests d) (int10 : Int10) where
    take_call-Kept :
        (call : StoreCall d P) (m : MarketStateStore d P)
        → Kept m
        → Kept (take_call a g int10 call m)
    unfolding take_call ingest
    take_call-Kept (market_event exchange symbol event) m h =
        on_state-Kept (venue_of exchange) symbol
          (ingest_state a g int10 m.config.order_book_depth event) m
          (ingest_state-Saves a g int10 m.config.order_book_depth event) h
    take_call-Kept (health_event exchange symbol health) m h =
        update_health-Kept (venue_of exchange) symbol health m h
    take_call-Kept (stream_health exchange symbol channel status) m h =
        update_stream_health-Kept exchange symbol channel status m h

    reached-Kept :
        (calls : List (StoreCall d P)) (m : MarketStateStore d P)
        → Kept m
        → Kept (take_calls a g int10 calls m)
    unfolding take_calls
    reached-Kept [] m h = h
    reached-Kept (call ∷ calls) m h =
        reached-Kept calls (take_call a g int10 call m) (take_call-Kept call m h)

    -- A store that was made and has taken any calls, also such that raise: the windows of every state
    -- and the health windows of the exchanges are valid, that is in order, within their capacity and
    -- their retention, and every book is sound.
    pub take_calls-Kept :
        (config : StoreConfig) (m : MarketStateStore d P)
        → init d P config ≡ ok m
        → (calls : List (StoreCall d P)) → Kept (take_calls a g int10 calls m)
    take_calls-Kept config m made calls = reached-Kept calls m (init-Kept config m made)
