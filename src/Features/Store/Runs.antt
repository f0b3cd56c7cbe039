-- ===== src/Features/Store/Runs.antt =====
-- Tests of the state store, and its theorems at concrete inputs.

use cvf.Prelude.{ℕ, ◌≡◌, refl, none, [], pos, if◌then◌else◌, List, ◌∷◌}
use cvf.Outcome.{ok, raise, value_error}
use cvf.Exchanges.Symbols.{binance, okx, cross_venue}
use cvf.OrderBook.Examples.{numbers}
use cvf.Features.Rolling.{
  LateEventPolicy, BoundedTimeWindow, append, classify_at, place_at, accept, append_as, prune_at,
  prune, drop_expired, evict, clear, admissibility,
}
use cvf.Features.Rolling as Rolling
use cvf.Features.Book.{accepted, late_dropped, buffered_for_snapshot, a_snapshot, an_update}
use cvf.Features.Book as Book
use cvf.Features.Book.Examples.{sums, ones, no_text, new_book, update8}
use cvf.Features.Store.{
  Windows, VenueSymbolState, StateEvent, stateful, book_event, is_accepted, is_stale, trade,
  window_status, append_status, append_price, and_price, append_trade, append_stateful, type_eq,
}
use cvf.Features.Store.Ingest.{
  StoreConfig, window_of, count_rejected, remember, count_accepted, on_windows, settle,
  finish_stateful, ingest_stateful, ingest_state,
}
use cvf.Features.Store.Counts.{one_if, Counted}
use cvf.Features.Store.Created.{
  same_venue, binance_venue, MarketStateStore, create_state, init, venue_of,
}
use cvf.Features.Store.Market.{StoreCall, take_calls, market_event, ingest, on_state}
use cvf.Features.Store.MarketHeld.{Kept}
use cvf.Features.Store.Pipeline.{
  FeatureStatePipeline, market, rejected_in, IsTallied, consume, consume-IsTallied,
}
use cvf.Features.Store.Calls.{take_calls-Kept}

state_opened : Unit {0}
unfolding append classify_at place_at accept append_as prune_at prune drop_expired evict is_accepted
    window_status append_status append_price and_price append_trade append_stateful type_eq
    count_rejected remember count_accepted on_windows settle finish_stateful ingest_stateful
    ingest_state is_stale one_if Counted
state_opened = tt

made_opened : Unit {0}
unfolding Rolling.init Book.init window_of create_state init
made_opened = tt

market_opened : Unit {0}
unfolding venue_of on_state ingest
market_opened = tt

-- A minute, two events a window, late events dropped.
abbrev small : StoreConfig
small = record {
  retention = 60;
  maximum_events = 2;
  late_policy = LateEventPolicy.drop;
  maximum_lateness = 0;
  book_pending_updates = 1;
  order_book_depth = pos 5;
}

abbrev empty_window : {A : Type 0} → LateEventPolicy → ℕ → BoundedTimeWindow A
empty_window policy lateness = record {
  retention = 60;
  maximum_items = 2;
  late_event_policy = policy;
  maximum_lateness = lateness;
  items = [];
  watermark = none;
  last_ordinal = 0;
  accepted_count = 0;
  late_count = 0;
  expired_count = 0;
  capacity_evictions = 0;
}

abbrev empty_windows : Windows numbers ℕ
empty_windows = record {
  trades = empty_window LateEventPolicy.drop 0;
  prices = empty_window LateEventPolicy.drop 0;
  open_interests = empty_window LateEventPolicy.drop 0;
  funding_rates = empty_window LateEventPolicy.drop 0;
  mark_prices = empty_window LateEventPolicy.drop 0;
  index_prices = empty_window LateEventPolicy.drop 0;
  liquidations = empty_window LateEventPolicy.drop 0;
  book_updates = empty_window LateEventPolicy.drop 0;
  book_changes = empty_window LateEventPolicy.drop 0;
  book_history = empty_window LateEventPolicy.insert 60;
  order_book = new_book;
}

abbrev empty_state : VenueSymbolState numbers ℕ
empty_state = record {
  windows = empty_windows;
  health_events = empty_window LateEventPolicy.drop 0;
  latest_by_type = λ type. none;
  health_by_channel = [];
  accepted_events = 0;
  rejected_events = 0;
}

abbrev empty_store : MarketStateStore numbers ℕ
empty_store = record {
  config = small;
  exchange_health_events = λ venue.
      if same_venue venue binance_venue
      then empty_window LateEventPolicy.drop 0
      else empty_window LateEventPolicy.drop 0;
  states = [];
}

created : create_state numbers ℕ small ≡ ok empty_state
unfolding made_opened
created = refl

store_created : init numbers ℕ small ≡ ok empty_store
unfolding made_opened
store_created = refl

abbrev trade_at : ℕ → StateEvent numbers ℕ
trade_at t = stateful (record { event_type = trade; exchange_timestamp = t; payload = 7 })

traded : (ingest_state sums ones no_text (pos 5) (trade_at 100) empty_state).0 ≡ ok accepted
unfolding state_opened
traded = refl

abbrev traded_state : VenueSymbolState numbers ℕ
traded_state = (ingest_state sums ones no_text (pos 5) (trade_at 100) empty_state).1

late : (ingest_state sums ones no_text (pos 5) (trade_at 99) traded_state).0 ≡ ok late_dropped
unfolding state_opened
late = refl

abbrev two_calls : List (StoreCall numbers ℕ)
two_calls =
    market_event okx "BTC-USDT-PERP" (book_event (an_update update8))
    ∷ market_event binance "BTC-USDT-PERP" (trade_at 100)
    ∷ []

take_calls-Kept_example : Kept (take_calls sums ones no_text two_calls empty_store)
take_calls-Kept_example =
    take_calls-Kept sums ones no_text small empty_store store_created two_calls

-- No state is made for an exchange that is not concrete.
refused :
    ingest sums ones no_text cross_venue "BTC-USDT-PERP" (trade_at 100) empty_store
    ≡ (raise value_error, empty_store)
unfolding market_opened
refused = refl

abbrev empty_pipeline : FeatureStatePipeline numbers ℕ
empty_pipeline = record {
  store = empty_store;
  status_counts = λ status. 0;
  accepted_count = 0;
  rejected_count = 0;
}

empty_pipeline-IsTallied : IsTallied empty_pipeline
unfolding rejected_in
empty_pipeline-IsTallied = record { of_accepted = refl; of_rejected = refl }

consume-IsTallied_example :
    IsTallied
      (consume sums ones no_text okx "BTC-USDT-PERP" (market (trade_at 100)) empty_pipeline).1
consume-IsTallied_example =
    consume-IsTallied sums ones no_text okx "BTC-USDT-PERP" (market (trade_at 100)) empty_pipeline
      empty_pipeline-IsTallied
