-- ===== src/OrderBook/Binance/Runs.antt =====
-- Tests of the Binance book, and its theorems at concrete inputs.

use mathlib.Core.Logic.{ite}
use cvf.Prelude.{
  ℕ, ◌≡◌, ◌≢◌, refl, true, ltb_ℤ, if◌then◌else◌, Option, none, some, List, [], ◌∷◌, ◌++◌, ℤ, pos,
}
use cvf.Outcome.{ok, raise, runtime_error}
use cvf.Dict.{text_discrete, lookup, assign, pop}
use native.Mathlib.Decide.{ℕ_discrete}
use cvf.Exchanges.Symbols.{supported_exchange, symbol_of, fill_reverse, put, to_canonical_symbol}
use cvf.OrderBook.Base.{live, resync_required, buffering}
use cvf.OrderBook.Views.{
  BookView, order_book_level, order_book_levels, check_depth, to_depth, insert_sorted, sort_items,
  IsOrdered, pairs,
}
use cvf.OrderBook.Binance.View.{higher, lower, view, view-pairs}
use cvf.OrderBook.Binance.Manager.{new_manager}
use cvf.OrderBook.Binance.Family.{
  ManagerCall, ingesting, key_of, has_own, apply, take_call, take_calls, run_own, alone_from, alone,
  answer_alone,
}
use cvf.OrderBook.Binance.Isolated.{take_calls-alone}
use cvf.OrderBook.Examples.{numbers, texts}
use cvf.OrderBook.Sides.{fill_side, snapshot_side, apply_level, apply_side}
use cvf.OrderBook.Binance.{
  DepthUpdate, DepthSnapshot, Book, link, invalidate, begin_resync, overflow, update_bids,
  update_asks, apply_update,
}
use cvf.OrderBook.Binance.Activation.{
  drop_before, overlaps, from_overlap, drain, activated, no_overlap, bridge, try_activate,
  try_activate_snapshot,
}
use cvf.OrderBook.Binance.Operations.{
  new_book, init, is_none, is_live, or_buffered, buffer_update, ingest_live, ingest, replace_bids,
  replace_asks, or_waiting, install_snapshot,
}
use cvf.OrderBook.Binance.Mirror.{Venue, IsFaithful, IsTrue, At}
use cvf.OrderBook.Binance.Calls.{IsConsistent}
use cvf.OrderBook.Binance.Reached.{Call, an_update, a_snapshot, call, after, after-call, after-At}

opened : Unit {0}
unfolding lookup assign pop fill_side snapshot_side apply_level apply_side link invalidate
    begin_resync overflow update_bids update_asks apply_update drop_before overlaps from_overlap
    drain activated no_overlap bridge try_activate try_activate_snapshot new_book init is_none
    is_live or_buffered buffer_update ingest_live ingest replace_bids replace_asks or_waiting
    install_snapshot call supported_exchange symbol_of fill_reverse put to_canonical_symbol
opened = tt

abbrev update_9_12 : DepthUpdate
update_9_12 = record {
  venue_symbol = "BTCUSDT";
  first_update_id = pos 9;
  final_update_id = pos 12;
  previous_final_update_id = pos 8;
  bids = ("100", "2") ∷ [];
  asks = [];
}

abbrev update_13_14 : DepthUpdate
update_13_14 = record {
  venue_symbol = "BTCUSDT";
  first_update_id = pos 13;
  final_update_id = pos 14;
  previous_final_update_id = pos 12;
  bids = ("100", "0") ∷ [];
  asks = [];
}

abbrev snapshot_10 : DepthSnapshot
snapshot_10 = record { last_update_id = pos 10; bids = ("100", "1") ∷ []; asks = [] }

abbrev book : Book numbers
book = record {
  venue_symbol = "BTCUSDT";
  canonical_symbol = "BTC-USDT-PERP";
  max_buffer_events = 3;
  status = buffering;
  generation = 0;
  sequence_id = none;
  bids = [];
  asks = [];
  buffer = [];
  pending_snapshot = none;
}

constructed : init numbers texts "BTCUSDT" 3 ≡ ok book
unfolding opened
constructed = refl

abbrev calls : List Call
calls = an_update update_9_12 ∷ a_snapshot snapshot_10 ∷ []

bridged :
    after {d = numbers} texts calls book
    ≡ record book { status = live; sequence_id = some (pos 12); bids = (100, 2) ∷ [] }
unfolding opened ℕ_discrete
bridged = refl

removed : (after {d = numbers} texts (calls ++ an_update update_13_14 ∷ []) book).bids ≡ []
unfolding opened ℕ_discrete
removed = refl

gap :
    (call {d = numbers} texts
      (an_update update_13_14)
      (record book { status = live; sequence_id = some (pos 11) })).1
    ≡ record book { status = resync_required; generation = 1; buffer = update_13_14 ∷ [] }
unfolding opened
gap = refl

after-call_example :
    IsConsistent (after {d = numbers} texts calls book)
    × ((call {d = numbers} texts (an_update update_13_14) (after {d = numbers} texts calls book)).0
        ≢ raise runtime_error)
after-call_example = after-call texts "BTCUSDT" 3 book calls (an_update update_13_14) constructed

-- One bid price, whose quantity changes at id 12.
abbrev venue : Venue numbers
venue = record {
  bids = λ n price. ite (ℕ_discrete 100 price) (some (if ltb_ℤ n (pos 12) then 1 else 2)) none;
  asks = λ n price. none;
}

last_counts :
    {P : Type 0} (o : Dec P) (x : Option ℕ) → ite o (some 2) (ite o x none) ≡ ite o (some 2) none
last_counts (yes p) x = refl
last_counts (no n) x = refl

update_9_12-IsFaithful : IsFaithful numbers venue update_9_12
update_9_12-IsFaithful = record {
  bids = λ n c. record {
    read = (100, 2) ∷ [];
    reads = (refl, refl, tt);
    leads = λ price. last_counts (ℕ_discrete 100 price) (some (if ltb_ℤ n (pos 12) then 1 else 2));
  };
  asks = λ n c. record { read = []; reads = tt; leads = λ price. refl };
}

snapshot_10-IsTrue : IsTrue numbers venue snapshot_10
unfolding opened
snapshot_10-IsTrue = record {
  bid_side = (100, 1) ∷ [];
  ask_side = [];
  read_bids = refl;
  read_asks = refl;
  bids = λ price. refl;
  asks = λ price. refl;
}

is_live_now : (after {d = numbers} texts calls book).status ≡ live
unfolding opened ℕ_discrete
is_live_now = refl

after-At_example :
    (s : ℤ) × ((after {d = numbers} texts calls book).sequence_id ≡ some s)
    × At numbers venue s (after {d = numbers} texts calls book)
after-At_example =
    after-At texts venue "BTCUSDT" 3 book calls constructed
      (update_9_12-IsFaithful, (snapshot_10-IsTrue, tt)) is_live_now

abbrev two_bids : Book numbers
two_bids = record book { status = live; sequence_id = some (pos 12); bids = (1, 2) ∷ (100, 2) ∷ [] }

abbrev shown : BookView numbers
shown = record {
  symbol = "BTC-USDT-PERP";
  generation = 0;
  sequence_id = some (pos 12);
  synchronized = true;
  bids = record { price = 100; quantity = 2 } ∷ record { price = 1; quantity = 2 } ∷ [];
  asks = [];
}

two_bids-shown : view numbers none two_bids ≡ ok shown
unfolding opened view check_depth to_depth sort_items insert_sorted order_book_levels
    order_book_level higher lower
two_bids-shown = refl

view-pairs_example :
    IsOrdered (higher numbers) (pairs numbers shown.bids)
    × IsOrdered (lower numbers) (pairs numbers shown.asks)
    × ((price : ℕ)
        → lookup ℕ_discrete price (pairs numbers shown.bids)
          ≡ lookup ℕ_discrete price two_bids.bids)
    × ((price : ℕ)
        → lookup ℕ_discrete price (pairs numbers shown.asks)
          ≡ lookup ℕ_discrete price two_bids.asks)
    × (shown.synchronized ≡ is_live two_bids.status)
    × (shown.sequence_id ≡ two_bids.sequence_id)
view-pairs_example = view-pairs numbers two_bids shown two_bids-shown

abbrev three_calls : List ManagerCall
three_calls =
    ingesting update_9_12
    ∷ ingesting (record update_9_12 { venue_symbol = "ETHUSDT" })
    ∷ ingesting (record update_13_14 { venue_symbol = "XRPUSDT" })
    ∷ []

-- There is no canonical symbol for the last one.
unknown : alone {d = numbers} texts "XRPUSDT" 3 three_calls ≡ none
unfolding opened alone alone_from run_own has_own text_discrete key_of apply
unknown = refl

take_calls-alone_example :
    (lookup text_discrete "BTCUSDT"
        (take_calls {d = numbers} texts three_calls (new_manager numbers 3)).books
      ≡ alone texts "BTCUSDT" 3 three_calls)
    × ((take_call {d = numbers} texts
          (ingesting update_13_14)
          (take_calls texts three_calls (new_manager numbers 3))).0
        ≡ answer_alone numbers texts (ingesting update_13_14) 3 three_calls)
take_calls-alone_example = take_calls-alone texts 3 three_calls "BTCUSDT" (ingesting update_13_14)
