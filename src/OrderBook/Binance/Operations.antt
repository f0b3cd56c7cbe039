-- ===== src/OrderBook/Binance/Operations.antt =====
-- orderbook/binance.py: `_buffer_update`, `ingest` and `install_snapshot`.
use Prim.Native.String.{String}
use text.Mathlib.Text.{◌==◌ as str_eq}
use cvf.Prelude.{
  ℕ, ltb, Bool, true, false, not, Option, none, some, List, [], ◌∷◌, ◌++◌, leb, length,
  if◌then◌else◌,
}
use cvf.Exchanges.Symbols.{Texts, binance, default_symbol_map, to_canonical_symbol}
use cvf.Outcome.{Result, ◌>>=◌ as ◌>>=ᵣ◌, ok, raise, value_error, runtime_error}
use cvf.Exec.{Exec, pure, gets, modify, ◌>>=◌, ◌>>◌}
use cvf.Decimals.{Decimals}
use cvf.OrderBook.Base.{
  BookStatus, buffering, live, buffered, update_applied, stale_ignored, sequence_gap,
  BookApplyResult,
}
use cvf.OrderBook.Sides.{BookLevelText, snapshot_side}
use cvf.OrderBook.Binance.{
  DepthUpdate, DepthSnapshot, lost, old, broken, follows, link, Book, result, invalidate, overflow,
  apply_update,
}
use cvf.OrderBook.Binance.Activation.{try_activate_snapshot}

unfoldable pub is_none : Option DepthSnapshot → Bool
is_none none = true
is_none (some _) = false

unfoldable pub is_live : BookStatus → Bool
is_live live = true
is_live _ = false

module _ (d : Decimals) where
  unfoldable pub new_book : String → ℕ → String → Book d
  new_book venue_symbol max_buffer_events canonical_symbol = record {
    venue_symbol = venue_symbol;
    canonical_symbol = canonical_symbol;
    max_buffer_events = max_buffer_events;
    status = buffering;
    generation = 0;
    sequence_id = none;
    bids = [];
    asks = [];
    buffer = [];
    pending_snapshot = none;
  }

  -- `BinanceLocalOrderBook(venue_symbol, max_buffer_events=...)`.
  unfoldable pub init : Texts → String → ℕ → Result (Book d)
  unfolding new_book
  init texts venue_symbol max_buffer_events =
      if ltb max_buffer_events 1
      then raise value_error
      else (to_canonical_symbol texts default_symbol_map binance (texts.upper venue_symbol)
          >>=ᵣ λ canonical_symbol.
              ok (new_book (texts.upper venue_symbol) max_buffer_events canonical_symbol))

module _ {d : Decimals} where
  -- The result of `_buffer_update` when the activation gave none.
  unfoldable pub or_buffered : Option BookApplyResult → Exec (Book d) BookApplyResult
  unfolding result is_none
  or_buffered (some r) = pure r
  or_buffered none = gets (λ b. result buffered (is_none b.pending_snapshot) b)

  unfoldable pub buffer_update : DepthUpdate → Exec (Book d) BookApplyResult
  buffer_update update b =
      if leb b.max_buffer_events (length b.buffer)
      then overflow update b
      else (try_activate_snapshot >>= or_buffered) (record b { buffer = b.buffer ++ update ∷ [] })

  unfoldable pub ingest_live : DepthUpdate → Exec (Book d) BookApplyResult
  unfolding invalidate result
  ingest_live update b = elim (link b.sequence_id update) [
    | lost ↦ (raise runtime_error, b)
    | old ↦ (ok (result stale_ignored false b), b)
    | broken ↦
        (ok (result sequence_gap true (invalidate (update ∷ []) b)), invalidate (update ∷ []) b)
    | follows ↦ (apply_update update >>= λ _. gets (result update_applied false)) b
  ]

  -- `upper` is `str.upper`.
  unfoldable pub ingest : (String → String) → DepthUpdate → Exec (Book d) BookApplyResult
  unfolding is_live
  ingest upper update b =
      if not (str_eq (upper update.venue_symbol) b.venue_symbol)
      then (raise value_error, b)
      else if is_live b.status
      then ingest_live update b
      else buffer_update update b

  -- A side that is replaced as a whole: if a level does not parse, the old side stays.
  unfoldable pub replace_bids : List BookLevelText → Exec (Book d) (Unit {0})
  replace_bids levels b = elim (snapshot_side d levels) [
    | ok side ↦ (ok tt, record b { bids = side })
    | raise e ↦ (raise e, b)
  ]

  unfoldable pub replace_asks : List BookLevelText → Exec (Book d) (Unit {0})
  replace_asks levels b = elim (snapshot_side d levels) [
    | ok side ↦ (ok tt, record b { asks = side })
    | raise e ↦ (raise e, b)
  ]

  unfoldable pub or_waiting : Option BookApplyResult → Exec (Book d) BookApplyResult
  unfolding result
  or_waiting (some r) = pure r
  or_waiting none = gets (result buffered false)

  unfoldable pub install_snapshot : DepthSnapshot → Exec (Book d) BookApplyResult
  install_snapshot snapshot = do
    modify (λ b. record b {
      pending_snapshot = some snapshot;
      sequence_id = some snapshot.last_update_id;
    })
    replace_bids snapshot.bids
    replace_asks snapshot.asks
    modify (λ b. record b { status = buffering })
    activation ← try_activate_snapshot
    or_waiting activation
