-- ===== src/Features/Book.antt =====
-- features/state.py: `FeatureOrderBookState`, the book that the features read. The texts of `last_error`
-- are not modelled.
pub mod Updates
pub mod Sound
pub mod Sync
pub mod Events
pub mod Generations
pub mod Prices
pub mod Examples
mod Runs
use Prim.Native.String.{String}
use cvf.Prelude.{
  ℕ, zero, suc, ◌+◌, Bool, true, false, not, ◌&&◌, ◌||◌, Option, none, some, List, [], ◌∷◌, ◌++◌,
  map, ℤ, pos, negsuc, ltb, leb, ◌==◌, leb_ℤ, ltb_ℤ, eqb_ℤ, length, if◌then◌else◌,
}
use cvf.Outcome.{Result, ok, raise, value_error}
use cvf.Exec.{Exec, pure, modify, ◌>>=◌, ◌>>◌}
use cvf.Time.{DateTime, aware}
use cvf.Decimals.{Decimals}
use cvf.Dict.{Dict, lookup, assign, pop}
use cvf.OrderBook.Sides.{Side, apply_level}
use cvf.OrderBook.Views.{OrderBookLevel, sort_items}
use cvf.Features.Lineage.{SourceLineage, empty, HexTexts, from_digest, combine}

pub data StateUpdateStatus : Type 0 where
  accepted late_dropped expired_dropped stale_generation stale_sequence : StateUpdateStatus
  buffered_for_snapshot book_invalidated : StateUpdateStatus

-- `int | str`.
pub data SequenceId : Type 0 where
  number : ℤ → SequenceId
  text : String → SequenceId

-- `int(text)`, of which the code catches the `ValueError`.
abbrev pub Int10 : Type 0
Int10 = String → Option ℤ

unfoldable pub sequence : Int10 → Option SequenceId → Option ℤ
sequence int10 none = none
sequence int10 (some (number n)) = some n
sequence int10 (some (text t)) = int10 t

-- What else of `Decimal` the changes of a book use, with no law assumed: `Decimal(0)`, sums, differences,
-- `-x` and `x < 0`.
pub record Arithmetic (V : Type 0) : Type 0 where
  pub nought : V
  pub plus : V → V → V
  pub minus : V → V → V
  pub negate : V → V
  pub is_negative : V → Bool

module _ (d : Decimals) where
  -- The fields of the two events that the book reads; timestamps of events are UTC.
  pub record OrderBookSnapshot : Type 0 where
    pub exchange_timestamp : ℕ
    pub sequence_id : Option SequenceId
    pub generation : ℕ
    pub bids : List (OrderBookLevel d)
    pub asks : List (OrderBookLevel d)

  pub record OrderBookUpdate : Type 0 where
    pub exchange_timestamp : ℕ
    pub sequence_id : Option SequenceId
    pub previous_sequence_id : Option SequenceId
    pub generation : ℕ
    pub bids : List (OrderBookLevel d)
    pub asks : List (OrderBookLevel d)

  pub data BookEvent : Type 0 where
    a_snapshot : OrderBookSnapshot → BookEvent
    an_update : OrderBookUpdate → BookEvent

  pub record BookChange : Type 0 where
    pub bid_quantity_delta : d.Value
    pub ask_quantity_delta : d.Value
    pub added_bid_quantity : d.Value
    pub added_ask_quantity : d.Value
    pub removed_bid_quantity : d.Value
    pub removed_ask_quantity : d.Value
    pub order_flow_imbalance : d.Value

  pub record Book : Type 0 where
    pub pending_capacity : ℕ
    pub pending : List OrderBookUpdate
    pub bids : Side d
    pub asks : Side d
    pub generation : ℕ
    pub epoch : ℕ
    pub sequence_id : Option ℤ
    pub synchronized : Bool
    pub synchronized_since : Option ℕ
    pub last_change : Option BookChange
    pub lineage : SourceLineage

  -- What the book uses of the hashes: `len` and `int` of the digest, and `semantic_source_digest` of an event.
  pub record Digests : Type 0 where
    pub hex : HexTexts
    pub source_digest : ℕ → BookEvent → String

unfoldable pub init : (d : Decimals) → ℤ → Result (Book d)
init d (negsuc n) = raise value_error
init d (pos zero) = raise value_error
init d (pos (suc n)) = ok (record {
  pending_capacity = suc n;
  pending = [];
  bids = [];
  asks = [];
  generation = 0;
  epoch = 0;
  sequence_id = none;
  synchronized = false;
  synchronized_since = none;
  last_change = none;
  lineage = empty;
})

module _ (d : Decimals) where
  unfoldable pub reset : ℕ → Bool → Book d → Book d
  reset generation advance_epoch b = record b {
    bids = [];
    asks = [];
    pending = [];
    generation = generation;
    epoch = if advance_epoch then b.epoch + 1 else b.epoch;
    sequence_id = none;
    synchronized = false;
    synchronized_since = none;
    last_change = none;
    lineage = empty;
  }

  unfoldable pub event_time : BookEvent d → ℕ
  event_time (a_snapshot s) = s.exchange_timestamp
  event_time (an_update u) = u.exchange_timestamp

  unfoldable pub record_combined : Result SourceLineage → Exec (Book d) (Unit {0})
  record_combined (raise e) b = (raise e, b)
  record_combined (ok l) b = (ok tt, record b { lineage = l })

  unfoldable pub record_source : Result SourceLineage → Exec (Book d) (Unit {0})
  unfolding record_combined
  record_source (raise e) b = (raise e, b)
  record_source (ok l) b = record_combined (combine b.lineage (l ∷ [])) b

  unfoldable pub from_source : Digests d → ℕ → BookEvent d → Result SourceLineage
  from_source h t event = from_digest h.hex (aware t) (h.source_digest t event)

  unfoldable pub record_lineage : Digests d → BookEvent d → Exec (Book d) (Unit {0})
  unfolding event_time record_source from_source
  record_lineage h event = record_source (from_source h (event_time event) event)

  unfoldable pub apply_side : Side d → List (OrderBookLevel d) → Side d
  unfolding apply_level
  apply_side side [] = side
  apply_side side (level ∷ levels) =
      apply_side (apply_level d side level.price level.quantity) levels

  unfoldable pub is_empty : Side d → Bool
  is_empty [] = true
  is_empty (item ∷ side) = false

  -- `max` and `min` of the prices.
  unfoldable pub highest : d.Value → Side d → d.Value
  highest p [] = p
  highest p ((q, _) ∷ side) = highest (if d.le q p then p else q) side

  unfoldable pub lowest : d.Value → Side d → d.Value
  lowest p [] = p
  lowest p ((q, _) ∷ side) = lowest (if d.le p q then p else q) side

  -- `max(bids) >= min(asks)`; a side without levels is not compared.
  unfoldable pub is_crossed : Side d → Side d → Bool
  unfolding highest lowest
  is_crossed [] asks = false
  is_crossed (b ∷ bids) [] = false
  is_crossed ((p, _) ∷ bids) ((q, _) ∷ asks) = d.le (lowest q asks) (highest p bids)

  unfoldable pub desynchronize : Book d → Book d
  desynchronize b = record b { synchronized = false; synchronized_since = none }

  unfoldable pub apply_levels :
      List (OrderBookLevel d) → List (OrderBookLevel d) → Book d → Bool × Book d
  unfolding apply_side is_empty is_crossed desynchronize
  apply_levels bids asks b =
      let applied : Book d = record b {
        bids = apply_side b.bids bids;
        asks = apply_side b.asks asks;
      } in
      if is_empty applied.bids || is_empty applied.asks
      then (false, desynchronize applied)
      else if is_crossed applied.bids applied.asks
      then (false, desynchronize applied)
      else (true, applied)

  module _ (a : Arithmetic d.Value) where
    unfoldable pub quantity_or_zero : Option d.Value → d.Value
    quantity_or_zero none = a.nought
    quantity_or_zero (some q) = q

    unfoldable pub deltas : Side d → List (OrderBookLevel d) → List d.Value
    unfolding quantity_or_zero
    deltas side [] = []
    deltas side (level ∷ levels) =
        a.minus level.quantity (quantity_or_zero (lookup d.discrete level.price side))
        ∷ deltas side levels

    -- `sum(values, Decimal(0))`.
    unfoldable pub sum_from : d.Value → List d.Value → d.Value
    sum_from total [] = total
    sum_from total (v ∷ vs) = sum_from (a.plus total v) vs

    unfoldable pub positives : List d.Value → List d.Value
    positives [] = []
    positives (v ∷ vs) = let rest = positives vs in if d.is_positive v then v ∷ rest else rest

    unfoldable pub negatives : List d.Value → List d.Value
    negatives [] = []
    negatives (v ∷ vs) =
        let rest = negatives vs in if a.is_negative v then a.negate v ∷ rest else rest

    unfoldable pub measure_change : OrderBookUpdate d → Book d → BookChange d
    unfolding deltas sum_from positives negatives
    measure_change update b =
        let bid_deltas = deltas b.bids update.bids in
        let ask_deltas = deltas b.asks update.asks in
        let bid_delta = sum_from a.nought bid_deltas in
        let ask_delta = sum_from a.nought ask_deltas in
        record {
          bid_quantity_delta = bid_delta;
          ask_quantity_delta = ask_delta;
          added_bid_quantity = sum_from a.nought (positives bid_deltas);
          added_ask_quantity = sum_from a.nought (positives ask_deltas);
          removed_bid_quantity = sum_from a.nought (negatives bid_deltas);
          removed_ask_quantity = sum_from a.nought (negatives ask_deltas);
          order_flow_imbalance = a.minus bid_delta ask_delta;
        }
