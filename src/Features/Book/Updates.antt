-- ===== src/Features/Book/Updates.antt =====
-- features/state.py: the methods of `FeatureOrderBookState` that take events, and `view`.

use cvf.Prelude.{
  ℕ, Bool, true, false, not, ◌&&◌, ◌||◌, Option, none, some, List, [], ◌∷◌, ◌++◌, ℤ, pos, negsuc,
  ltb, leb, ◌==◌, leb_ℤ, ltb_ℤ, eqb_ℤ, length, if◌then◌else◌,
}
use cvf.Outcome.{Result, ok, ◌>>=◌ as then_result, ◌>>◌ as after_result}
use cvf.Exec.{Exec, pure, ◌>>◌}
use cvf.Decimals.{Decimals}
use cvf.Dict.{assign}
use cvf.OrderBook.Sides.{Side}
use cvf.OrderBook.Views.{OrderBookLevel, order_book_levels, check_depth, to_depth, sort_items}
use cvf.OrderBook.Binance.View.{higher, lower}
use cvf.Features.Lineage.{SourceLineage}
use cvf.Features.Book.{
  StateUpdateStatus, accepted, stale_generation, stale_sequence, buffered_for_snapshot,
  book_invalidated, Int10, sequence, Arithmetic, OrderBookSnapshot, OrderBookUpdate, a_snapshot,
  an_update, Book, Digests, reset, record_lineage, is_empty, is_crossed, desynchronize,
  apply_levels, measure_change,
}

-- `sequence or self.sequence_id`: zero is false too.
unfoldable pub or_sequence : Option ℤ → Option ℤ → Option ℤ
or_sequence none current = current
or_sequence (some n) current = if eqb_ℤ n (pos 0) then current else some n

-- The key of the pending updates, `_sequence(...) or -1`.
unfoldable pub pending_key : Option ℤ → ℤ
pending_key none = negsuc 0
pending_key (some n) = if eqb_ℤ n (pos 0) then negsuc 0 else n

-- Both sequences are known, and the first is not above the second; or it is above.
unfoldable pub not_after : Option ℤ → Option ℤ → Bool
not_after (some n) (some current) = leb_ℤ n current
not_after _ _ = false

unfoldable pub is_after : Option ℤ → Option ℤ → Bool
is_after (some n) (some current) = ltb_ℤ current n
is_after _ _ = false

unfoldable pub both_known : Option ℤ → Option ℤ → Bool
both_known (some n) (some current) = true
both_known _ _ = false

unfoldable pub differs : Option ℤ → Option ℤ → Bool
differs (some n) (some current) = not (eqb_ℤ n current)
differs _ _ = false

-- `synchronized_since`: what it was while synchronization goes on, or the time of the snapshot.
unfoldable pub since : Bool → Option ℕ → ℕ → Option ℕ
since true before t = before
since false before t = some t

-- `{level.price: level.quantity for level in levels}`.
unfoldable pub levels_side : (d : Decimals) → Side d → List (OrderBookLevel d) → Side d
levels_side d side [] = side
levels_side d side (level ∷ levels) =
    levels_side d (assign d.discrete level.price level.quantity side) levels

module _ (d : Decimals) (a : Arithmetic d.Value) (h : Digests d) (int10 : Int10) where
  unfoldable pub buffer : OrderBookUpdate d → Exec (Book d) StateUpdateStatus
  buffer update b =
      if leb b.pending_capacity (length b.pending)
      then (record_lineage d h (an_update update) >> pure book_invalidated)
          (record (reset d update.generation true b) { lineage = b.lineage })
      else (record_lineage d h (an_update update) >> pure buffered_for_snapshot)
          (record b { pending = b.pending ++ update ∷ [] })

  -- The level changes of an update that is in sequence.
  unfoldable pub apply_in_sequence : OrderBookUpdate d → Option ℤ → Book d → Bool × Book d
  unfolding or_sequence
  apply_in_sequence update n b =
      let change = measure_change d a update b in
      let (fits, applied) = apply_levels d update.bids update.asks b in
      if fits
      then (
        true,
        record applied {
          last_change = some change;
          sequence_id = or_sequence n applied.sequence_id;
        },
      )
      else (false, applied)

  unfoldable pub before_pending : OrderBookUpdate d → OrderBookUpdate d → Bool
  unfolding pending_key
  before_pending x y =
      leb_ℤ (pending_key (sequence int10 x.sequence_id))
        (pending_key (sequence int10 y.sequence_id))

  -- The loop over the pending updates: whether it ends, and the book.
  unfoldable pub drain_pending : List (OrderBookUpdate d) → Book d → Bool × Book d
  unfolding not_after is_after both_known apply_in_sequence
  drain_pending [] b = (true, b)
  drain_pending (update ∷ updates) b =
      let n = sequence int10 update.sequence_id in
      let previous = sequence int10 update.previous_sequence_id in
      elim (not_after n b.sequence_id) [
        | true ↦ drain_pending updates b
        | false ↦ elim (both_known n b.sequence_id && is_after previous b.sequence_id) [
          | true ↦ (false, desynchronize d b)
          | false ↦
              let (fits, applied) = apply_in_sequence update n b in
              elim fits [ true ↦ drain_pending updates applied | false ↦ (false, applied) ]
        ]
      ]

  unfoldable pub finish_snapshot : Bool × Book d → Result StateUpdateStatus × Book d
  finish_snapshot (ended, b) =
      if ended && b.synchronized then (ok accepted, b) else (ok book_invalidated, b)

  -- What follows the lineage in `apply_snapshot`; `continuing` and `before` are of the book before.
  unfoldable pub install :
      OrderBookSnapshot d
      → List (OrderBookUpdate d)
      → Bool
      → Option ℕ
      → Exec (Book d) StateUpdateStatus
  unfolding drain_pending finish_snapshot before_pending since levels_side
  install snapshot pending continuing before b =
      let bids = levels_side d [] snapshot.bids in
      let asks = levels_side d [] snapshot.asks in
      let complete = not (is_empty d bids || is_empty d asks) in
      let installed : Book d = record b {
        bids = bids;
        asks = asks;
        sequence_id = sequence int10 snapshot.sequence_id;
        synchronized = complete;
        synchronized_since =
            if complete then since continuing before snapshot.exchange_timestamp else none;
      } in
      if complete && is_crossed d bids asks
      then (ok book_invalidated, desynchronize d installed)
      else finish_snapshot (drain_pending (sort_items before_pending pending) installed)

  -- A snapshot that is not stale.
  unfoldable pub accept_snapshot : OrderBookSnapshot d → Exec (Book d) StateUpdateStatus
  unfolding install
  accept_snapshot snapshot b =
      let same_generation = snapshot.generation == b.generation in
      let pending = if same_generation then b.pending else [] in
      let continuing = same_generation && b.synchronized in
      let emptied = reset d snapshot.generation (not continuing) b in
      let started : Book d = record emptied {
        lineage = if same_generation then b.lineage else emptied.lineage;
      } in
      (record_lineage d h (a_snapshot snapshot)
          >> install snapshot pending continuing b.synchronized_since)
        started

  unfoldable pub apply_snapshot : OrderBookSnapshot d → Exec (Book d) StateUpdateStatus
  unfolding not_after accept_snapshot
  apply_snapshot snapshot b =
      if ltb snapshot.generation b.generation
      then (ok stale_generation, b)
      else if snapshot.generation == b.generation
          && b.synchronized
          && not_after (sequence int10 snapshot.sequence_id) b.sequence_id
      then (ok stale_sequence, b)
      else accept_snapshot snapshot b

  unfoldable pub finish_update : Bool × Book d → Result StateUpdateStatus × Book d
  finish_update (fits, b) = if fits then (ok accepted, b) else (ok book_invalidated, b)

  -- The end of `apply_update`: the change is measured before the lineage, which it does not read.
  unfoldable pub accept_update : OrderBookUpdate d → Exec (Book d) StateUpdateStatus
  unfolding apply_in_sequence finish_update
  accept_update update = record_lineage d h (an_update update) >> λ b.
      finish_update (apply_in_sequence update (sequence int10 update.sequence_id) b)

  unfoldable pub update_synchronized : OrderBookUpdate d → Exec (Book d) StateUpdateStatus
  unfolding not_after both_known differs buffer accept_update
  update_synchronized update b =
      let n = sequence int10 update.sequence_id in
      let previous = sequence int10 update.previous_sequence_id in
      if not_after n b.sequence_id
      then (ok stale_sequence, b)
      else if both_known n b.sequence_id && differs previous b.sequence_id
      then buffer update (record (desynchronize d b) { pending = [] })
      else accept_update update b

  unfoldable pub apply_update : OrderBookUpdate d → Exec (Book d) StateUpdateStatus
  unfolding update_synchronized
  apply_update update b =
      if ltb update.generation b.generation
      then (ok stale_generation, b)
      else if ltb b.generation update.generation
      then buffer update (reset d update.generation true b)
      else if not b.synchronized
      then buffer update b
      else update_synchronized update b

module _ (d : Decimals) where
  pub record FeatureBookView : Type 0 where
    pub generation : ℕ
    pub epoch : ℕ
    pub sequence_id : Option ℤ
    pub synchronized : Bool
    pub synchronized_since : Option ℕ
    pub bids : List (OrderBookLevel d)
    pub asks : List (OrderBookLevel d)
    pub pending_updates : ℕ
    pub lineage : SourceLineage

  unfoldable pub view : ℤ → Book d → Result FeatureBookView
  unfolding higher lower
  view depth b = after_result (check_depth (some depth)) (
      then_result (order_book_levels d (to_depth (some depth) (sort_items (higher d) b.bids)))
        λ bids.
          then_result (order_book_levels d (to_depth (some depth) (sort_items (lower d) b.asks)))
            λ asks. ok (record {
              generation = b.generation;
              epoch = b.epoch;
              sequence_id = b.sequence_id;
              synchronized = b.synchronized;
              synchronized_since = b.synchronized_since;
              bids = bids;
              asks = asks;
              pending_updates = length b.pending;
              lineage = b.lineage;
            }))
