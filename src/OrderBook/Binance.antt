-- ===== src/OrderBook/Binance.antt =====
-- orderbook/binance.py: `BinanceLocalOrderBook`, one symbol's bounded-buffer depth state machine.
-- `view` is in Binance/View.antt, the manager in Binance/Manager.antt.
pub mod Activation
pub mod Operations
pub mod Invariant
pub mod Draining
pub mod Activating
pub mod Calls
pub mod Mirror
pub mod Mirroring
pub mod Stream
pub mod Reached
pub mod View
pub mod Manager
pub mod Family
pub mod Isolated
mod Runs
use Prim.Native.String.{String}
use text.Mathlib.Text.{◌==◌ as str_eq}
use cvf.Prelude.{
  ℕ, zero, suc, ◌+◌, Bool, true, false, not, ◌&&◌, Option, none, some, List, [], ◌∷◌, ◌++◌, ℤ,
  leb_ℤ, ltb_ℤ, eqb_ℤ, leb, length, if◌then◌else◌,
}
use cvf.Outcome.{Error, Result, ok, raise, value_error, runtime_error}
use cvf.Exec.{Exec, pure, throw, gets, modify, ◌>>=◌, ◌>>◌}
use cvf.Decimals.{Decimals}
use cvf.OrderBook.Base.{
  BookStatus, buffering, live, resync_required, BookTransition, buffered, snapshot_applied,
  update_applied, stale_ignored, retry_snapshot, sequence_gap, buffer_overflow, resync_started,
  BookApplyResult,
}
use cvf.OrderBook.Sides.{BookLevelText, Side, snapshot_side, apply_side}

-- `BinanceDepthUpdatePayload` and `BinanceDepthSnapshotPayload`, the fields that the book reads.
pub record DepthUpdate : Type 0 where
  pub venue_symbol : String
  pub first_update_id : ℤ
  pub final_update_id : ℤ
  pub previous_final_update_id : ℤ
  pub bids : List BookLevelText
  pub asks : List BookLevelText

pub record DepthSnapshot : Type 0 where
  pub last_update_id : ℤ
  pub bids : List BookLevelText
  pub asks : List BookLevelText

-- How an update stands to the book's sequence id, in the order of the tests of `ingest` and of the
-- second loop of `_try_activate_snapshot`. `lost` is the missing id, for which both raise.
pub data Link : Type 0 where
  lost old broken follows : Link

unfoldable pub link : Option ℤ → DepthUpdate → Link
link none update = lost
link (some sequence_id) update =
    if leb_ℤ update.final_update_id sequence_id
    then old
    else if not (eqb_ℤ update.previous_final_update_id sequence_id)
    then broken
    else follows

module _ (d : Decimals) where
  -- `venue_symbol` is in upper case, as the constructor leaves it.
  pub record Book : Type 0 where
    pub venue_symbol : String
    pub canonical_symbol : String
    pub max_buffer_events : ℕ
    pub status : BookStatus
    pub generation : ℕ
    pub sequence_id : Option ℤ
    pub bids : Side d
    pub asks : Side d
    pub buffer : List DepthUpdate
    pub pending_snapshot : Option DepthSnapshot

module _ {d : Decimals} where
  unfoldable pub result : BookTransition → Bool → Book d → BookApplyResult
  result transition needs_snapshot b = record {
    transition = transition;
    status = b.status;
    generation = b.generation;
    sequence_id = b.sequence_id;
    buffered_events = length b.buffer;
    needs_snapshot = needs_snapshot;
  }

  -- What a lost book keeps: nothing but the given updates, in the next generation.
  unfoldable pub invalidate : List DepthUpdate → Book d → Book d
  invalidate kept b = record b {
    generation = b.generation + 1;
    status = resync_required;
    sequence_id = none;
    bids = [];
    asks = [];
    buffer = kept;
    pending_snapshot = none;
  }

  unfoldable pub begin_resync : Exec (Book d) BookApplyResult
  unfolding invalidate result
  begin_resync = do modify (invalidate []); gets (result resync_started true)

  unfoldable pub overflow : DepthUpdate → Exec (Book d) BookApplyResult
  unfolding invalidate result
  overflow update = do modify (invalidate (update ∷ [])); gets (result buffer_overflow true)

  unfoldable pub update_bids : List BookLevelText → Exec (Book d) (Unit {0})
  update_bids levels b = let (r, side) = apply_side d b.bids levels in (r, record b { bids = side })

  unfoldable pub update_asks : List BookLevelText → Exec (Book d) (Unit {0})
  update_asks levels b = let (r, side) = apply_side d b.asks levels in (r, record b { asks = side })

  unfoldable pub apply_update : DepthUpdate → Exec (Book d) (Unit {0})
  unfolding update_bids update_asks
  apply_update update = do
    update_bids update.bids
    update_asks update.asks
    modify (λ b. record b { sequence_id = some update.final_update_id })
