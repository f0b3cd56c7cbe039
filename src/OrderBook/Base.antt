-- ===== src/OrderBook/Base.antt =====
-- orderbook/base.py: the states, transitions and results that the venues' books share.
use cvf.Prelude.{ℕ, Bool, Option, ℤ}

pub data BookStatus : Type 0 where
  buffering live resync_required : BookStatus

pub data BookTransition : Type 0 where
  buffered snapshot_applied update_applied stale_ignored retry_snapshot sequence_gap :
      BookTransition
  checksum_mismatch buffer_overflow resync_started : BookTransition

-- The text `reason` is not modelled.
pub record BookApplyResult : Type 0 where
  pub transition : BookTransition
  pub status : BookStatus
  pub generation : ℕ
  pub sequence_id : Option ℤ
  pub buffered_events : ℕ
  pub needs_snapshot : Bool
