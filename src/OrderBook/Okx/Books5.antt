-- ===== src/OrderBook/Okx/Books5.antt =====
-- orderbook/okx.py: `OkxBooks5OrderBook`, which holds the last full snapshot.
use Prim.Native.String.{String}
use text.Mathlib.Text.{◌==◌ as str_eq}
use cvf.Prelude.{ℕ, ◌+◌, Option, none, some, List, [], ℤ, true, false, not, if◌then◌else◌}
use cvf.Outcome.{Result, ok, raise, value_error}
use cvf.Exec.{Exec, gets, modify, ◌>>◌}
use cvf.Decimals.{Decimals}
use cvf.OrderBook.Base.{
  BookStatus, buffering, live, resync_required, snapshot_applied, resync_started, BookApplyResult,
}
use cvf.OrderBook.Okx.{OkxBookLevelText, RawSide, raw_side, ContractSpecification, is_okx}

pub record OkxBooks5Data : Type 0 where
  pub asks : List OkxBookLevelText
  pub bids : List OkxBookLevelText
  pub instrument_id : String
  pub sequence_id : ℤ

module _ (d : Decimals) where
  pub record Books5Book : Type 0 where
    pub specification : ContractSpecification d
    pub status : BookStatus
    pub generation : ℕ
    pub sequence_id : Option ℤ
    pub bids : RawSide d
    pub asks : RawSide d

module _ {d : Decimals} where
  unfoldable pub init : ContractSpecification d → Result (Books5Book d)
  unfolding is_okx
  init specification =
      if not (is_okx specification.exchange)
      then raise value_error
      else ok (record {
        specification = specification;
        status = buffering;
        generation = 0;
        sequence_id = none;
        bids = [];
        asks = [];
      })

  unfoldable pub begin_resync : Exec (Books5Book d) BookApplyResult
  begin_resync = do
    modify (λ b. record b {
      generation = b.generation + 1;
      status = resync_required;
      sequence_id = none;
      bids = [];
      asks = [];
    })
    gets (λ b. record {
      transition = resync_started;
      status = b.status;
      generation = b.generation;
      sequence_id = none;
      buffered_events = 0;
      needs_snapshot = true;
    })

  unfoldable pub replace_bids : List OkxBookLevelText → Exec (Books5Book d) (Unit {0})
  replace_bids levels b = elim (raw_side d levels) [
    | ok side ↦ (ok tt, record b { bids = side })
    | raise e ↦ (raise e, b)
  ]

  unfoldable pub replace_asks : List OkxBookLevelText → Exec (Books5Book d) (Unit {0})
  replace_asks levels b = elim (raw_side d levels) [
    | ok side ↦ (ok tt, record b { asks = side })
    | raise e ↦ (raise e, b)
  ]

  unfoldable pub ingest : OkxBooks5Data → Exec (Books5Book d) BookApplyResult
  unfolding replace_bids replace_asks
  ingest message b =
      if not (str_eq message.instrument_id b.specification.venue_symbol)
      then (raise value_error, b)
      else ((replace_bids message.bids
            >> replace_asks message.asks
            >> modify (λ b'. record b' { sequence_id = some message.sequence_id; status = live })
            >> gets (λ b'. record {
              transition = snapshot_applied;
              status = b'.status;
              generation = b'.generation;
              sequence_id = b'.sequence_id;
              buffered_events = 0;
              needs_snapshot = false;
            }))
          b)
