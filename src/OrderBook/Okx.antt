-- ===== src/OrderBook/Okx.antt =====
-- orderbook/okx.py: the raw sides, the checksum and `OkxLocalOrderBook`. `books5` is in Okx/Books5.antt
-- and the manager in Okx/Manager.antt.
pub mod Books5
pub mod Checked
pub mod Checksum
pub mod Mirror
pub mod View
pub mod Manager
pub mod Managed
mod Runs
use Prim.Native.String.{String, ◌++◌ as ◌+++◌}
use cvf.Prelude.{
  ℕ, ◌+◌, ◌-◌, ◌^◌, Bool, true, false, not, ◌&&◌, Option, none, some, List, [], ◌∷◌, ltb, ℤ, pos,
  negsuc, eqb_ℤ, take, if◌then◌else◌,
}
use cvf.Outcome.{Result, ok, raise, value_error, ◌>>=◌, ◌>>◌}
use cvf.Exec.{Exec, pure, gets, modify, ◌>>=◌ as ◌>>=ₑ◌, ◌>>◌ as ◌>>ₑ◌}
use cvf.Dict.{Dict, assign, pop}
use cvf.Decimals.{Decimals, decimal_from_text}
use cvf.Exchanges.Symbols.{Exchange, okx, binance, cross_venue, simulated}
use cvf.OrderBook.Base.{
  BookStatus, buffering, live, resync_required, BookTransition, snapshot_applied, update_applied,
  sequence_gap, checksum_mismatch, resync_started, BookApplyResult,
}
use cvf.OrderBook.Views.{sort_items}

-- Price, quantity, the deprecated field and the order count.
abbrev pub OkxBookLevelText : Type 0
OkxBookLevelText = String × String × String × String

pub record OkxBookData : Type 0 where
  pub asks : List OkxBookLevelText
  pub bids : List OkxBookLevelText
  pub checksum : ℤ
  pub sequence_id : ℤ
  pub previous_sequence_id : ℤ

-- The literal `action` of a `books` message.
pub data Action : Type 0 where
  snapshot update : Action

-- `zlib.crc32` of the text's UTF-8 is `crc32`.
unfoldable pub signed_crc32 : (String → ℕ) → String → ℤ
signed_crc32 crc32 payload =
    let checksum = crc32 payload in
    if ltb checksum (2 ^ 31) then pos checksum else negsuc (2 ^ 32 - 1 - checksum)

-- `":".join(values)`.
unfoldable pub join : List String → String
join [] = ""
join (x ∷ []) = x
join (x ∷ y ∷ rest) = x +++ ":" +++ join (y ∷ rest)

module _ (d : Decimals) where
  pub record RawLevel : Type 0 where
    pub price : d.Value
    pub quantity_contracts : d.Value
    pub price_text : String
    pub quantity_text : String

  abbrev pub RawSide : Type 0
  RawSide = Dict d.Value RawLevel

  -- The loop of `_raw_side`.
  unfoldable pub fill_raw_side : RawSide → List OkxBookLevelText → Result RawSide
  fill_raw_side side [] = ok side
  fill_raw_side side ((price_text, quantity_text, _, _) ∷ levels) =
      decimal_from_text d price_text >>= λ price. decimal_from_text d quantity_text >>= λ quantity.
      fill_raw_side
        (if d.is_positive quantity
          then assign d.discrete price
              (record {
                price = price;
                quantity_contracts = quantity;
                price_text = price_text;
                quantity_text = quantity_text;
              })
              side
          else side)
        levels

  unfoldable pub raw_side : List OkxBookLevelText → Result RawSide
  unfolding fill_raw_side
  raw_side levels = fill_raw_side [] levels

  -- The body of the loop of `_apply_raw_side`.
  unfoldable pub apply_raw_level : RawSide → RawLevel → RawSide
  apply_raw_level side level =
      if d.is_zero level.quantity_contracts
      then pop d.discrete level.price side
      else assign d.discrete level.price level side

  -- `_apply_raw_side`, which changes the side in place.
  unfoldable pub apply_raw_side : RawSide → List OkxBookLevelText → Result (Unit {0}) × RawSide
  unfolding apply_raw_level
  apply_raw_side side [] = (ok tt, side)
  apply_raw_side side ((price_text, quantity_text, _, _) ∷ levels) =
      elim (decimal_from_text d price_text) [
        | raise e ↦ (raise e, side)
        | ok price ↦ elim (decimal_from_text d quantity_text) [
          | raise e ↦ (raise e, side)
          | ok quantity ↦
              apply_raw_side
                (apply_raw_level side (record {
                  price = price;
                  quantity_contracts = quantity;
                  price_text = price_text;
                  quantity_text = quantity_text;
                }))
                levels
        ]
      ]

  unfoldable pub higher : RawLevel → RawLevel → Bool
  higher x y = d.le y.price x.price

  unfoldable pub lower : RawLevel → RawLevel → Bool
  lower x y = d.le x.price y.price

  -- `side.values()`.
  unfoldable pub values : RawSide → List RawLevel
  values [] = []
  values ((_, level) ∷ side) = level ∷ values side

  -- The loop of `_checksum_from_sides` over the indices of the longer list.
  unfoldable pub interleave : List RawLevel → List RawLevel → List String
  interleave [] [] = []
  interleave (bid ∷ bids) [] = bid.price_text ∷ bid.quantity_text ∷ interleave bids []
  interleave [] (ask ∷ asks) = ask.price_text ∷ ask.quantity_text ∷ interleave [] asks
  interleave (bid ∷ bids) (ask ∷ asks) =
      bid.price_text ∷ bid.quantity_text ∷ ask.price_text ∷ ask.quantity_text ∷ interleave bids asks

  unfoldable pub checksum_from_sides : (String → ℕ) → RawSide → RawSide → ℤ
  unfolding higher lower values interleave join signed_crc32
  checksum_from_sides crc32 bids asks = signed_crc32 crc32 (
      join (
        interleave (take 25 (sort_items higher (values bids)))
          (take 25 (sort_items lower (values asks)))))

  unfoldable pub calculate_okx_checksum :
      (String → ℕ) → List OkxBookLevelText → List OkxBookLevelText → Result ℤ
  unfolding checksum_from_sides raw_side
  calculate_okx_checksum crc32 bids asks = raw_side bids >>= λ bid_side.
      raw_side asks >>= λ ask_side. ok (checksum_from_sides crc32 bid_side ask_side)

  -- normalization/instruments.py, `ContractSpecification`, the fields that the books read.
  pub record ContractSpecification : Type 0 where
    pub exchange : Exchange
    pub canonical_symbol : String
    pub venue_symbol : String
    pub contract_value : d.Value
    pub contract_multiplier : d.Value

  unfoldable pub contracts_to_base : ContractSpecification → d.Value → d.Value
  contracts_to_base specification contracts =
      d.times contracts (d.times specification.contract_value specification.contract_multiplier)

  pub record OkxBook : Type 0 where
    pub specification : ContractSpecification
    pub validate_nonzero_checksum : Bool
    pub status : BookStatus
    pub generation : ℕ
    pub sequence_id : Option ℤ
    pub bids : RawSide
    pub asks : RawSide

unfoldable pub is_okx : Exchange → Bool
is_okx okx = true
is_okx _ = false

module _ {d : Decimals} where
  unfoldable pub init : ContractSpecification d → Bool → Result (OkxBook d)
  unfolding is_okx
  init specification validate_nonzero_checksum =
      if not (is_okx specification.exchange)
      then raise value_error
      else ok (record {
        specification = specification;
        validate_nonzero_checksum = validate_nonzero_checksum;
        status = buffering;
        generation = 0;
        sequence_id = none;
        bids = [];
        asks = [];
      })

  unfoldable pub result : BookTransition → Bool → OkxBook d → BookApplyResult
  result transition needs_snapshot b = record {
    transition = transition;
    status = b.status;
    generation = b.generation;
    sequence_id = b.sequence_id;
    buffered_events = 0;
    needs_snapshot = needs_snapshot;
  }

  unfoldable pub invalidate : OkxBook d → OkxBook d
  invalidate b = record b {
    generation = b.generation + 1;
    status = resync_required;
    sequence_id = none;
    bids = [];
    asks = [];
  }

  unfoldable pub begin_resync : Exec (OkxBook d) BookApplyResult
  unfolding invalidate result
  begin_resync b = (ok (result resync_started true (invalidate b)), invalidate b)

module _ {d : Decimals} (crc32 : String → ℕ) where
  unfoldable pub checksum_valid : ℤ → OkxBook d → Bool
  unfolding checksum_from_sides
  checksum_valid checksum b =
      if eqb_ℤ checksum (pos 0)
      then true
      else if not b.validate_nonzero_checksum
      then true
      else eqb_ℤ (checksum_from_sides d crc32 b.bids b.asks) checksum

  unfoldable pub checksum_failure : Exec (OkxBook d) BookApplyResult
  unfolding invalidate result
  checksum_failure b = (ok (result checksum_mismatch true (invalidate b)), invalidate b)

  -- The end of both branches of `ingest`: the checksum, and then the status of an applied snapshot.
  unfoldable pub accept_if_valid :
      ℤ → BookTransition → (OkxBook d → OkxBook d) → Exec (OkxBook d) BookApplyResult
  unfolding checksum_valid checksum_failure result
  accept_if_valid checksum transition finish b =
      if checksum_valid checksum b
      then (ok (result transition false (finish b)), finish b)
      else checksum_failure b

  unfoldable pub replace_bids : List OkxBookLevelText → Exec (OkxBook d) (Unit {0})
  unfolding raw_side
  replace_bids levels b = elim (raw_side d levels) [
    | ok side ↦ (ok tt, record b { bids = side })
    | raise e ↦ (raise e, b)
  ]

  unfoldable pub replace_asks : List OkxBookLevelText → Exec (OkxBook d) (Unit {0})
  unfolding raw_side
  replace_asks levels b = elim (raw_side d levels) [
    | ok side ↦ (ok tt, record b { asks = side })
    | raise e ↦ (raise e, b)
  ]

  unfoldable pub apply_bids : List OkxBookLevelText → Exec (OkxBook d) (Unit {0})
  unfolding apply_raw_side
  apply_bids levels b =
      let (r, side) = apply_raw_side d b.bids levels in (r, record b { bids = side })

  unfoldable pub apply_asks : List OkxBookLevelText → Exec (OkxBook d) (Unit {0})
  unfolding apply_raw_side
  apply_asks levels b =
      let (r, side) = apply_raw_side d b.asks levels in (r, record b { asks = side })

  -- `ingest` of a snapshot.
  unfoldable pub ingest_snapshot : OkxBookData → Exec (OkxBook d) BookApplyResult
  ingest_snapshot message =
      replace_bids message.bids
      >>ₑ replace_asks message.asks
      >>ₑ modify (λ b. record b { sequence_id = some message.sequence_id })
      >>ₑ accept_if_valid message.checksum snapshot_applied (λ b. record b { status = live })

  -- `ingest` of an update that continues the book's sequence.
  unfoldable pub apply_update : OkxBookData → Exec (OkxBook d) BookApplyResult
  apply_update message =
      apply_bids message.bids
      >>ₑ apply_asks message.asks
      >>ₑ modify (λ b. record b { sequence_id = some message.sequence_id })
      >>ₑ accept_if_valid message.checksum update_applied (λ b. b)

  unfoldable pub ingest_update :
      BookStatus → Option ℤ → OkxBookData → Exec (OkxBook d) BookApplyResult
  unfolding invalidate result
  ingest_update live (some sequence_id) message b =
      if not (eqb_ℤ message.previous_sequence_id sequence_id)
      then (ok (result sequence_gap true (invalidate b)), invalidate b)
      else apply_update message b
  ingest_update _ _ message b =
      let b' = record b { status = resync_required } in (ok (result sequence_gap true b'), b')

  unfoldable pub ingest : Action → OkxBookData → Exec (OkxBook d) BookApplyResult
  ingest snapshot message b = ingest_snapshot message b
  ingest update message b = ingest_update b.status b.sequence_id message b
