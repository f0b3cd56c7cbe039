-- ===== src/OrderBook/Sides.antt =====
-- One side of a Binance book: quantities by price, and the two loops over level texts
-- (orderbook/binance.py, `_snapshot_side` and `_apply_side`).
use Prim.Native.String.{String}
use cvf.Prelude.{List, [], ◌∷◌, if◌then◌else◌}
use cvf.Outcome.{Result, ok, raise, ◌>>=◌}
use cvf.Decimals.{Decimals, decimal_from_text}
use cvf.Dict.{Dict, assign, pop}

-- Price text and quantity text.
abbrev pub BookLevelText : Type 0
BookLevelText = String × String

module _ (d : Decimals) where
  abbrev pub Side : Type 0
  Side = Dict d.Value d.Value

  -- `_snapshot_side`, with the side built so far.
  unfoldable pub fill_side : Side → List BookLevelText → Result Side
  fill_side side [] = ok side
  fill_side side ((price_text, quantity_text) ∷ levels) =
      decimal_from_text d price_text >>= λ price. decimal_from_text d quantity_text >>= λ quantity.
      fill_side (if d.is_positive quantity then assign d.discrete price quantity side else side)
        levels

  unfoldable pub snapshot_side : List BookLevelText → Result Side
  unfolding fill_side
  snapshot_side levels = fill_side [] levels

  -- The body of the loop of `_apply_side`.
  unfoldable pub apply_level : Side → d.Value → d.Value → Side
  apply_level side price quantity =
      if d.is_zero quantity
      then pop d.discrete price side
      else assign d.discrete price quantity side

  -- `_apply_side` changes the side in place: levels before one that does not parse stay applied.
  unfoldable pub apply_side : Side → List BookLevelText → Result (Unit {0}) × Side
  unfolding apply_level
  apply_side side [] = (ok tt, side)
  apply_side side ((price_text, quantity_text) ∷ levels) = elim (decimal_from_text d price_text) [
    | raise e ↦ (raise e, side)
    | ok price ↦ elim (decimal_from_text d quantity_text) [
      | raise e ↦ (raise e, side)
      | ok quantity ↦ apply_side (apply_level side price quantity) levels
    ]
  ]
