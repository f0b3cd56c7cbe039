-- ===== src/Exchanges/Symbols.antt =====
-- exchanges/symbols.py: the mapping between canonical and venue symbols, with
-- utils/validation.py, `validate_canonical_symbol`.
use Prim.Native.String.{String}
use text.Mathlib.Text.{◌==◌ as str_eq}
use cvf.Prelude.{Bool, false, not, ◌&&◌, List, [], ◌∷◌, if◌then◌else◌}
use cvf.Outcome.{Result, ok, raise, value_error, ◌>>=◌}

-- models/enums.py, `Exchange`.
pub data Exchange : Type 0 where
  binance okx cross_venue simulated : Exchange

-- Python's `str.upper` and `str.strip`, and `fullmatch` of the pattern of canonical perpetual symbols.
pub record Texts : Type 0 where
  pub upper : String → String
  pub strip : String → String
  pub is_perpetual : String → Bool

abbrev pub SymbolMap : Type 0
SymbolMap = Exchange → List (String × String)

-- `DEFAULT_SYMBOL_MAP`: canonical and venue symbols.
abbrev pub default_symbol_map : SymbolMap
default_symbol_map binance = ("BTC-USDT-PERP", "BTCUSDT") ∷ ("ETH-USDT-PERP", "ETHUSDT") ∷ []
default_symbol_map okx =
    ("BTC-USDT-PERP", "BTC-USDT-SWAP") ∷ ("ETH-USDT-PERP", "ETH-USDT-SWAP") ∷ []
default_symbol_map _ = []

-- `UnknownSymbolError` is a `ValueError`.
unfoldable pub supported_exchange : Exchange → Result Exchange
supported_exchange binance = ok binance
supported_exchange okx = ok okx
supported_exchange _ = raise value_error

-- `table[key]`, with its `KeyError` turned into an `UnknownSymbolError`.
unfoldable pub symbol_of : String → List (String × String) → Result String
symbol_of key [] = raise value_error
symbol_of key ((k, v) ∷ table) = if str_eq k key then ok v else symbol_of key table

unfoldable pub put : String → String → List (String × String) → List (String × String)
put key value [] = (key, value) ∷ []
put key value ((k, v) ∷ table) =
    if str_eq k key then (k, value) ∷ table else (k, v) ∷ put key value table

module _ (texts : Texts) where
  unfoldable pub validate_canonical_symbol : Bool → String → Result String
  validate_canonical_symbol allow_wildcard value =
      let normalized = texts.upper (texts.strip value) in
      if allow_wildcard && str_eq normalized "*"
      then ok normalized
      else if not (texts.is_perpetual normalized)
      then raise value_error
      else ok normalized

  unfoldable pub to_exchange_symbol : SymbolMap → Exchange → String → Result String
  unfolding validate_canonical_symbol supported_exchange symbol_of
  to_exchange_symbol symbol_map exchange canonical_symbol = supported_exchange exchange >>= λ venue.
      validate_canonical_symbol false canonical_symbol >>= λ canonical.
      symbol_of canonical (symbol_map venue)

  -- The dictionary `reverse`, filled from the pairs in order.
  unfoldable pub fill_reverse :
      List (String × String) → List (String × String) → List (String × String)
  unfolding put
  fill_reverse reverse [] = reverse
  fill_reverse reverse ((canonical, raw) ∷ pairs) =
      fill_reverse (put (texts.upper raw) canonical reverse) pairs

  unfoldable pub to_canonical_symbol : SymbolMap → Exchange → String → Result String
  unfolding supported_exchange symbol_of fill_reverse
  to_canonical_symbol symbol_map exchange venue_symbol = supported_exchange exchange >>= λ venue.
      symbol_of (texts.upper (texts.strip venue_symbol)) (fill_reverse [] (symbol_map venue))
