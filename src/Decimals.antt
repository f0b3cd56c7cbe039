-- ===== src/Decimals.antt =====
-- Python's `Decimal`, which the program uses and does not implement: finite values up to numeric
-- equality, their order, their product and the text constructor.
use Prim.Native.String.{String}
use cvf.Prelude.{◌≡◌, ◌⊎◌, Bool, true, false}
use cvf.Outcome.{Result, ok, raise, normalization_error}

-- What `Decimal(text)` gives: `InvalidOperation`, an infinity or a NaN, or a finite value.
pub data Parsed (V : Type 0) : Type 0 where
  invalid not_finite : Parsed V
  finite : V → Parsed V

pub record Decimals : Type 1 where
  pub Value : Type 0
  pub discrete : Discrete Value
  pub of_text : String → Parsed Value
  pub times : Value → Value → Value
  pub is_zero : Value → Bool
  pub is_positive : Value → Bool
  pub le : Value → Value → Bool
  pub le_total : (a b : Value) → (le a b ≡ true) ⊎ (le b a ≡ true)
  pub le_trans : (a b c : Value) → le a b ≡ true → le b c ≡ true → le a c ≡ true
  pub le_antisymm : (a b : Value) → le a b ≡ true → le b a ≡ true → a ≡ b
  pub zero_not_positive : (a : Value) → is_positive a ≡ true → is_zero a ≡ false

-- `decimal_from_text` of normalization/common.py.
abbrev pub checked : {V : Type 0} → Parsed V → Result V
checked invalid = raise normalization_error
checked not_finite = raise normalization_error
checked (finite v) = ok v

abbrev pub decimal_from_text : (d : Decimals) → String → Result d.Value
decimal_from_text d text = checked (d.of_text text)
