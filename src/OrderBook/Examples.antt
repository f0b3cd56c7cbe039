-- ===== src/OrderBook/Examples.antt =====
-- Test data for the order books: decimals and text methods that evaluate.
use Prim.Native.Nat.{ℕ, ◌*◌}
use Prim.Native.String.{String}
use native.Mathlib.Decide.{ℕ_discrete}
use text.Mathlib.Text.{◌==◌ as str_eq}
use cvf.Prelude.{
  ◌≡◌, ◌⊎◌, inl, inr, true, false, leb, ◌==◌, if◌then◌else◌, leb→lt, Bool-cases, arith,
}
use cvf.Decimals.{Decimals, Parsed, invalid, finite}
use cvf.Exchanges.Symbols.{Texts}

abbrev pub read_text : String → Parsed ℕ
read_text t =
    if str_eq t "0"
    then finite 0
    else if str_eq t "1"
    then finite 1
    else if str_eq t "2"
    then finite 2
    else if str_eq t "100"
    then finite 100
    else invalid

pub leb_total : (a b : ℕ) → (leb a b ≡ true) ⊎ (leb b a ≡ true)
leb_total a b = elim (Bool-cases (leb a b)) [
  | inl e ↦ inl e
  | inr e ↦ inr (ground (arith, leb→lt a b e))
]

pub leb_trans : (a b c : ℕ) → leb a b ≡ true → leb b c ≡ true → leb a c ≡ true
leb_trans a b c h k = ground arith

pub leb_antisymm : (a b : ℕ) → leb a b ≡ true → leb b a ≡ true → a ≡ b
leb_antisymm a b h k = ground arith

pub one_not_zero : (a : ℕ) → leb 1 a ≡ true → (a == 0) ≡ false
one_not_zero a h = ground arith

-- Whole numbers for `Decimal`, of which four texts are read.
abbrev pub numbers : Decimals
numbers = record {
  Value = ℕ;
  discrete = ℕ_discrete;
  of_text = read_text;
  times = λ m n. m * n;
  is_zero = λ n. n == 0;
  is_positive = λ n. leb 1 n;
  le = leb;
  le_total = leb_total;
  le_trans = leb_trans;
  le_antisymm = leb_antisymm;
  zero_not_positive = one_not_zero;
}

abbrev pub texts : Texts
texts = record { upper = λ s. s; strip = λ s. s; is_perpetual = λ s. true }
