-- ===== src/Features/Lineage.antt =====
-- features/lineage.py: `SourceLineage`, the commitment to a multiset of sources. A lineage that was made
-- holds UTC instants; its constructor is `init`.
pub mod Xor
pub mod Merging
pub mod Combining
mod Runs
use Prim.Native.Nat.{bit_xor}
use Prim.Native.String.{String}
use cvf.Prelude.{
  ℕ, zero, suc, ◌+◌, ◌%◌, ◌^◌, min, max, Bool, true, false, not, ◌||◌, Option, none, some, List, [],
  ◌∷◌, ◌++◌, ℤ, pos, negsuc, ltb, leb, ◌==◌, if◌then◌else◌,
}
use cvf.Outcome.{Result, ok, raise, value_error, ◌>>=◌, ◌>>◌}
use cvf.Time.{DateTime, aware, utc}

abbrev pub digest_modulus : ℕ
digest_modulus = 2 ^ 256

pub record SourceLineage : Type 0 where
  pub count : ℕ
  pub digest_sum : ℕ
  pub digest_xor : ℕ
  pub oldest_timestamp : Option ℕ
  pub newest_timestamp : Option ℕ

abbrev pub empty : SourceLineage
empty = record {
  count = 0;
  digest_sum = 0;
  digest_xor = 0;
  oldest_timestamp = none;
  newest_timestamp = none;
}

-- A digest inside [0, 2 ^ 256).
unfoldable pub uint256 : ℤ → Result ℕ
uint256 (pos n) = if ltb n digest_modulus then ok n else raise value_error
uint256 (negsuc n) = raise value_error

unfoldable pub is_set : Option DateTime → Bool
is_set none = false
is_set (some t) = true

unfoldable pub bounds_of : Option DateTime → Option DateTime → Result (ℕ × ℕ)
bounds_of (some oldest) (some newest) =
    utc oldest >>= λ o. utc newest >>= λ n. if ltb n o then raise value_error else ok (o, n)
bounds_of _ _ = raise value_error

-- `__post_init__`, for a count that is not negative.
unfoldable pub init_counted : ℕ → ℕ → ℕ → Option DateTime → Option DateTime → Result SourceLineage
unfolding is_set bounds_of
init_counted zero s x oldest newest =
    if not (s == 0) || not (x == 0) || is_set oldest || is_set newest
    then raise value_error
    else ok empty
init_counted (suc n) s x oldest newest = bounds_of oldest newest >>= λ bounds. ok (record {
  count = suc n;
  digest_sum = s;
  digest_xor = x;
  oldest_timestamp = some bounds.0;
  newest_timestamp = some bounds.1;
})

unfoldable pub init : ℤ → ℤ → ℤ → Option DateTime → Option DateTime → Result SourceLineage
unfolding uint256 init_counted
init (negsuc n) s x oldest newest = raise value_error
init (pos n) s x oldest newest =
    uint256 s >>= λ s'. uint256 x >>= λ x'. init_counted n s' x' oldest newest

-- `len` of a text, and `int(text, 16)`.
pub record HexTexts : Type 0 where
  pub length_of : String → ℕ
  pub int16 : String → Option ℤ

unfoldable pub from_value : Option ℤ → DateTime → Result SourceLineage
unfolding init
from_value none timestamp = raise value_error
from_value (some value) timestamp =
    utc timestamp >>= λ at. init (pos 1) value value (some (aware at)) (some (aware at))

unfoldable pub from_digest : HexTexts → DateTime → String → Result SourceLineage
unfolding from_value
from_digest hex timestamp digest =
    if not (hex.length_of digest == 64)
    then raise value_error
    else from_value (hex.int16 digest) timestamp

unfoldable pub listed : Option ℕ → List ℕ
listed none = []
listed (some t) = t ∷ []

-- The state of the loop of `combine`.
pub record Total : Type 0 where
  pub count : ℕ
  pub digest_sum : ℕ
  pub digest_xor : ℕ
  pub timestamps : List ℕ

unfoldable pub total_of : SourceLineage → Total
unfolding listed
total_of l = record {
  count = l.count;
  digest_sum = l.digest_sum;
  digest_xor = l.digest_xor;
  timestamps = listed l.oldest_timestamp ++ listed l.newest_timestamp;
}

unfoldable pub add_other : Total → SourceLineage → Total
unfolding listed
add_other t l = record {
  count = t.count + l.count;
  digest_sum = (t.digest_sum + l.digest_sum) % digest_modulus;
  digest_xor = bit_xor t.digest_xor l.digest_xor;
  timestamps = t.timestamps ++ (listed l.oldest_timestamp ++ listed l.newest_timestamp);
}

unfoldable pub add_others : Total → List SourceLineage → Total
unfolding add_other
add_others t [] = t
add_others t (l ∷ ls) = add_others (add_other t l) ls

unfoldable pub least_from : ℕ → List ℕ → ℕ
least_from m [] = m
least_from m (t ∷ ts) = least_from (min m t) ts

unfoldable pub greatest_from : ℕ → List ℕ → ℕ
greatest_from m [] = m
greatest_from m (t ∷ ts) = greatest_from (max m t) ts

-- `min` and `max` of the timestamps raise on none.
unfoldable pub closed : Total → List ℕ → Result SourceLineage
unfolding init least_from greatest_from
closed t [] = raise value_error
closed t (m ∷ ts) =
    init (pos t.count) (pos t.digest_sum) (pos t.digest_xor) (some (aware (least_from m ts)))
      (some (aware (greatest_from m ts)))

unfoldable pub close_total : Total → Result SourceLineage
unfolding closed
close_total t = if t.count == 0 then ok empty else closed t t.timestamps

unfoldable pub combine : SourceLineage → List SourceLineage → Result SourceLineage
unfolding total_of add_others close_total
combine l others = close_total (add_others (total_of l) others)
