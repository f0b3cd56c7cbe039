-- ===== src/Features/Lineage/Merging.antt =====
-- features/lineage.py: `combine` as the merge of two commitments, repeated.
use Prim.Native.Nat.{bit_xor}
use mathlib.Core.Path.{subst}
use native.Mathlib.Nat.{mod-lt, add-mod-mod, mod-add-mod, mod-eq_of_lt}
use cvf.Prelude.{
  ℕ, ◌+◌, ◌%◌, ◌≤◌, ◌<◌, min, max, ◌≡◌, refl, sym, ap, ◌∙◌, Option, none, some, List, [], ◌∷◌,
  arith,
}
use cvf.Features.Lineage.{digest_modulus, SourceLineage, empty}
use cvf.Features.Lineage.Xor.{bit_xor_comm, bit_xor_assoc, bit_xor-zero, zero-bit_xor, bit_xor-lt}

-- What `__post_init__` lets through.
pub data IsLineage : SourceLineage → Type 0 where
  nothing : IsLineage empty
  sources :
      (c s x o n : ℕ)
      → 0 < c
      → s < digest_modulus
      → x < digest_modulus
      → o ≤ n
      → IsLineage (record {
        count = c;
        digest_sum = s;
        digest_xor = x;
        oldest_timestamp = some o;
        newest_timestamp = some n;
      })

abbrev pub earlier : Option ℕ → Option ℕ → Option ℕ
earlier none b = b
earlier (some a) none = some a
earlier (some a) (some b) = some (min a b)

abbrev pub latest : Option ℕ → Option ℕ → Option ℕ
latest none b = b
latest (some a) none = some a
latest (some a) (some b) = some (max a b)

-- The commitment to the sources of two.
unfoldable pub merge : SourceLineage → SourceLineage → SourceLineage
merge a b = record {
  count = a.count + b.count;
  digest_sum = (a.digest_sum + b.digest_sum) % digest_modulus;
  digest_xor = bit_xor a.digest_xor b.digest_xor;
  oldest_timestamp = earlier a.oldest_timestamp b.oldest_timestamp;
  newest_timestamp = latest a.newest_timestamp b.newest_timestamp;
}

unfoldable pub merge_all : SourceLineage → List SourceLineage → SourceLineage
merge_all l [] = l
merge_all l (m ∷ ms) = merge_all (merge l m) ms

modulus_positive : 0 < digest_modulus
modulus_positive = omega arith

pub empty-merge : (l : SourceLineage) → IsLineage l → merge empty l ≡ l
unfolding merge
empty-merge _ nothing = refl
empty-merge _ (sources c s x o n z p q r) =
    let count : 0 + c ≡ c = omega arith in
    let sum : 0 + s ≡ s = omega arith in rw (count, sum, mod-eq_of_lt p, zero-bit_xor x) refl

pub merge-empty : (l : SourceLineage) → IsLineage l → merge l empty ≡ l
unfolding merge
merge-empty _ nothing = refl
merge-empty _ (sources c s x o n z p q r) =
    let count : c + 0 ≡ c = omega arith in
    let sum : s + 0 ≡ s = omega arith in rw (count, sum, mod-eq_of_lt p, bit_xor-zero x) refl

pub merge-IsLineage : (a b : SourceLineage) → IsLineage a → IsLineage b → IsLineage (merge a b)
unfolding merge
merge-IsLineage _ _ nothing nothing = nothing
merge-IsLineage _ _ nothing (sources c s x o n z p q r) =
    subst IsLineage (sym (empty-merge _ (sources c s x o n z p q r))) (sources c s x o n z p q r)
merge-IsLineage _ _ (sources c s x o n z p q r) nothing =
    subst IsLineage (sym (merge-empty _ (sources c s x o n z p q r))) (sources c s x o n z p q r)
merge-IsLineage _ _ (sources c s x o n z p q r) (sources c' s' x' o' n' z' p' q' r') =
    sources (c + c') ((s + s') % digest_modulus) (bit_xor x x') (min o o') (max n n') (omega arith)
      (mod-lt (s + s') modulus_positive) (bit_xor-lt 256 x x' q q') (omega arith)

earlier_comm : (a b : Option ℕ) → earlier a b ≡ earlier b a
earlier_comm none none = refl
earlier_comm none (some b) = refl
earlier_comm (some a) none = refl
earlier_comm (some a) (some b) = let e : min a b ≡ min b a = omega arith in ap some e

latest_comm : (a b : Option ℕ) → latest a b ≡ latest b a
latest_comm none none = refl
latest_comm none (some b) = refl
latest_comm (some a) none = refl
latest_comm (some a) (some b) = let e : max a b ≡ max b a = omega arith in ap some e

earlier_assoc : (a b c : Option ℕ) → earlier (earlier a b) c ≡ earlier a (earlier b c)
earlier_assoc none b c = refl
earlier_assoc (some a) none c = refl
earlier_assoc (some a) (some b) none = refl
earlier_assoc (some a) (some b) (some c) =
    let e : min (min a b) c ≡ min a (min b c) = omega arith in ap some e

latest_assoc : (a b c : Option ℕ) → latest (latest a b) c ≡ latest a (latest b c)
latest_assoc none b c = refl
latest_assoc (some a) none c = refl
latest_assoc (some a) (some b) none = refl
latest_assoc (some a) (some b) (some c) =
    let e : max (max a b) c ≡ max a (max b c) = omega arith in ap some e

pub merge_comm : (a b : SourceLineage) → merge a b ≡ merge b a
unfolding merge
merge_comm a b =
    let count : a.count + b.count ≡ b.count + a.count = omega arith in
    let sum : a.digest_sum + b.digest_sum ≡ b.digest_sum + a.digest_sum = omega arith in
    rw
      (
        count,
        sum,
        bit_xor_comm a.digest_xor b.digest_xor,
        earlier_comm a.oldest_timestamp b.oldest_timestamp,
        latest_comm a.newest_timestamp b.newest_timestamp,
      )
      refl

sum_assoc :
    (a b c : ℕ)
    → ((a + b) % digest_modulus + c) % digest_modulus
      ≡ (a + (b + c) % digest_modulus) % digest_modulus
sum_assoc a b c =
    let e : (a + b) + c ≡ a + (b + c) = omega arith in
    mod-add-mod (a + b) digest_modulus c
    ∙ ap (λ n. n % digest_modulus) e
    ∙ sym (add-mod-mod a (b + c) digest_modulus)

pub merge_assoc : (a b c : SourceLineage) → merge (merge a b) c ≡ merge a (merge b c)
unfolding merge
merge_assoc a b c =
    let count : (a.count + b.count) + c.count ≡ a.count + (b.count + c.count) = omega arith in
    rw
      (
        count,
        sum_assoc a.digest_sum b.digest_sum c.digest_sum,
        bit_xor_assoc a.digest_xor b.digest_xor c.digest_xor,
        earlier_assoc a.oldest_timestamp b.oldest_timestamp c.oldest_timestamp,
        latest_assoc a.newest_timestamp b.newest_timestamp c.newest_timestamp,
      )
      refl
