-- ===== src/Features/Lineage/Runs.antt =====
-- Tests of the lineages, and their theorems at concrete inputs.

use mathlib.Core.List.{Permᴰ}
use cvf.Prelude.{ℕ, ◌<◌, ◌^◌, ◌≡◌, refl, some, [], ◌∷◌, pos, arith}
use cvf.Outcome.{ok, raise, value_error}
use cvf.Time.{aware, naive}
use cvf.Features.Lineage.{
  SourceLineage, uint256, is_set, bounds_of, init_counted, init, HexTexts, from_value, from_digest,
  listed, total_of, add_other, add_others, least_from, greatest_from, closed, close_total, combine,
}
use cvf.Features.Lineage.Merging.{IsLineage, IsLineage.sources, merge_all}
use cvf.Features.Lineage.Combining.{combine-merge_all, combine-perm}

lineage_opened : Unit {0}
unfolding uint256 is_set bounds_of init_counted init from_value from_digest listed total_of
    add_other add_others least_from greatest_from closed close_total combine
lineage_opened = tt

abbrev one_source : ℕ → ℕ → SourceLineage
one_source t d = record {
  count = 1;
  digest_sum = d;
  digest_xor = d;
  oldest_timestamp = some t;
  newest_timestamp = some t;
}

-- Every text has 64 characters and is the number five.
abbrev fives : HexTexts
fives = record { length_of = λ s. 64; int16 = λ s. some (pos 5) }

digest_five : from_digest fives (aware 7) "05" ≡ ok (one_source 7 5)
unfolding lineage_opened
digest_five = refl

naive_refused : from_digest fives (naive 7) "05" ≡ raise value_error
unfolding lineage_opened
naive_refused = refl

two_combined :
    combine (one_source 7 5) (one_source 3 6 ∷ [])
    ≡ ok (record {
      count = 2;
      digest_sum = 11;
      digest_xor = 3;
      oldest_timestamp = some 3;
      newest_timestamp = some 7;
    })
unfolding lineage_opened
two_combined = refl

one_source-IsLineage : (t d : ℕ) → d < 2 ^ 256 → IsLineage (one_source t d)
one_source-IsLineage t d lt = sources 1 d d t t (omega arith) lt lt (omega arith)

combine-merge_all_example :
    (combine (one_source 7 5) (one_source 3 6 ∷ [])
      ≡ ok (merge_all (one_source 7 5) (one_source 3 6 ∷ [])))
    × IsLineage (merge_all (one_source 7 5) (one_source 3 6 ∷ []))
combine-merge_all_example =
    combine-merge_all (one_source 7 5) (one_source 3 6 ∷ [])
      (one_source-IsLineage 7 5 (omega arith)) (one_source-IsLineage 3 6 (omega arith), tt)

combine-perm_example :
    combine (one_source 7 5) (one_source 3 6 ∷ one_source 9 1 ∷ [])
    ≡ combine (one_source 7 5) (one_source 9 1 ∷ one_source 3 6 ∷ [])
combine-perm_example =
    combine-perm (one_source 7 5) (one_source 3 6 ∷ one_source 9 1 ∷ [])
      (one_source 9 1 ∷ one_source 3 6 ∷ []) (one_source-IsLineage 7 5 (omega arith))
      (one_source-IsLineage 3 6 (omega arith), (one_source-IsLineage 9 1 (omega arith), tt))
      (one_source-IsLineage 9 1 (omega arith), (one_source-IsLineage 3 6 (omega arith), tt))
      (Permᴰ.swap refl refl)
