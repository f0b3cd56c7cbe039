-- ===== src/Features/Rolling/Queries.antt =====
-- The queries of `BoundedTimeWindow` (features/rolling.py): loops over the reversed items.
use mathlib.Core.List.{reverse}
use cvf.Prelude.{
  ℕ, true, false, Option, none, some, List, [], ◌∷◌, ℤ, pos, negsuc, ltb, leb, map, if◌then◌else◌,
}
use cvf.Outcome.{Result, ok, raise, value_error, ◌>>=◌}
use cvf.Time.{DateTime, utc}
use cvf.Features.Rolling.{TimedValue, BoundedTimeWindow, is_drop}

module _ {T : Type 0} where
  -- The loop of `items_between` over the reversed items, with its `continue` and its `break`.
  unfoldable pub scan_between : ℕ → ℕ → List (TimedValue T) → List (TimedValue T)
  scan_between start end [] = []
  scan_between start end (x ∷ xs) = elim (ltb end x.timestamp) [
    | true ↦ scan_between start end xs
    | false ↦ elim (leb x.timestamp start) [ true ↦ [] | false ↦ x ∷ scan_between start end xs ]
  ]

  unfoldable pub items_between :
      BoundedTimeWindow T → DateTime → DateTime → Result (List (TimedValue T))
  unfolding scan_between
  items_between w start_exclusive end_inclusive = do
    start ← utc start_exclusive
    end ← utc end_inclusive
    if ltb end start
        then raise value_error
        else ok (reverse (scan_between start end (reverse w.items)))

  unfoldable pub values_between : BoundedTimeWindow T → DateTime → DateTime → Result (List T)
  unfolding items_between
  values_between w start end = do found ← items_between w start end; ok (map (λ x. x.value) found)

  unfoldable pub scan_latest : ℕ → List (TimedValue T) → Option (TimedValue T)
  scan_latest end [] = none
  scan_latest end (x ∷ xs) = if leb x.timestamp end then some x else scan_latest end xs

  unfoldable pub latest_at_or_before :
      BoundedTimeWindow T → DateTime → Result (Option (TimedValue T))
  unfolding scan_latest
  latest_at_or_before w boundary = do end ← utc boundary; ok (scan_latest end (reverse w.items))

  -- The loop of `items_appended_after` for the policy DROP, over the reversed items.
  unfoldable pub scan_appended : ℕ → List (TimedValue T) → List (TimedValue T)
  scan_appended n [] = []
  scan_appended n (x ∷ xs) = if leb x.ordinal n then [] else x ∷ scan_appended n xs

  unfoldable pub newer : ℕ → List (TimedValue T) → List (TimedValue T)
  newer n [] = []
  newer n (x ∷ xs) = if ltb n x.ordinal then x ∷ newer n xs else newer n xs

  -- `sorted` by the ordinal, which is stable.
  unfoldable pub insert_by_ordinal : TimedValue T → List (TimedValue T) → List (TimedValue T)
  insert_by_ordinal x [] = x ∷ []
  insert_by_ordinal x (y ∷ ys) =
      if leb x.ordinal y.ordinal then x ∷ y ∷ ys else y ∷ insert_by_ordinal x ys

  unfoldable pub sort_by_ordinal : List (TimedValue T) → List (TimedValue T)
  unfolding insert_by_ordinal
  sort_by_ordinal [] = []
  sort_by_ordinal (x ∷ xs) = insert_by_ordinal x (sort_by_ordinal xs)

  unfoldable pub items_appended_after : BoundedTimeWindow T → ℤ → Result (List (TimedValue T))
  unfolding is_drop scan_appended newer sort_by_ordinal
  items_appended_after w (negsuc n) = raise value_error
  items_appended_after w (pos n) =
      if leb w.last_ordinal n
      then ok []
      else if is_drop w.late_event_policy
      then ok (reverse (scan_appended n (reverse w.items)))
      else ok (sort_by_ordinal (newer n w.items))
