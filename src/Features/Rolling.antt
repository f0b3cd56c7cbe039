-- ===== src/Features/Rolling.antt =====
-- features/rolling.py: `BoundedTimeWindow`. Timestamps are microseconds; where the source subtracts
-- the retention from the watermark, the model adds it to the other side of the comparison.
pub mod Queries
pub mod Items
pub mod Kept
pub mod Statuses
pub mod Answers
mod Runs
use mathlib.Core.List.{reverse, head?, get_last?}
use cvf.Prelude.{
  ℕ, zero, suc, ◌+◌, ◌-◌, ◌≡◌, Bool, true, false, ◌&&◌, ◌||◌, Option, none, some, List, [], ◌∷◌,
  ◌++◌, ℤ, pos, negsuc, ltb, leb, ◌==◌, length, map, if◌then◌else◌,
}
use cvf.Outcome.{Result, ok, raise, value_error, ◌>>=◌}
use cvf.Time.{DateTime, utc, positive, non_negative}

pub data LateEventPolicy : Type 0 where
  drop insert : LateEventPolicy

pub data AppendStatus : Type 0 where
  accepted late_dropped expired_dropped : AppendStatus

pub record TimedValue (T : Type 0) : Type 0 where
  pub timestamp : ℕ
  pub value : T
  pub ordinal : ℕ

-- `_accepted`, `_late_dropped` and `_expired_dropped` are the counts of the three statuses.
pub record BoundedTimeWindow (T : Type 0) : Type 0 where
  pub retention : ℕ
  pub maximum_items : ℕ
  pub late_event_policy : LateEventPolicy
  pub maximum_lateness : ℕ
  pub items : List (TimedValue T)
  pub watermark : Option ℕ
  pub last_ordinal : ℕ
  pub accepted_count : ℕ
  pub late_count : ℕ
  pub expired_count : ℕ
  pub capacity_evictions : ℕ

pub record WindowStats : Type 0 where
  pub size : ℕ
  pub accepted_count : ℕ
  pub late_count : ℕ
  pub expired_count : ℕ
  pub capacity_evictions : ℕ
  pub watermark : Option ℕ

unfoldable pub init : {T : Type 0} → ℤ → ℤ → LateEventPolicy → ℤ → Result (BoundedTimeWindow T)
init retention maximum_items policy maximum_lateness = do
  r ← positive retention
  m ← positive maximum_items
  l ← non_negative maximum_lateness
  ok (record {
    retention = r;
    maximum_items = m;
    late_event_policy = policy;
    maximum_lateness = l;
    items = [];
    watermark = none;
    last_ordinal = 0;
    accepted_count = 0;
    late_count = 0;
    expired_count = 0;
    capacity_evictions = 0;
  })

unfoldable pub is_drop : LateEventPolicy → Bool
is_drop LateEventPolicy.drop = true
is_drop LateEventPolicy.insert = false

-- The order of the keys `(timestamp, ordinal)`, and `bisect_right` over sorted keys.
unfoldable pub key_le : ℕ × ℕ → ℕ × ℕ → Bool
key_le (s, i) (t, j) = ltb s t || (s == t && leb i j)

unfoldable pub bisect_right : List (ℕ × ℕ) → ℕ × ℕ → ℕ
bisect_right [] key = 0
bisect_right (k ∷ ks) key = if key_le k key then suc (bisect_right ks key) else 0

module _ {T : Type 0} where
  abbrev pub earliest : BoundedTimeWindow T → Option (TimedValue T)
  earliest w = head? w.items

  abbrev pub latest : BoundedTimeWindow T → Option (TimedValue T)
  latest w = get_last? w.items

  unfoldable pub stats : BoundedTimeWindow T → WindowStats
  stats w = record {
    size = length w.items;
    accepted_count = w.accepted_count;
    late_count = w.late_count;
    expired_count = w.expired_count;
    capacity_evictions = w.capacity_evictions;
    watermark = w.watermark;
  }

  -- The first `while` of `_prune`.
  unfoldable pub drop_expired : ℕ → ℕ → List (TimedValue T) → List (TimedValue T)
  drop_expired retention mark [] = []
  drop_expired retention mark (x ∷ xs) = elim (leb (x.timestamp + retention) mark) [
    | true ↦ drop_expired retention mark xs
    | false ↦ x ∷ xs
  ]

  -- The second: what stays, and the count of evictions.
  unfoldable pub evict : ℕ → List (TimedValue T) → ℕ → List (TimedValue T) × ℕ
  evict maximum [] evictions = ([], evictions)
  evict maximum (x ∷ xs) evictions = elim (ltb maximum (suc (length xs))) [
    | true ↦ evict maximum xs (evictions + 1)
    | false ↦ (x ∷ xs, evictions)
  ]

  unfoldable pub prune_at : Option ℕ → BoundedTimeWindow T → BoundedTimeWindow T
  unfolding drop_expired evict
  prune_at none w = w
  prune_at (some mark) w =
      let (kept, evictions) =
        evict w.maximum_items (drop_expired w.retention mark w.items) w.capacity_evictions in
      record w { items = kept; capacity_evictions = evictions }

  unfoldable pub prune : BoundedTimeWindow T → BoundedTimeWindow T
  prune w = prune_at w.watermark w

  unfoldable pub classify_at : Option ℕ → BoundedTimeWindow T → ℕ → AppendStatus
  unfolding is_drop
  classify_at none w event_at = accepted
  classify_at (some mark) w event_at =
      if ltb event_at mark
      then (if leb (event_at + w.retention) mark
          then expired_dropped
          else if is_drop w.late_event_policy || ltb w.maximum_lateness (mark - event_at)
          then late_dropped
          else accepted)
      else accepted

  unfoldable pub admissibility : BoundedTimeWindow T → DateTime → Result AppendStatus
  unfolding classify_at
  admissibility w timestamp = do event_at ← utc timestamp; ok (classify_at w.watermark w event_at)

  -- `list.insert`: a position past the end appends.
  unfoldable pub insert_at : List (TimedValue T) → ℕ → TimedValue T → List (TimedValue T)
  insert_at (x ∷ xs) (suc i) item = x ∷ insert_at xs i item
  insert_at xs _ item = item ∷ xs

  abbrev pub key : TimedValue T → ℕ × ℕ
  key x = (x.timestamp, x.ordinal)

  -- The accepting end of `append`, `w` with its ordinal already moved.
  unfoldable pub place_at : Option ℕ → BoundedTimeWindow T → TimedValue T → BoundedTimeWindow T
  unfolding insert_at bisect_right key_le
  place_at none w item = record w { items = w.items ++ item ∷ []; watermark = some item.timestamp }
  place_at (some mark) w item =
      if leb mark item.timestamp
      then record w { items = w.items ++ item ∷ []; watermark = some item.timestamp }
      else record w { items = insert_at w.items (bisect_right (map key w.items) (key item)) item }

  unfoldable pub accept : BoundedTimeWindow T → ℕ → T → BoundedTimeWindow T
  accept w event_at value =
      let ordinal = w.last_ordinal + 1 in
      let item : TimedValue T = record { timestamp = event_at; value = value; ordinal = ordinal } in
      let placed = place_at w.watermark (record w { last_ordinal = ordinal }) item in
      prune (record placed { accepted_count = placed.accepted_count + 1 })

  unfoldable pub append_as : AppendStatus → BoundedTimeWindow T → ℕ → T → BoundedTimeWindow T
  append_as expired_dropped w event_at value = record w { expired_count = w.expired_count + 1 }
  append_as late_dropped w event_at value = record w { late_count = w.late_count + 1 }
  append_as accepted w event_at value = accept w event_at value

  unfoldable pub append :
      BoundedTimeWindow T → DateTime → T → Result (BoundedTimeWindow T × AppendStatus)
  unfolding classify_at append_as
  append w timestamp value = do
    event_at ← utc timestamp
    let status = classify_at w.watermark w event_at
    ok (append_as status w event_at value, status)

  unfoldable pub clear : BoundedTimeWindow T → BoundedTimeWindow T
  clear w = record w { items = []; watermark = none }
