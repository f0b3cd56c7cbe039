-- ===== src/Features/Rolling/Kept.antt =====
-- The invariant of a window, and what `append` makes of it.
use cvf.Prelude.{
  ℕ, ◌+◌, ◌-◌, ◌≤◌, ◌<◌, ◌≡◌, refl, ap, max, Option, none, some, List, [], ◌∷◌, leb, length,
  length-drop, newest, All, All-map, All-drop, inl, inr, Bool-cases, leb→le, leb→lt, arith,
}
use cvf.Outcome.{ok}
use cvf.Time.{aware}
use cvf.Features.Rolling.{
  AppendStatus, accepted, late_dropped, expired_dropped, TimedValue, BoundedTimeWindow, classify_at,
  prune_at, prune, place_at, accept, append_as, append, admissibility,
}
use cvf.Features.Rolling.Items.{
  IsOrdered, retain, place, drop_expired-retain, insert_at-place, append-place, evict-newest,
  All-retain, IsOrdered-retain, IsOrdered-drop, All-place, IsOrdered-place, retain_recent,
}

-- An item lies in the window `(mark - retention, mark]` and was appended before.
pub record IsInside {T : Type 0} (retention mark last : ℕ) (x : TimedValue T) : Type 0 where
  pub reached : x.timestamp ≤ mark
  pub recent : mark < x.timestamp + retention
  pub numbered : x.ordinal ≤ last

abbrev pub Inside : {T : Type 0} → Option ℕ → ℕ → ℕ → List (TimedValue T) → Type 0
Inside none retention last items = items ≡ []
Inside (some mark) retention last items = All (IsInside retention mark last) items

pub record IsValid {T : Type 0} (w : BoundedTimeWindow T) : Type 0 where
  pub retention_positive : 0 < w.retention
  pub maximum_positive : 0 < w.maximum_items
  pub bounded : length w.items ≤ w.maximum_items
  pub ordered : IsOrdered w.items
  pub inside : Inside w.watermark w.retention w.last_ordinal w.items
  pub counted : w.accepted_count ≡ w.last_ordinal

-- The watermark after an event at `t` is accepted.
abbrev pub raised : Option ℕ → ℕ → ℕ
raised none t = t
raised (some mark) t = max mark t

at_raised : (o : Option ℕ) (t : ℕ) → t ≤ raised o t
at_raised none t = omega arith
at_raised (some m) t = omega arith

module _ {T : Type 0} where
  abbrev pub item_of : BoundedTimeWindow T → ℕ → T → TimedValue T
  item_of w t v = record { timestamp = t; value = v; ordinal = w.last_ordinal + 1 }

  -- The items of `w` with the new one in its place, and of these the ones inside the window.
  abbrev pub inside_after : BoundedTimeWindow T → ℕ → T → List (TimedValue T)
  inside_after w t v = retain w.retention (raised w.watermark t) (place (item_of w t v) w.items)

  unfoldable pub after : BoundedTimeWindow T → ℕ → T → BoundedTimeWindow T
  after w t v = record w {
    items = newest w.maximum_items (inside_after w t v);
    watermark = some (raised w.watermark t);
    last_ordinal = w.last_ordinal + 1;
    accepted_count = w.accepted_count + 1;
    capacity_evictions = w.capacity_evictions + (length (inside_after w t v) - w.maximum_items);
  }

  not_later :
      (m r t n : ℕ) (l : List (TimedValue T))
      → m ≤ t
      → All (IsInside r m n) l
      → All (λ x. x.timestamp ≤ t) l
  not_later m r t n l h =
      All-map (IsInside r m n) (λ x. x.timestamp ≤ t) (λ x i. omega (arith, i.reached)) l

  older :
      (m r n : ℕ) (l : List (TimedValue T))
      → All (IsInside r m n) l
      → All (λ x. x.ordinal < n + 1) l
  older m r n l =
      All-map (IsInside r m n) (λ x. x.ordinal < n + 1) (λ x i. omega (arith, i.numbered)) l

  Inside-older :
      (o : Option ℕ) (r n : ℕ) (l : List (TimedValue T))
      → Inside o r n l
      → All (λ x. x.ordinal < n + 1) l
  Inside-older none r n l h = rw h tt
  Inside-older (some m) r n l h = older m r n l h

  pruned :
      (w : BoundedTimeWindow T) (mark : ℕ)
      → w.watermark ≡ some mark
      → IsOrdered w.items
      → prune w ≡ record w {
        items = newest w.maximum_items (retain w.retention mark w.items);
        capacity_evictions =
            w.capacity_evictions + (length (retain w.retention mark w.items) - w.maximum_items);
      }
  unfolding prune prune_at
  pruned w mark e o =
      rw (e, prune_at) (rw (drop_expired-retain w.retention mark w.items o) (rw evict-newest refl))

  placed_as : BoundedTimeWindow T → TimedValue T → BoundedTimeWindow T
  placed_as w item = record w {
    items = place item w.items;
    watermark = some (raised w.watermark item.timestamp);
  }

  as_placed :
      (w : BoundedTimeWindow T) (item : TimedValue T) (l : List (TimedValue T)) (o : Option ℕ)
      → l ≡ place item w.items
      → o ≡ some (raised w.watermark item.timestamp)
      → record w { items = l; watermark = o } ≡ placed_as w item
  unfolding placed_as
  as_placed w item l o p q = λ i. record w { items = p i; watermark = q i }

  place_at-placed_as :
      (o : Option ℕ) (w : BoundedTimeWindow T) (item : TimedValue T) (last : ℕ)
      → w.watermark ≡ o
      → item.ordinal ≡ last + 1
      → Inside o w.retention last w.items
      → place_at o w item ≡ placed_as w item
  unfolding place_at placed_as
  place_at-placed_as none w item last e n h = rw (e, h) (ground (arith, append-place item []))
  place_at-placed_as (some mark) w item last e n h = elim (Bool-cases (leb mark item.timestamp)) [
    | inl late ↦
        let le = leb→le mark item.timestamp late in
        rw late (
          as_placed w item _ _
            (append-place item w.items
              (not_later mark w.retention item.timestamp last w.items le h))
            (rw e (ap some (omega arith))))
    | inr early ↦
        let lt = leb→lt mark item.timestamp early in
        rw early (
          as_placed w item _ w.watermark
            (insert_at-place item w.items (rw n (older mark w.retention last w.items h)))
            (rw e (ap some (omega arith))))
  ]

  accept-after : (w : BoundedTimeWindow T) (t : ℕ) (v : T) → IsValid w → accept w t v ≡ after w t v
  unfolding accept after placed_as
  accept-after w t v valid =
      let w' : BoundedTimeWindow T = record w { last_ordinal = w.last_ordinal + 1 } in
      rw (place_at-placed_as w.watermark w' (item_of w t v) w.last_ordinal refl refl valid.inside) (
        pruned _ (raised w.watermark t) refl (
          IsOrdered-place (item_of w t v) w.items
            (Inside-older w.watermark w.retention w.last_ordinal w.items valid.inside)
            valid.ordered))

  raised_reaches :
      (o : Option ℕ) (r n t : ℕ) (l : List (TimedValue T))
      → Inside o r n l
      → All (λ x. x.timestamp ≤ raised o t) l
  raised_reaches none r n t l h = rw h tt
  raised_reaches (some m) r n t l h =
      All-map (IsInside r m n) (λ x. x.timestamp ≤ max m t) (λ x i. omega (arith, i.reached)) l h

  IsInside-of_parts :
      (r mark n : ℕ) (l : List (TimedValue T))
      → All (λ x. x.timestamp ≤ mark) l
      → All (λ x. mark < x.timestamp + r) l
      → All (λ x. x.ordinal ≤ n) l
      → All (IsInside r mark n) l
  IsInside-of_parts r mark n [] a b c = tt
  IsInside-of_parts r mark n (x ∷ l) a b c = (
    record { reached = a.0; recent = b.0; numbered = c.0 },
    IsInside-of_parts r mark n l a.1 b.1 c.1,
  )

  pub after-IsValid : (w : BoundedTimeWindow T) (t : ℕ) (v : T) → IsValid w → IsValid (after w t v)
  unfolding after
  after-IsValid w t v valid =
      let item = item_of w t v in
      let mark = raised w.watermark t in
      let placed = place item w.items in
      let kept = inside_after w t v in
      let olds = Inside-older w.watermark w.retention w.last_ordinal w.items valid.inside in
      record {
        retention_positive = valid.retention_positive;
        maximum_positive = valid.maximum_positive;
        bounded = omega (arith, length-drop (length kept - w.maximum_items) kept);
        ordered = IsOrdered-drop _ kept (
            IsOrdered-retain w.retention mark placed
              (IsOrdered-place item w.items olds valid.ordered));
        inside = All-drop (IsInside w.retention mark (w.last_ordinal + 1)) _ kept (
            IsInside-of_parts w.retention mark (w.last_ordinal + 1) kept
              (All-retain (λ x. x.timestamp ≤ mark) w.retention mark placed
                (All-place (λ x. x.timestamp ≤ mark) item w.items (at_raised w.watermark t)
                  (raised_reaches w.watermark w.retention w.last_ordinal t w.items valid.inside)))
              (retain_recent w.retention mark placed)
              (All-retain (λ x. x.ordinal ≤ w.last_ordinal + 1) w.retention mark placed
                (All-place (λ x. x.ordinal ≤ w.last_ordinal + 1) item w.items (omega arith)
                  (All-map (λ x. x.ordinal < w.last_ordinal + 1)
                    (λ x. x.ordinal ≤ w.last_ordinal + 1) (λ x h. omega arith) w.items olds))));
        counted = omega (arith, valid.counted);
      }

  -- What each status of an event makes of the window.
  unfoldable pub outcome : AppendStatus → BoundedTimeWindow T → ℕ → T → BoundedTimeWindow T
  outcome accepted w t v = after w t v
  outcome late_dropped w t v = record w { late_count = w.late_count + 1 }
  outcome expired_dropped w t v = record w { expired_count = w.expired_count + 1 }

  outcome-append_as :
      (s : AppendStatus) (w : BoundedTimeWindow T) (t : ℕ) (v : T)
      → IsValid w
      → append_as s w t v ≡ outcome s w t v
  unfolding append_as outcome
  outcome-append_as accepted w t v valid = accept-after w t v valid
  outcome-append_as late_dropped w t v valid = refl
  outcome-append_as expired_dropped w t v valid = refl

  outcome-IsValid :
      (s : AppendStatus) (w : BoundedTimeWindow T) (t : ℕ) (v : T)
      → IsValid w
      → IsValid (outcome s w t v)
  unfolding outcome
  outcome-IsValid accepted w t v valid = after-IsValid w t v valid
  outcome-IsValid late_dropped w t v valid = record {
    retention_positive = valid.retention_positive;
    maximum_positive = valid.maximum_positive;
    bounded = valid.bounded;
    ordered = valid.ordered;
    inside = valid.inside;
    counted = valid.counted;
  }
  outcome-IsValid expired_dropped w t v valid = record {
    retention_positive = valid.retention_positive;
    maximum_positive = valid.maximum_positive;
    bounded = valid.bounded;
    ordered = valid.ordered;
    inside = valid.inside;
    counted = valid.counted;
  }

  -- On a valid window `append` of an event with an aware timestamp returns the status that
  -- `admissibility` gives and keeps the window valid. An accepted event raises the watermark to its
  -- time if that is later; the items are then the newest `maximum_items` of those after the
  -- watermark less the retention, the new one placed after all that are not later, and each item cut
  -- off by the limit is counted. A dropped event changes only the count of its status.
  pub append-outcome :
      (w : BoundedTimeWindow T) (t : ℕ) (v : T)
      → IsValid w
      → (s : AppendStatus) × (admissibility w (aware t) ≡ ok s)
        × (append w (aware t) v ≡ ok (outcome s w t v, s))
        × IsValid (outcome s w t v)
  unfolding append admissibility
  append-outcome w t v valid =
      let s = classify_at w.watermark w t in
      (
        s,
        refl,
        ap (λ w'. ok (w', s)) (outcome-append_as s w t v valid),
        outcome-IsValid s w t v valid,
      )
