-- ===== src/Features/Rolling/Statuses.antt =====
-- features/rolling.py: which events `append` accepts.
use cvf.Prelude.{
  ℕ, ◌+◌, ◌-◌, ◌≤◌, ◌<◌, ◌≡◌, refl, true, false, ◌||◌, Option, none, some, inl, inr, Bool-cases,
  ltb, leb, leb→le, leb→lt, ltb→lt, ltb→le, arith,
}
use cvf.Outcome.{ok}
use cvf.Time.{aware}
use cvf.Features.Rolling.{
  LateEventPolicy, drop, insert, AppendStatus, accepted, late_dropped, expired_dropped,
  BoundedTimeWindow, is_drop, classify_at, append_as, append,
}
use cvf.Features.Rolling.Kept.{raised, IsValid}

-- How far an event may be behind the watermark.
unfoldable pub tolerance : LateEventPolicy → ℕ → ℕ
tolerance drop lateness = 0
tolerance insert lateness = lateness

-- The status of an event at `t` where the watermark after it, if it is accepted, is `mark`.
abbrev pub IsStatus : {T : Type 0} → BoundedTimeWindow T → ℕ → ℕ → AppendStatus → Type 0
IsStatus w t mark accepted =
    (mark ≤ t + tolerance w.late_event_policy w.maximum_lateness) × (mark < t + w.retention)
IsStatus w t mark late_dropped =
    (t + tolerance w.late_event_policy w.maximum_lateness < mark) × (mark < t + w.retention)
IsStatus w t mark expired_dropped = t + w.retention ≤ mark

late-IsStatus :
    (policy : LateEventPolicy) (lateness mark t : ℕ)
    → t < mark
    → (is_drop policy || ltb lateness (mark - t)) ≡ true
    → t + tolerance policy lateness < mark
unfolding is_drop tolerance
late-IsStatus drop lateness mark t h e = omega arith
late-IsStatus insert lateness mark t h e = ground arith

early-IsStatus :
    (policy : LateEventPolicy) (lateness mark t : ℕ)
    → (is_drop policy || ltb lateness (mark - t)) ≡ false
    → mark ≤ t + tolerance policy lateness
unfolding is_drop tolerance
early-IsStatus drop lateness mark t e = absurd (cc)
early-IsStatus insert lateness mark t e = ground arith

module _ {T : Type 0} where
  classify_at-IsStatus :
      (o : Option ℕ) (w : BoundedTimeWindow T) (t : ℕ)
      → 0 < w.retention
      → IsStatus w t (raised o t) (classify_at o w t)
  unfolding classify_at
  classify_at-IsStatus none w t h = (omega arith, omega arith)
  classify_at-IsStatus (some mark) w t h = elim (Bool-cases (ltb t mark)) [
    | inr e ↦ rw e (let p = ltb→le t mark e in (omega arith, omega arith))
    | inl e ↦ rw e (elim (Bool-cases (leb (t + w.retention) mark)) [
      | inl f ↦ rw f (let p = leb→le (t + w.retention) mark f in omega arith)
      | inr f ↦ rw f (
          let p = leb→lt (t + w.retention) mark f in
          let q = ltb→lt t mark e in
          elim (Bool-cases (is_drop w.late_event_policy || ltb w.maximum_lateness (mark - t))) [
            | inl g ↦ rw g (
                let k = late-IsStatus w.late_event_policy w.maximum_lateness mark t q g in
                (omega (arith, k), omega arith))
            | inr g ↦ rw g (
                let k = early-IsStatus w.late_event_policy w.maximum_lateness mark t g in
                (omega (arith, k), omega arith))
          ])
    ])
  ]

  -- On a valid window `append` of an event with an aware timestamp returns: `expired_dropped` exactly for
  -- an event that lies a retention or more behind the watermark; of the others, `late_dropped` for one
  -- that is behind the watermark by more than the tolerance, which is the maximum lateness under the policy
  -- `insert` and nothing under `drop`, and else `accepted`.
  pub append-IsStatus :
      (w : BoundedTimeWindow T) (t : ℕ) (v : T)
      → IsValid w
      → (w' : BoundedTimeWindow T) × (s : AppendStatus) × (append w (aware t) v ≡ ok (w', s))
        × IsStatus w t (raised w.watermark t) s
  unfolding append
  append-IsStatus w t v valid =
      let s = classify_at w.watermark w t in
      (append_as s w t v, s, refl, classify_at-IsStatus w.watermark w t valid.retention_positive)
