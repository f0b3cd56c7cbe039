-- ===== src/Clock/Scheduler.antt =====
-- clock/scheduler.py: the fixed UTC boundaries at which features and signals are due.
pub mod Multiples
pub mod Boundaries
pub mod Splits
pub mod Due
mod Runs
use cvf.Prelude.{
  ℕ, zero, suc, ◌+◌, ◌-◌, ◌*◌, ◌/◌, min, Bool, true, false, List, [], ◌∷◌, ◌++◌, ℤ, leb, ltb, ◌==◌,
  if◌then◌else◌,
}
use cvf.Outcome.{Result, ok, raise, value_error, ◌>>=◌}
use cvf.Time.{DateTime, utc, positive}

pub data TickKind : Type 0 where
  feature signal : TickKind

pub record DecisionTick : Type 0 where
  pub timestamp : ℕ
  pub kind : TickKind

pub record DecisionScheduler : Type 0 where
  pub cursor : ℕ
  pub feature_interval : ℕ
  pub signal_interval : ℕ
  pub next_feature : ℕ
  pub next_signal : ℕ

-- The first multiple of `interval` after `after`.
unfoldable pub next_boundary : ℕ → ℕ → Result ℕ
next_boundary after interval =
    if ltb interval 1 then raise value_error else ok ((after / interval + 1) * interval)

unfoldable pub init : DateTime → ℤ → ℤ → Result DecisionScheduler
unfolding next_boundary
init start feature_interval signal_interval = do
  cursor ← utc start
  fi ← positive feature_interval
  si ← positive signal_interval
  next_feature ← next_boundary cursor fi
  next_signal ← next_boundary cursor si
  ok (record {
    cursor = cursor;
    feature_interval = fi;
    signal_interval = si;
    next_feature = next_feature;
    next_signal = next_signal;
  })

unfoldable pub has_due_tick : DecisionScheduler → DateTime → Result Bool
has_due_tick s target = do
  end ← utc target
  if ltb end s.cursor then raise value_error else ok (leb (min s.next_feature s.next_signal) end)

-- The body of the `while` of `advance_to`: the ticks appended, then the next boundaries.
unfoldable pub due_ticks : DecisionScheduler → List DecisionTick
due_ticks s =
    let boundary = min s.next_feature s.next_signal in
    (if s.next_feature == boundary
      then record { timestamp = boundary; kind = feature } ∷ []
      else [])
    ++ (if s.next_signal == boundary
        then record { timestamp = boundary; kind = signal } ∷ []
        else [])

unfoldable pub pass_boundary : DecisionScheduler → DecisionScheduler
pass_boundary s =
    let boundary = min s.next_feature s.next_signal in
    record s {
      next_feature =
          if s.next_feature == boundary
          then s.next_feature + s.feature_interval
          else s.next_feature;
      next_signal =
          if s.next_signal == boundary then s.next_signal + s.signal_interval else s.next_signal;
    }

-- The `while`, on fuel. It returns the ticks and the scheduler with its boundaries moved.
unfoldable pub advance_loop : ℕ → DecisionScheduler → ℕ → List DecisionTick × DecisionScheduler
unfolding due_ticks pass_boundary
advance_loop zero s end = ([], s)
advance_loop (suc fuel) s end = elim (leb (min s.next_feature s.next_signal) end) [
  | true ↦ let (ticks, s') = advance_loop fuel (pass_boundary s) end in (due_ticks s ++ ticks, s')
  | false ↦ ([], s)
]

-- Every round moves a boundary that is not past `end` by at least a microsecond.
abbrev pub rounds : DecisionScheduler → ℕ → ℕ
rounds s end = (suc end - s.next_feature) + (suc end - s.next_signal)

unfoldable pub advance_to :
    DecisionScheduler → DateTime → Result (List DecisionTick × DecisionScheduler)
unfolding advance_loop
advance_to s target = do
  end ← utc target
  if ltb end s.cursor
      then raise value_error
      else (let (ticks, s') = advance_loop (suc (rounds s end)) s end in
          ok (ticks, record s' { cursor = end }))
