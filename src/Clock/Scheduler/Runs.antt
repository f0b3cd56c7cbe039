-- ===== src/Clock/Scheduler/Runs.antt =====
-- Tests of the scheduler, and its theorems at concrete inputs.
use cvf.Prelude.{◌≡◌, refl, List, [], ◌∷◌, pos, negsuc, arith}
use cvf.Outcome.{ok, raise, value_error, ◌>>=◌}
use cvf.Time.{aware, naive}
use cvf.Clock.Scheduler.{
  feature, signal, DecisionTick, DecisionScheduler, init, has_due_tick, advance_to,
}
use cvf.Clock.Scheduler.Multiples.{IsNext-of_div}
use cvf.Clock.Scheduler.Boundaries.{IsValid, init-IsValid, AdvancedTo, advance_to-due_in}
use cvf.Clock.Scheduler.Splits.{advance_twice, advance_to-advance_to}
use cvf.Clock.Scheduler.Due.{any_tick, has_due_tick-advance_to}

-- A scheduler at 7 with boundaries every 5 and every 10.
abbrev at_seven : DecisionScheduler
at_seven = record {
  cursor = 7;
  feature_interval = 5;
  signal_interval = 10;
  next_feature = 10;
  next_signal = 10;
}

seven_starts : init (aware 7) (pos 5) (pos 10) ≡ ok at_seven
unfolding init
seven_starts = refl

init_refused : init (aware 7) (negsuc 4) (pos 10) ≡ raise value_error
unfolding init
init_refused = refl

ticks_to_twenty :
    advance_to at_seven (aware 20)
    ≡ ok (
      record { timestamp = 10; kind = feature }
          ∷ record { timestamp = 10; kind = signal }
          ∷ record { timestamp = 15; kind = feature }
          ∷ record { timestamp = 20; kind = feature }
          ∷ record { timestamp = 20; kind = signal }
          ∷ [],
      record at_seven { cursor = 20; next_feature = 25; next_signal = 30 },
    )
unfolding advance_to
ticks_to_twenty = refl

naive_target : advance_to at_seven (naive 20) ≡ raise value_error
unfolding advance_to
naive_target = refl

at_seven-IsValid : IsValid at_seven
at_seven-IsValid = record {
  features = IsNext-of_div 7 5 (omega arith);
  signals = IsNext-of_div 7 10 (omega arith);
}

init-IsValid_example :
    (s : DecisionScheduler) × (init (aware 7) (pos 5) (pos 10) ≡ ok s)
    × IsValid s
    × (s.cursor ≡ 7)
    × (s.feature_interval ≡ 5)
    × (s.signal_interval ≡ 10)
init-IsValid_example = init-IsValid 7 5 10 (omega arith) (omega arith)

advance_to-due_in_example :
    (r : List DecisionTick × DecisionScheduler) × (advance_to at_seven (aware 20) ≡ ok r)
    × AdvancedTo at_seven 20 r
advance_to-due_in_example = advance_to-due_in at_seven 20 at_seven-IsValid (omega arith)

advance_to-advance_to_example : advance_twice at_seven 12 20 ≡ advance_to at_seven (aware 20)
advance_to-advance_to_example =
    advance_to-advance_to at_seven 12 20 at_seven-IsValid (omega arith) (omega arith)

has_due_tick-advance_to_example :
    has_due_tick at_seven (aware 9) ≡ (advance_to at_seven (aware 9) >>= λ r. ok (any_tick r.0))
has_due_tick-advance_to_example = has_due_tick-advance_to at_seven (aware 9)
