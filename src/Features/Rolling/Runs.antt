-- ===== src/Features/Rolling/Runs.antt =====
-- Tests of the window, and its theorems at concrete inputs.
use cvf.Prelude.{ℕ, ◌≡◌, refl, Option, some, [], ◌∷◌, pos, arith}
use cvf.Outcome.{ok}
use cvf.Time.{aware}
use cvf.Features.Rolling.{
  LateEventPolicy, AppendStatus, accepted, late_dropped, expired_dropped, TimedValue,
  BoundedTimeWindow, place_at, accept, prune, prune_at, admissibility, append,
}
use cvf.Features.Rolling.Queries.{items_between, latest_at_or_before, items_appended_after}
use cvf.Features.Rolling.Statuses.{IsStatus, append-IsStatus}
use cvf.Features.Rolling.Kept.{IsValid, raised, outcome, append-outcome}
use cvf.Features.Rolling.Answers.{
  between, items_between-between, IsLatest, latest_at_or_before-IsLatest,
}

append_opened : Unit {0}
unfolding append accept place_at prune prune_at
append_opened = tt

abbrev event : ℕ → ℕ → ℕ → TimedValue ℕ
event t v n = record { timestamp = t; value = v; ordinal = n }

-- Ten microseconds, three items at most, late events inserted up to five microseconds back.
abbrev two_events : BoundedTimeWindow ℕ
two_events = record {
  retention = 10;
  maximum_items = 3;
  late_event_policy = LateEventPolicy.insert;
  maximum_lateness = 5;
  items = event 12 70 1 ∷ event 20 71 2 ∷ [];
  watermark = some 20;
  last_ordinal = 2;
  accepted_count = 2;
  late_count = 0;
  expired_count = 0;
  capacity_evictions = 0;
}

late_inserted :
    append two_events (aware 16) 72
    ≡ ok (
      record two_events {
        items = event 12 70 1 ∷ event 16 72 3 ∷ event 20 71 2 ∷ [];
        last_ordinal = 3;
        accepted_count = 3;
      },
      accepted,
    )
unfolding append_opened
late_inserted = refl

too_late : append two_events (aware 14) 72 ≡ ok (record two_events { late_count = 1 }, late_dropped)
unfolding append_opened
too_late = refl

expired :
    append two_events (aware 10) 72 ≡ ok (record two_events { expired_count = 1 }, expired_dropped)
unfolding append_opened
expired = refl

moves_on :
    append two_events (aware 22) 72
    ≡ ok (
      record two_events {
        items = event 20 71 2 ∷ event 22 72 3 ∷ [];
        watermark = some 22;
        last_ordinal = 3;
        accepted_count = 3;
      },
      accepted,
    )
unfolding append_opened
moves_on = refl

appended : items_appended_after two_events (pos 1) ≡ ok (event 20 71 2 ∷ [])
unfolding items_appended_after
appended = refl

two_events-IsValid : IsValid two_events
two_events-IsValid = record {
  retention_positive = omega arith;
  maximum_positive = omega arith;
  bounded = omega arith;
  ordered = omega arith;
  inside = omega arith;
  counted = refl;
}

append-outcome_example :
    (s : AppendStatus) × (admissibility two_events (aware 16) ≡ ok s)
    × (append two_events (aware 16) 72 ≡ ok (outcome s two_events 16 72, s))
    × IsValid (outcome s two_events 16 72)
append-outcome_example = append-outcome two_events 16 72 two_events-IsValid

items_between-between_example :
    items_between two_events (aware 12) (aware 20) ≡ ok (between 12 20 two_events.items)
items_between-between_example =
    items_between-between two_events 12 20 two_events-IsValid (omega arith)

latest_at_or_before-IsLatest_example :
    (o : Option (TimedValue ℕ)) × (latest_at_or_before two_events (aware 15) ≡ ok o)
    × IsLatest 15 two_events.items o
latest_at_or_before-IsLatest_example = latest_at_or_before-IsLatest two_events 15

append-IsStatus_example :
    (w' : BoundedTimeWindow ℕ) × (s : AppendStatus) × (append two_events (aware 16) 72 ≡ ok (w', s))
    × IsStatus two_events 16 (raised two_events.watermark 16) s
append-IsStatus_example = append-IsStatus two_events 16 72 two_events-IsValid
