-- ===== src/Clock/Replay/Runs.antt =====
-- A run of the replay clock.
use cvf.Prelude.{◌≡◌, refl, [], ◌∷◌, List}
use cvf.Time.{DateTime, aware, naive}
use cvf.Clock.Replay.{now, advance_to, after_targets, latest_of, now-after_targets}

abbrev targets : List DateTime
targets = aware 7 ∷ aware 5 ∷ naive 9 ∷ []

kept_at_seven : now (after_targets targets (record { current = 3 })) ≡ 7
unfolding now advance_to
kept_at_seven = refl

now-after_targets_example :
    now (after_targets targets (record { current = 3 }))
    ≡ latest_of targets (now (record { current = 3 }))
now-after_targets_example = now-after_targets targets (record { current = 3 })
