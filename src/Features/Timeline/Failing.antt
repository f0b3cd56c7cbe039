-- ===== src/Features/Timeline/Failing.antt =====
-- features/runtime.py: `_raise_if_failed`, whatever the sinks do and whoever is cancelled.
use cvf.Prelude.{◌≡◌, ◌⊎◌, Bool, true}
use cvf.Outcome.{Error, Result, raise, runtime_error, cancelled_error}
use cvf.Exec.{Exec}
use cvf.Features.Timeline.{TimelineEvent, Sinks, Driver, TimelineSettings}
use cvf.Features.Timeline.Bounded.{Call, Call.publishing, Call.advancing, Call.finishing, take_call}

module _ {P W : Type 0} where
  -- An exception leaves the state as it is, or the driver has failed, or it is a cancellation.
  abbrev Settles : Driver P W → Result (Unit {0}) × Driver P W → Type 0
  Settles s q =
      (e : Error) (s' : Driver P W)
      → q ≡ (raise e, s')
      → (s' ≡ s) ⊎ ((s'.failed ≡ true) ⊎ (e ≡ cancelled_error))

module _ {P W : Type 0} (k : Sinks (TimelineEvent P) W) (settings : TimelineSettings) where
  -- Every later call raises `RuntimeError` and changes nothing.
  abbrev pub IsDead : Driver P W → Type 0
  IsDead s =
      (cancelled : Bool) (call : Call P)
      → take_call k settings cancelled call s ≡ (raise runtime_error, s)
