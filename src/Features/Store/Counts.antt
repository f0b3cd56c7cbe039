-- ===== src/Features/Store/Counts.antt =====
-- features/state.py: what `MarketStateStore.ingest` counts of a state, at its end and where it returns early.
use cvf.Prelude.{ℕ, ◌+◌, ◌≡◌, Bool, true, false}
use cvf.Outcome.{Result, ok, raise}
use cvf.Exec.{Exec}
use cvf.Decimals.{Decimals}
use cvf.Features.Book.{StateUpdateStatus}
use cvf.Features.Store.{VenueSymbolState, is_accepted}

unfoldable pub one_if : Bool → ℕ
one_if true = 1
one_if false = 0

module _ {d : Decimals} {P : Type 0} where
  -- An event with a status is one more event, accepted or rejected as the status says; one that raises
  -- is counted nowhere.
  unfoldable pub Counted :
      VenueSymbolState d P → Result StateUpdateStatus → VenueSymbolState d P → Type 0
  Counted s (raise e) t =
      (t.accepted_events ≡ s.accepted_events) × (t.rejected_events ≡ s.rejected_events)
  Counted s (ok status) t =
      (t.accepted_events ≡ s.accepted_events + one_if (is_accepted status))
      × (t.rejected_events + one_if (is_accepted status) ≡ s.rejected_events + 1)
