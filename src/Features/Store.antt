-- ===== src/Features/Store.antt =====
-- features/state.py: `VenueSymbolState`, and the part of `MarketStateStore.ingest` that works on one.
-- The windows and the book are a record of their own, beside the counters, the latest events and the
-- health by channel.
pub mod Ingest
pub mod Held
pub mod BookHeld
pub mod Counts
pub mod StateHeld
pub mod Created
pub mod Market
pub mod MarketHeld
pub mod Calls
pub mod Pipeline
mod Runs
use Prim.Native.String.{String}
use cvf.Prelude.{
  ℕ, ◌+◌, Bool, true, false, not, ◌&&◌, Option, none, some, List, [], ◌∷◌, ℤ, length, ◌==◌,
  if◌then◌else◌,
}
use cvf.Outcome.{Result, ok, raise}
use cvf.Exec.{Exec, pure, gets, modify, continue, ◌>>=◌, ◌>>◌}
use cvf.Time.{aware}
use cvf.Decimals.{Decimals}
use cvf.Dict.{Dict}
use cvf.Monitoring.Health.Status.{HealthStatus}
use cvf.Features.Rolling.{BoundedTimeWindow, AppendStatus, admissibility, append, clear}
use cvf.Features.Rolling as Rolling
use cvf.Features.Book.{
  StateUpdateStatus, accepted, late_dropped, expired_dropped, stale_generation, stale_sequence,
  buffered_for_snapshot, book_invalidated, Int10, Arithmetic, BookEvent, a_snapshot, an_update,
  BookChange, Book, Digests, event_time,
}
use cvf.Features.Book.Updates.{FeatureBookView, view}
use cvf.Features.Book.Events.{take_event}

-- The types of the events that are kept as the latest of their type.
pub data StatefulType : Type 0 where
  trade best_bid_ask open_interest funding_rate mark_price index_price liquidation : StatefulType

-- An event of such a type; the fields that the store does not read are the payload.
pub record StatefulEvent (P : Type 0) : Type 0 where
  pub event_type : StatefulType
  pub exchange_timestamp : ℕ
  pub payload : P

pub record HealthEvent : Type 0 where
  pub exchange_timestamp : ℕ
  pub channel : String
  pub status : HealthStatus

unfoldable pub window_status : AppendStatus → StateUpdateStatus
window_status AppendStatus.accepted = accepted
window_status AppendStatus.late_dropped = late_dropped
window_status AppendStatus.expired_dropped = expired_dropped

unfoldable pub is_accepted : StateUpdateStatus → Bool
is_accepted accepted = true
is_accepted _ = false

unfoldable pub is_stale : StateUpdateStatus → Bool
is_stale stale_generation = true
is_stale stale_sequence = true
is_stale _ = false

unfoldable pub is_dropped : StateUpdateStatus → Bool
is_dropped late_dropped = true
is_dropped expired_dropped = true
is_dropped _ = false

module _ (d : Decimals) (P : Type 0) where
  pub record FeatureBookCheckpoint : Type 0 where
    pub view : FeatureBookView d
    pub source_event : Option (BookEvent d)
    pub change : Option (BookChange d)

  pub record Windows : Type 0 where
    pub trades : BoundedTimeWindow (StatefulEvent P)
    pub prices : BoundedTimeWindow (StatefulEvent P)
    pub open_interests : BoundedTimeWindow (StatefulEvent P)
    pub funding_rates : BoundedTimeWindow (StatefulEvent P)
    pub mark_prices : BoundedTimeWindow (StatefulEvent P)
    pub index_prices : BoundedTimeWindow (StatefulEvent P)
    pub liquidations : BoundedTimeWindow (StatefulEvent P)
    pub book_updates : BoundedTimeWindow (BookEvent d)
    pub book_changes : BoundedTimeWindow (BookChange d)
    pub book_history : BoundedTimeWindow FeatureBookCheckpoint
    pub order_book : Book d

  -- `latest_by_type` is a function, since its keys are the seven types.
  pub record VenueSymbolState : Type 0 where
    pub windows : Windows
    pub health_events : BoundedTimeWindow HealthEvent
    pub latest_by_type : StatefulType → Option (StatefulEvent P)
    pub health_by_channel : Dict String HealthStatus
    pub accepted_events : ℕ
    pub rejected_events : ℕ

  -- An event with a place in one state.
  pub data StateEvent : Type 0 where
    stateful : StatefulEvent P → StateEvent
    book_event : BookEvent d → StateEvent

-- `self._window_status(window.append(event_at, value))`, with the window after it.
unfoldable pub append_status :
    {A S : Type 0}
    → Result (BoundedTimeWindow A × AppendStatus)
    → (BoundedTimeWindow A → S)
    → S
    → Result StateUpdateStatus × S
unfolding window_status
append_status (raise e) place s = (raise e, s)
append_status (ok (w, status)) place s = (ok (window_status status), place w)

unfoldable pub type_eq : StatefulType → StatefulType → Bool
type_eq trade trade = true
type_eq best_bid_ask best_bid_ask = true
type_eq open_interest open_interest = true
type_eq funding_rate funding_rate = true
type_eq mark_price mark_price = true
type_eq index_price index_price = true
type_eq liquidation liquidation = true
type_eq _ _ = false

unfoldable pub and_change :
    {d : Decimals} → BookChange d → StateUpdateStatus → StateUpdateStatus × Option (BookChange d)
and_change change status = (status, some change)

module _ {d : Decimals} {P : Type 0} where
  unfoldable pub append_price : StatefulEvent P → Exec (Windows d P) StateUpdateStatus
  unfolding append_status
  append_price event w =
      append_status (append w.prices (aware event.exchange_timestamp) event)
        (λ v. record w { prices = v }) w

  -- The prices get what another window has accepted.
  unfoldable pub and_price :
      StatefulEvent P → StateUpdateStatus → Exec (Windows d P) StateUpdateStatus
  unfolding is_accepted append_price
  and_price event status = if is_accepted status then append_price event else pure status

  unfoldable pub append_trade : StatefulEvent P → Exec (Windows d P) StateUpdateStatus
  unfolding append_status
  append_trade event w =
      append_status (append w.trades (aware event.exchange_timestamp) event)
        (λ v. record w { trades = v }) w

  unfoldable pub append_mark : StatefulEvent P → Exec (Windows d P) StateUpdateStatus
  unfolding append_status
  append_mark event w =
      append_status (append w.mark_prices (aware event.exchange_timestamp) event)
        (λ v. record w { mark_prices = v }) w

  unfoldable pub append_stateful :
      StatefulType → StatefulEvent P → Exec (Windows d P) StateUpdateStatus
  unfolding append_status and_price append_price append_trade append_mark
  append_stateful trade event w = (append_trade event >>= and_price event) w
  append_stateful best_bid_ask event w = append_price event w
  append_stateful open_interest event w =
      append_status (append w.open_interests (aware event.exchange_timestamp) event)
        (λ v. record w { open_interests = v }) w
  append_stateful funding_rate event w =
      append_status (append w.funding_rates (aware event.exchange_timestamp) event)
        (λ v. record w { funding_rates = v }) w
  append_stateful mark_price event w = (append_mark event >>= and_price event) w
  append_stateful index_price event w =
      append_status (append w.index_prices (aware event.exchange_timestamp) event)
        (λ v. record w { index_prices = v }) w
  append_stateful liquidation event w =
      append_status (append w.liquidations (aware event.exchange_timestamp) event)
        (λ v. record w { liquidations = v }) w

  unfoldable pub clear_changed : ℕ → Windows d P → Windows d P
  clear_changed previous w =
      if w.order_book.generation == previous
      then w
      else record w { book_updates = clear w.book_updates; book_changes = clear w.book_changes }

  unfoldable pub clear_if_snapshot : BookEvent d → Windows d P → Windows d P
  clear_if_snapshot (a_snapshot s) w = record w { book_updates = clear w.book_updates }
  clear_if_snapshot (an_update u) w = w

  unfoldable pub append_update : BookEvent d → Exec (Windows d P) StateUpdateStatus
  unfolding append_status event_time
  append_update event w =
      append_status (append w.book_updates (aware (event_time d event)) event)
        (λ v. record w { book_updates = v }) w

  unfoldable pub append_change : BookEvent d → BookChange d → Exec (Windows d P) StateUpdateStatus
  unfolding append_status event_time
  append_change event change w =
      append_status (append w.book_changes (aware (event_time d event)) change)
        (λ v. record w { book_changes = v }) w

  unfoldable pub keep_latest :
      BookEvent d
      → StateUpdateStatus
      → Option (BookChange d)
      → Exec (Windows d P) (StateUpdateStatus × Option (BookChange d))
  unfolding is_accepted append_change and_change
  keep_latest event status none = pure (status, none)
  keep_latest event status (some change) =
      if is_accepted status
      then append_change event change >>= (λ kept. pure (and_change change kept))
      else pure (status, none)

  -- The change of an update that was kept, and the status with it.
  unfoldable pub keep_change :
      BookEvent d
      → StateUpdateStatus
      → Exec (Windows d P) (StateUpdateStatus × Option (BookChange d))
  unfolding keep_latest
  keep_change (a_snapshot s) status w = (ok (status, none), w)
  keep_change (an_update u) status w = keep_latest (an_update u) status w.order_book.last_change w

  -- What follows the book's own answer, up to the history.
  unfoldable pub keep_event :
      BookEvent d
      → StateUpdateStatus
      → Exec (Windows d P) (StateUpdateStatus × Option (BookChange d))
  unfolding is_accepted clear_if_snapshot append_update keep_change
  keep_event event status =
      if is_accepted status
      then modify (clear_if_snapshot event) >> append_update event >>= keep_change event
      else pure (status, none)

  unfoldable pub checkpoint :
      BookEvent d
      → StateUpdateStatus
      → Option (BookChange d)
      → FeatureBookView d
      → FeatureBookCheckpoint d P
  unfolding is_dropped is_accepted
  checkpoint event status change book_view = record {
    view = book_view;
    source_event = if is_dropped status then none else some event;
    change = if is_accepted status then change else none;
  }

  unfoldable pub append_checkpoint :
      BookEvent d
      → StateUpdateStatus
      → FeatureBookCheckpoint d P
      → Exec (Windows d P) StateUpdateStatus
  unfolding append_status is_accepted event_time
  append_checkpoint event status c =
      (λ w.
        append_status (append w.book_history (aware (event_time d event)) c)
          (λ v. record w { book_history = v }) w)
      >>= λ history. pure (if is_accepted status then history else status)

  unfoldable pub view_checkpoint :
      Result (FeatureBookView d)
      → BookEvent d
      → StateUpdateStatus
      → Option (BookChange d)
      → Exec (Windows d P) StateUpdateStatus
  unfolding append_checkpoint checkpoint
  view_checkpoint (raise e) event status change w = (raise e, w)
  view_checkpoint (ok book_view) event status change w =
      append_checkpoint event status (checkpoint event status change book_view) w

  unfoldable pub apply_book :
      Arithmetic d.Value → Digests d → Int10 → BookEvent d → Exec (Windows d P) StateUpdateStatus
  apply_book a g int10 event w =
      let (r, book) = take_event d a g int10 event w.order_book in
      (r, record w { order_book = book })

  unfoldable pub apply_and_keep :
      Arithmetic d.Value
      → Digests d
      → Int10
      → BookEvent d
      → ℕ
      → Exec (Windows d P) (StateUpdateStatus × Option (BookChange d))
  unfolding apply_book clear_changed keep_event
  apply_and_keep a g int10 event previous =
      apply_book a g int10 event
      >>= (λ status. modify (clear_changed previous) >> keep_event event status)
