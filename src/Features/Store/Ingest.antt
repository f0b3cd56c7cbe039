-- ===== src/Features/Store/Ingest.antt =====
-- features/state.py: `ingest` and `update_health` of `MarketStateStore`, as far as they work on one
-- state.
use Prim.Native.String.{String}
use cvf.Prelude.{ℕ, ◌+◌, Option, some, ℤ, pos, if◌then◌else◌}
use cvf.Outcome.{Result, ok, raise}
use cvf.Exec.{Exec, pure, modify, ◌>>=◌, ◌>>◌}
use cvf.Time.{aware}
use cvf.Decimals.{Decimals}
use cvf.Dict.{assign, text_discrete}
use cvf.Monitoring.Health.Status.{HealthStatus}
use cvf.Features.Rolling.{BoundedTimeWindow, AppendStatus, LateEventPolicy, append, admissibility}
use cvf.Features.Rolling as Rolling
use cvf.Features.Book.{
  StateUpdateStatus, Int10, Arithmetic, BookEvent, a_snapshot, an_update, BookChange,
  OrderBookSnapshot, OrderBookUpdate, Digests,
}
use cvf.Features.Book.Updates.{view}
use cvf.Features.Store.{
  StatefulEvent, HealthEvent, Windows, VenueSymbolState, StateEvent, stateful, book_event,
  window_status, is_accepted, is_stale, type_eq, append_status, append_stateful, apply_and_keep,
  view_checkpoint,
}

-- The settings, in microseconds; what `_window` and its kin are called with.
pub record StoreConfig : Type 0 where
  pub retention : ℕ
  pub maximum_events : ℕ
  pub late_policy : LateEventPolicy
  pub maximum_lateness : ℕ
  pub book_pending_updates : ℕ
  pub order_book_depth : ℤ

unfoldable pub window_of :
    {A : Type 0} → StoreConfig → LateEventPolicy → ℕ → Result (BoundedTimeWindow A)
window_of config policy lateness =
    Rolling.init (pos config.retention) (pos config.maximum_events) policy (pos lateness)

module _ {d : Decimals} {P : Type 0} where
  -- `state.rejected_events += 1`, which four places of `ingest` do.
  unfoldable pub count_rejected : VenueSymbolState d P → VenueSymbolState d P
  count_rejected s = record s { rejected_events = s.rejected_events + 1 }

  unfoldable pub remember : StateEvent d P → VenueSymbolState d P → VenueSymbolState d P
  unfolding type_eq
  remember (stateful event) s = record s {
    latest_by_type =
        λ type. if type_eq type event.event_type then some event else s.latest_by_type type;
  }
  remember (book_event event) s = s

  unfoldable pub count_accepted : StateEvent d P → VenueSymbolState d P → VenueSymbolState d P
  unfolding remember
  count_accepted event s = remember event (record s { accepted_events = s.accepted_events + 1 })

  -- A part of `ingest` that works on the windows and the book.
  unfoldable pub on_windows : {A : Type 0} → Exec (Windows d P) A → Exec (VenueSymbolState d P) A
  on_windows part s = let (r, w) = part s.windows in (r, record s { windows = w })

  -- The end of `ingest`.
  unfoldable pub settle :
      StateEvent d P → StateUpdateStatus → Exec (VenueSymbolState d P) StateUpdateStatus
  unfolding is_accepted count_accepted count_rejected
  settle event status s =
      (ok status, if is_accepted status then count_accepted event s else count_rejected s)

  -- The history of the book, which has a checkpoint after every event that is not stale.
  unfoldable pub append_history :
      ℤ
      → BookEvent d
      → StateUpdateStatus
      → Option (BookChange d)
      → Exec (Windows d P) StateUpdateStatus
  unfolding view_checkpoint
  append_history depth event status change w =
      view_checkpoint (view d depth w.order_book) event status change w

  unfoldable pub finish_stateful :
      StatefulEvent P → StateUpdateStatus → Exec (VenueSymbolState d P) StateUpdateStatus
  unfolding is_stale count_rejected settle
  finish_stateful event status s =
      if is_stale status then (ok status, count_rejected s) else settle (stateful event) status s

  unfoldable pub finish_book :
      ℤ
      → BookEvent d
      → StateUpdateStatus × Option (BookChange d)
      → Exec (VenueSymbolState d P) StateUpdateStatus
  unfolding is_stale count_rejected on_windows append_history settle
  finish_book depth event (status, change) s =
      if is_stale status
      then (ok status, count_rejected s)
      else (on_windows (append_history depth event status change) >>= settle (book_event event)) s

  module _ (a : Arithmetic d.Value) (g : Digests d) (int10 : Int10) (depth : ℤ) where
    unfoldable pub ingest_stateful : StatefulEvent P → Exec (VenueSymbolState d P) StateUpdateStatus
    unfolding on_windows append_stateful finish_stateful
    ingest_stateful event =
        on_windows (append_stateful event.event_type event) >>= finish_stateful event

    -- An order-book event that the window of updates admits.
    unfoldable pub take_book : BookEvent d → Exec (VenueSymbolState d P) StateUpdateStatus
    unfolding on_windows apply_and_keep finish_book
    take_book event s =
        (on_windows (apply_and_keep a g int10 event s.windows.order_book.generation)
            >>= finish_book depth event)
          s

    -- The guards of the two branches for snapshots and updates.
    unfoldable pub admit_snapshot :
        OrderBookSnapshot d → Result AppendStatus → Exec (VenueSymbolState d P) StateUpdateStatus
    unfolding window_status is_accepted count_rejected take_book
    admit_snapshot snapshot (raise e) s = (raise e, s)
    admit_snapshot snapshot (ok status) s =
        if is_accepted (window_status status)
        then take_book (a_snapshot snapshot) s
        else (ok (window_status status), count_rejected s)

    unfoldable pub admit_update :
        OrderBookUpdate d → Result AppendStatus → Exec (VenueSymbolState d P) StateUpdateStatus
    unfolding window_status is_accepted count_rejected take_book
    admit_update update (raise e) s = (raise e, s)
    admit_update update (ok status) s =
        if is_accepted (window_status status)
        then take_book (an_update update) s
        else (ok (window_status status), count_rejected s)

    -- `ingest` of an event that is no health event, on its state.
    unfoldable pub ingest_state : StateEvent d P → Exec (VenueSymbolState d P) StateUpdateStatus
    unfolding ingest_stateful admit_snapshot admit_update
    ingest_state (stateful event) s = ingest_stateful event s
    ingest_state (book_event (a_snapshot snapshot)) s =
        admit_snapshot snapshot
          (admissibility s.windows.book_updates (aware snapshot.exchange_timestamp)) s
    ingest_state (book_event (an_update update)) s =
        admit_update update (admissibility s.windows.book_updates (aware update.exchange_timestamp))
          s

  -- The state's part of `update_health`.
  unfoldable pub put_health : HealthEvent → Exec (VenueSymbolState d P) StateUpdateStatus
  unfolding append_status
  put_health health s =
      append_status (append s.health_events (aware health.exchange_timestamp) health)
        (λ v. record s { health_events = v }) s

  unfoldable pub set_channel : String → HealthStatus → VenueSymbolState d P → VenueSymbolState d P
  unfolding assign text_discrete
  set_channel channel status s = record s {
    health_by_channel = assign text_discrete channel status s.health_by_channel;
  }

  unfoldable pub ingest_health : HealthEvent → Exec (VenueSymbolState d P) StateUpdateStatus
  unfolding put_health set_channel is_accepted
  ingest_health health = put_health health >>= λ status.
      modify (λ s. if is_accepted status then set_channel health.channel health.status s else s)
      >> pure status
