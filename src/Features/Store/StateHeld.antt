-- ===== src/Features/Store/StateHeld.antt =====
-- features/state.py: `MarketStateStore.ingest` keeps the invariant of a `VenueSymbolState`.
use cvf.Prelude.{◌≡◌, refl, Bool, true, false, Option, ℤ, if◌then◌else◌}
use mathlib.Core.Path.{subst⁻¹}
use cvf.Outcome.{Result, ok, raise}
use cvf.Exec.{Exec, continue, ◌>>=◌}
use cvf.Time.{aware}
use cvf.Decimals.{Decimals}
use cvf.Features.Rolling.{AppendStatus, admissibility}
use cvf.Features.Rolling.Kept.{IsValid}
use cvf.Features.Book.{
  StateUpdateStatus, Int10, Arithmetic, BookEvent, a_snapshot, an_update, BookChange,
  OrderBookSnapshot, OrderBookUpdate, Digests,
}
use cvf.Features.Book.Updates.{view}
use cvf.Features.Store.{
  StatefulEvent, VenueSymbolState, Windows, StateEvent, stateful, book_event, window_status,
  is_accepted, is_stale, append_stateful, apply_and_keep,
}
use cvf.Features.Store.Held.{IsHeld, Keeps, append_stateful-Keeps}
use cvf.Features.Store.BookHeld.{view_checkpoint-Keeps, apply_and_keep-Keeps}
use cvf.Features.Store.Ingest.{
  count_rejected, remember, count_accepted, on_windows, settle, append_history, finish_stateful,
  finish_book, ingest_stateful, take_book, admit_snapshot, admit_update, ingest_state,
}

module _ {d : Decimals} {P : Type 0} where
  -- The windows are valid and the book is sound.
  abbrev pub Holds : VenueSymbolState d P → Type 0
  Holds s = IsHeld d P s.windows × IsValid s.health_events

  abbrev pub Saves : {A : Type 0} → Exec (VenueSymbolState d P) A → Type 0
  Saves method = (s : VenueSymbolState d P) → Holds s → Holds (method s).1

  pub continue-Holds :
      {A B : Type 0} (r : Result A) (f : A → Exec (VenueSymbolState d P) B)
      (s : VenueSymbolState d P)
      → Holds s
      → ((x : A) → Saves (f x))
      → Holds (continue r f s).1
  continue-Holds (ok x) f s h k = k x s h
  continue-Holds (raise e) f s h k = h

  then-Saves :
      {A B : Type 0} (m : Exec (VenueSymbolState d P) A) (f : A → Exec (VenueSymbolState d P) B)
      → Saves m
      → ((x : A) → Saves (f x))
      → Saves (m >>= f)
  then-Saves m f h k s holds = continue-Holds (m s).0 f (m s).1 (h s holds) k

  if-Holds :
      {A : Type 0} (b : Bool) (x y : A × VenueSymbolState d P)
      → Holds x.1
      → Holds y.1
      → Holds (if b then x else y).1
  if-Holds true x y h k = h
  if-Holds false x y h k = k

  remember-same :
      (event : StateEvent d P) (s : VenueSymbolState d P)
      → ((remember event s).windows ≡ s.windows)
        × ((remember event s).health_events ≡ s.health_events)
  unfolding remember
  remember-same (stateful event) s = (refl, refl)
  remember-same (book_event event) s = (refl, refl)

  count_windows :
      (b : Bool) (event : StateEvent d P) (s : VenueSymbolState d P)
      → (if b then count_accepted event s else count_rejected s).windows ≡ s.windows
  unfolding count_accepted count_rejected
  count_windows true event s = (remember-same event _).0
  count_windows false event s = refl

  count_health :
      (b : Bool) (event : StateEvent d P) (s : VenueSymbolState d P)
      → (if b then count_accepted event s else count_rejected s).health_events ≡ s.health_events
  unfolding count_accepted count_rejected
  count_health true event s = (remember-same event _).1
  count_health false event s = refl

  on_windows-Saves :
      {A : Type 0} (part : Exec (Windows d P) A) → Keeps part → Saves (on_windows part)
  unfolding on_windows
  on_windows-Saves part keeps s h = (keeps s.windows h.0, h.1)

  count_rejected-Holds : (s : VenueSymbolState d P) → Holds s → Holds (count_rejected s)
  unfolding count_rejected
  count_rejected-Holds s h = h

  settle-Saves : (event : StateEvent d P) (status : StateUpdateStatus) → Saves (settle event status)
  unfolding settle
  settle-Saves event status s h = (
    subst⁻¹ (IsHeld d P) (count_windows (is_accepted status) event s) h.0,
    subst⁻¹ IsValid (count_health (is_accepted status) event s) h.1,
  )

  append_history-Keeps :
      (depth : ℤ) (event : BookEvent d) (status : StateUpdateStatus)
      (change : Option (BookChange d))
      → Keeps {P = P} (append_history depth event status change)
  unfolding append_history
  append_history-Keeps depth event status change w h =
      view_checkpoint-Keeps (view d depth w.order_book) event status change w h

  finish_stateful-Saves :
      (event : StatefulEvent P) (status : StateUpdateStatus) → Saves (finish_stateful event status)
  unfolding finish_stateful
  finish_stateful-Saves event status s h =
      if-Holds (is_stale status) _ _ (count_rejected-Holds s h)
        (settle-Saves (stateful event) status s h)

  finish_book-Saves :
      (depth : ℤ) (event : BookEvent d) (kept : StateUpdateStatus × Option (BookChange d))
      → Saves (finish_book depth event kept)
  unfolding finish_book
  finish_book-Saves depth event (status, change) s h =
      if-Holds (is_stale status) _ _ (count_rejected-Holds s h) (
        then-Saves (on_windows (append_history depth event status change))
          (settle (book_event event))
          (on_windows-Saves (append_history depth event status change)
            (append_history-Keeps depth event status change))
          (settle-Saves (book_event event)) s h)

  module _ (a : Arithmetic d.Value) (g : Digests d) (int10 : Int10) (depth : ℤ) where
    take_book-Saves : (event : BookEvent d) → Saves (take_book a g int10 depth event)
    unfolding take_book
    take_book-Saves event s h =
        then-Saves (on_windows (apply_and_keep a g int10 event s.windows.order_book.generation))
          (finish_book depth event)
          (on_windows-Saves (apply_and_keep a g int10 event s.windows.order_book.generation)
            (apply_and_keep-Keeps a g int10 event s.windows.order_book.generation))
          (finish_book-Saves depth event) s h

    admit_snapshot-Saves :
        (snapshot : OrderBookSnapshot d) (r : Result AppendStatus)
        → Saves (admit_snapshot a g int10 depth snapshot r)
    unfolding admit_snapshot
    admit_snapshot-Saves snapshot (raise e) s h = h
    admit_snapshot-Saves snapshot (ok status) s h =
        if-Holds (is_accepted (window_status status)) _ _
          (take_book-Saves (a_snapshot snapshot) s h) (count_rejected-Holds s h)

    admit_update-Saves :
        (update : OrderBookUpdate d) (r : Result AppendStatus)
        → Saves (admit_update a g int10 depth update r)
    unfolding admit_update
    admit_update-Saves update (raise e) s h = h
    admit_update-Saves update (ok status) s h =
        if-Holds (is_accepted (window_status status)) _ _ (take_book-Saves (an_update update) s h)
          (count_rejected-Holds s h)

    -- An event of any type, whatever the status and also where it raises, keeps every window of the
    -- state valid, that is in order, within its capacity and its retention, and the book sound.
    pub ingest_state-Saves : (event : StateEvent d P) → Saves (ingest_state a g int10 depth event)
    unfolding ingest_state ingest_stateful
    ingest_state-Saves (stateful event) s h =
        then-Saves (on_windows (append_stateful event.event_type event)) (finish_stateful event)
          (on_windows-Saves (append_stateful event.event_type event)
            (append_stateful-Keeps event.event_type event))
          (finish_stateful-Saves event) s h
    ingest_state-Saves (book_event (a_snapshot snapshot)) s h =
        admit_snapshot-Saves snapshot
          (admissibility s.windows.book_updates (aware snapshot.exchange_timestamp)) s h
    ingest_state-Saves (book_event (an_update update)) s h =
        admit_update-Saves update
          (admissibility s.windows.book_updates (aware update.exchange_timestamp)) s h
