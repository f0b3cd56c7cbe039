-- ===== src/Features/Store/BookHeld.antt =====
-- features/state.py: order-book events keep the invariant of the windows and the book.
use cvf.Prelude.{ℕ, Option, none, some, if◌then◌else◌}
use cvf.Outcome.{Result, ok, raise}
use cvf.Exec.{pure, modify, ◌>>◌}
use cvf.Decimals.{Decimals}
use cvf.Features.Book.{
  StateUpdateStatus, Int10, Arithmetic, BookEvent, a_snapshot, an_update, BookChange, Digests,
  event_time,
}
use cvf.Features.Book.Updates.{FeatureBookView}
use cvf.Features.Book.Events.{take_event-IsSound}
use cvf.Features.Store.Held.{
  placed, IsHeld, Keeps, if-Keeps, then-Keeps, clear_changed-IsHeld, clear_if_snapshot-IsHeld,
  append_update-Keeps, append_change-Keeps,
}
use cvf.Features.Store.{
  FeatureBookCheckpoint, is_accepted, clear_changed, clear_if_snapshot, append_update,
  append_change, and_change, keep_latest, keep_change, keep_event, apply_book, apply_and_keep,
  append_checkpoint, view_checkpoint, checkpoint,
}

module _ {d : Decimals} {P : Type 0} where
  keep_latest-Keeps :
      (event : BookEvent d) (status : StateUpdateStatus) (o : Option (BookChange d))
      → Keeps {P = P} (keep_latest event status o)
  unfolding keep_latest
  keep_latest-Keeps event status none w h = h
  keep_latest-Keeps event status (some change) w h =
      if-Keeps (is_accepted status) _ _
        (then-Keeps (append_change event change) (λ kept. pure (and_change change kept))
          (append_change-Keeps event change) (λ kept v k. k))
        (λ v k. k) w h

  keep_change-Keeps :
      (event : BookEvent d) (status : StateUpdateStatus) → Keeps {P = P} (keep_change event status)
  unfolding keep_change
  keep_change-Keeps (a_snapshot s) status w h = h
  keep_change-Keeps (an_update u) status w h =
      keep_latest-Keeps (an_update u) status w.order_book.last_change w h

  keep_event-Keeps :
      (event : BookEvent d) (status : StateUpdateStatus) → Keeps {P = P} (keep_event event status)
  unfolding keep_event
  keep_event-Keeps event status =
      if-Keeps (is_accepted status) _ _
        (then-Keeps _ (keep_change event)
          (then-Keeps (modify (clear_if_snapshot event)) (λ _. append_update event)
            (clear_if_snapshot-IsHeld event) (λ _. append_update-Keeps event))
          (keep_change-Keeps event))
        (λ w h. h)

  append_checkpoint-Keeps :
      (event : BookEvent d) (status : StateUpdateStatus) (c : FeatureBookCheckpoint d P)
      → Keeps (append_checkpoint event status c)
  unfolding append_checkpoint
  append_checkpoint-Keeps event status c =
      then-Keeps _ (λ history. pure (if is_accepted status then history else status))
        (λ w h.
          placed (IsHeld d P) w.book_history (event_time d event) c
            (λ v. record w { book_history = v }) w h.9
            (λ v valid. (h.0, h.1, h.2, h.3, h.4, h.5, h.6, h.7, h.8, valid, h.10)))
        (λ history w h. h)

  pub view_checkpoint-Keeps :
      (r : Result (FeatureBookView d)) (event : BookEvent d) (status : StateUpdateStatus)
      (change : Option (BookChange d))
      → Keeps {P = P} (view_checkpoint r event status change)
  unfolding view_checkpoint
  view_checkpoint-Keeps (raise e) event status change w h = h
  view_checkpoint-Keeps (ok book_view) event status change w h =
      append_checkpoint-Keeps event status (checkpoint event status change book_view) w h

  module _ (a : Arithmetic d.Value) (g : Digests d) (int10 : Int10) where
    apply_book-Keeps : (event : BookEvent d) → Keeps {P = P} (apply_book a g int10 event)
    unfolding apply_book
    apply_book-Keeps event w h = (
      h.0,
      h.1,
      h.2,
      h.3,
      h.4,
      h.5,
      h.6,
      h.7,
      h.8,
      h.9,
      take_event-IsSound d a g int10 event w.order_book h.10,
    )

    pub apply_and_keep-Keeps :
        (event : BookEvent d) (n : ℕ) → Keeps {P = P} (apply_and_keep a g int10 event n)
    unfolding apply_and_keep
    apply_and_keep-Keeps event n =
        then-Keeps (apply_book a g int10 event)
          (λ status. modify (clear_changed n) >> keep_event event status) (apply_book-Keeps event)
          (λ status.
            then-Keeps (modify (clear_changed n)) (λ _. keep_event event status)
              (clear_changed-IsHeld n) (λ _. keep_event-Keeps event status))
