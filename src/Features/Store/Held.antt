-- ===== src/Features/Store/Held.antt =====
-- features/state.py: the invariant of the windows and the book of a `VenueSymbolState`.
use cvf.Prelude.{ℕ, refl, Bool, true, false, ◌==◌, if◌then◌else◌, arith}
use cvf.Outcome.{Result, ok, raise}
use cvf.Exec.{Exec, pure, continue, ◌>>=◌}
use cvf.Time.{aware}
use cvf.Decimals.{Decimals}
use cvf.Features.Rolling.{BoundedTimeWindow, append, clear}
use cvf.Features.Rolling.Kept.{IsValid, append-outcome}
use cvf.Features.Book.{StateUpdateStatus, BookEvent, a_snapshot, an_update, BookChange, event_time}
use cvf.Features.Book.Sound.{IsSound}
use cvf.Features.Store.{
  StatefulType, trade, best_bid_ask, open_interest, funding_rate, mark_price, index_price,
  liquidation, StatefulEvent, Windows, is_accepted, append_status, append_price, and_price,
  append_trade, append_mark, append_stateful, clear_changed, clear_if_snapshot, append_update,
  append_change,
}

clear-IsValid : {T : Type 0} (w : BoundedTimeWindow T) → IsValid w → IsValid (clear w)
unfolding clear
clear-IsValid w h = record {
  retention_positive = h.retention_positive;
  maximum_positive = h.maximum_positive;
  bounded = omega arith;
  ordered = tt;
  inside = refl;
  counted = h.counted;
}

-- A window after an append is valid, so the state it is put back into is as before but for it.
pub placed :
    {A S : Type 0} (Q : S → Type 0) (window : BoundedTimeWindow A) (t : ℕ) (value : A)
    (place : BoundedTimeWindow A → S) (s : S)
    → IsValid window
    → ((w : BoundedTimeWindow A) → IsValid w → Q (place w))
    → Q (append_status (append window (aware t) value) place s).1
unfolding append_status
placed Q window t value place s valid put =
    let after = append-outcome window t value valid in rw after.2 (put _ after.3)

module _ (d : Decimals) (P : Type 0) where
  -- The windows are valid, in the order of the record, and the book is sound.
  abbrev pub IsHeld : Windows d P → Type 0
  IsHeld w =
      IsValid w.trades
      × IsValid w.prices
      × IsValid w.open_interests
      × IsValid w.funding_rates
      × IsValid w.mark_prices
      × IsValid w.index_prices
      × IsValid w.liquidations
      × IsValid w.book_updates
      × IsValid w.book_changes
      × IsValid w.book_history
      × IsSound d w.order_book

module _ {d : Decimals} {P : Type 0} where
  abbrev pub Keeps : {A : Type 0} → Exec (Windows d P) A → Type 0
  Keeps m = (w : Windows d P) → IsHeld d P w → IsHeld d P (m w).1

  pub if-Keeps :
      {A : Type 0} (b : Bool) (x y : Exec (Windows d P) A)
      → Keeps x
      → Keeps y
      → Keeps (if b then x else y)
  if-Keeps true x y h k = h
  if-Keeps false x y h k = k

  pub if-IsHeld :
      {A : Type 0} (b : Bool) (x y : A × Windows d P)
      → IsHeld d P x.1
      → IsHeld d P y.1
      → IsHeld d P (if b then x else y).1
  if-IsHeld true x y h k = h
  if-IsHeld false x y h k = k

  pub continue-IsHeld :
      {A B : Type 0} (r : Result A) (f : A → Exec (Windows d P) B) (w : Windows d P)
      → IsHeld d P w
      → ((x : A) → Keeps (f x))
      → IsHeld d P (continue r f w).1
  continue-IsHeld (ok x) f w h k = k x w h
  continue-IsHeld (raise e) f w h k = h

  -- What runs after a call that returns starts from the windows of that call.
  pub then-Keeps :
      {A B : Type 0} (m : Exec (Windows d P) A) (f : A → Exec (Windows d P) B)
      → Keeps m
      → ((x : A) → Keeps (f x))
      → Keeps (m >>= f)
  then-Keeps m f h k w held = continue-IsHeld (m w).0 f (m w).1 (h w held) k

  append_trade-Keeps : (event : StatefulEvent P) → Keeps (append_trade event)
  unfolding append_trade
  append_trade-Keeps event w h =
      placed (IsHeld d P) w.trades event.exchange_timestamp event (λ v. record w { trades = v }) w
        h.0 (λ v valid. (valid, h.1, h.2, h.3, h.4, h.5, h.6, h.7, h.8, h.9, h.10))

  append_price-Keeps : (event : StatefulEvent P) → Keeps (append_price event)
  unfolding append_price
  append_price-Keeps event w h =
      placed (IsHeld d P) w.prices event.exchange_timestamp event (λ v. record w { prices = v }) w
        h.1 (λ v valid. (h.0, valid, h.2, h.3, h.4, h.5, h.6, h.7, h.8, h.9, h.10))

  append_mark-Keeps : (event : StatefulEvent P) → Keeps (append_mark event)
  unfolding append_mark
  append_mark-Keeps event w h =
      placed (IsHeld d P) w.mark_prices event.exchange_timestamp event
        (λ v. record w { mark_prices = v }) w h.4
        (λ v valid. (h.0, h.1, h.2, h.3, valid, h.5, h.6, h.7, h.8, h.9, h.10))

  and_price-Keeps :
      (event : StatefulEvent P) (status : StateUpdateStatus) → Keeps (and_price event status)
  unfolding and_price
  and_price-Keeps event status =
      if-Keeps (is_accepted status) (append_price event) (pure status) (append_price-Keeps event)
        (λ w h. h)

  pub append_stateful-Keeps :
      (type : StatefulType) (event : StatefulEvent P) → Keeps (append_stateful type event)
  unfolding append_stateful
  append_stateful-Keeps trade event w h =
      then-Keeps (append_trade event) (and_price event) (append_trade-Keeps event)
        (and_price-Keeps event) w h
  append_stateful-Keeps best_bid_ask event w h = append_price-Keeps event w h
  append_stateful-Keeps mark_price event w h =
      then-Keeps (append_mark event) (and_price event) (append_mark-Keeps event)
        (and_price-Keeps event) w h
  append_stateful-Keeps open_interest event w h =
      placed (IsHeld d P) w.open_interests event.exchange_timestamp event
        (λ v. record w { open_interests = v }) w h.2
        (λ v valid. (h.0, h.1, valid, h.3, h.4, h.5, h.6, h.7, h.8, h.9, h.10))
  append_stateful-Keeps funding_rate event w h =
      placed (IsHeld d P) w.funding_rates event.exchange_timestamp event
        (λ v. record w { funding_rates = v }) w h.3
        (λ v valid. (h.0, h.1, h.2, valid, h.4, h.5, h.6, h.7, h.8, h.9, h.10))
  append_stateful-Keeps index_price event w h =
      placed (IsHeld d P) w.index_prices event.exchange_timestamp event
        (λ v. record w { index_prices = v }) w h.5
        (λ v valid. (h.0, h.1, h.2, h.3, h.4, valid, h.6, h.7, h.8, h.9, h.10))
  append_stateful-Keeps liquidation event w h =
      placed (IsHeld d P) w.liquidations event.exchange_timestamp event
        (λ v. record w { liquidations = v }) w h.6
        (λ v valid. (h.0, h.1, h.2, h.3, h.4, h.5, valid, h.7, h.8, h.9, h.10))

  either-IsHeld :
      (b : Bool) (w v : Windows d P) → IsHeld d P w → IsHeld d P v → IsHeld d P (if b then w else v)
  either-IsHeld true w v h k = h
  either-IsHeld false w v h k = k

  pub clear_changed-IsHeld :
      (n : ℕ) (w : Windows d P) → IsHeld d P w → IsHeld d P (clear_changed n w)
  unfolding clear_changed
  clear_changed-IsHeld n w h = either-IsHeld (w.order_book.generation == n) w _ h (
    h.0,
    h.1,
    h.2,
    h.3,
    h.4,
    h.5,
    h.6,
    clear-IsValid w.book_updates h.7,
    clear-IsValid w.book_changes h.8,
    h.9,
    h.10,
  )

  pub clear_if_snapshot-IsHeld :
      (event : BookEvent d) (w : Windows d P)
      → IsHeld d P w
      → IsHeld d P (clear_if_snapshot event w)
  unfolding clear_if_snapshot
  clear_if_snapshot-IsHeld (a_snapshot s) w h =
      (h.0, h.1, h.2, h.3, h.4, h.5, h.6, clear-IsValid w.book_updates h.7, h.8, h.9, h.10)
  clear_if_snapshot-IsHeld (an_update u) w h = h

  pub append_update-Keeps : (event : BookEvent d) → Keeps (append_update event)
  unfolding append_update
  append_update-Keeps event w h =
      placed (IsHeld d P) w.book_updates (event_time d event) event
        (λ v. record w { book_updates = v }) w h.7
        (λ v valid. (h.0, h.1, h.2, h.3, h.4, h.5, h.6, valid, h.8, h.9, h.10))

  pub append_change-Keeps :
      (event : BookEvent d) (change : BookChange d) → Keeps (append_change event change)
  unfolding append_change
  append_change-Keeps event change w h =
      placed (IsHeld d P) w.book_changes (event_time d event) change
        (λ v. record w { book_changes = v }) w h.8
        (λ v valid. (h.0, h.1, h.2, h.3, h.4, h.5, h.6, h.7, valid, h.9, h.10))
