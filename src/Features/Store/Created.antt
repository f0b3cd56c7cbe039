-- ===== src/Features/Store/Created.antt =====
-- features/state.py: `MarketStateStore` with `_create_state`, and what is made there.
use Prim.Native.String.{String}
use mathlib.Core.Path.{subst}
use cvf.Prelude.{
  ℕ, ◌≡◌, refl, ap, Bool, true, false, Option, none, some, [], pos, zero, suc, if◌then◌else◌, arith,
}
use cvf.Outcome.{Result, ok, bind_ok, ok_injective, raise_not_ok, ◌>>=◌}
use cvf.Decimals.{Decimals}
use cvf.Dict.{Dict, text_discrete}
use cvf.Exchanges.Symbols.{Exchange, binance, okx}
use cvf.Features.Rolling.{BoundedTimeWindow, LateEventPolicy}
use cvf.Features.Rolling as Rolling
use cvf.Features.Rolling.Kept.{IsValid}
use cvf.Features.Book as Book
use cvf.Features.Book.Sound.{IsSound, off-IsSound}
use cvf.Features.Store.{HealthEvent, VenueSymbolState, Windows}
use cvf.Features.Store.StateHeld.{Holds}
use cvf.Features.Store.Ingest.{StoreConfig, window_of}

-- The exchanges that have states.
pub data Venue : Type 0 where
  binance_venue okx_venue : Venue

unfoldable pub venue_discrete : Discrete Venue
venue_discrete binance_venue binance_venue = yes refl
venue_discrete okx_venue okx_venue = yes refl
venue_discrete binance_venue okx_venue = no (λ e. absurd (cc))
venue_discrete okx_venue binance_venue = no (λ e. absurd (cc))

unfoldable pub same_venue : Venue → Venue → Bool
same_venue binance_venue binance_venue = true
same_venue okx_venue okx_venue = true
same_venue _ _ = false

-- The test for a concrete exchange.
unfoldable pub venue_of : Exchange → Option Venue
venue_of binance = some binance_venue
venue_of okx = some okx_venue
venue_of _ = none

abbrev pub StateKey : Type 0
StateKey = Venue × String

unfoldable decide_state_key : (a b : StateKey) → Dec (a.0 ≡ b.0) → Dec (a.1 ≡ b.1) → Dec (a ≡ b)
decide_state_key a b (yes p) (yes q) = yes (λ i. (p i, q i))
decide_state_key a b (yes p) (no n) = no (λ e. n (ap (λ (k : StateKey). k.1) e))
decide_state_key a b (no n) q = no (λ e. n (ap (λ (k : StateKey). k.0) e))

unfoldable pub state_key_discrete : Discrete StateKey
unfolding decide_state_key venue_discrete text_discrete
state_key_discrete a b = decide_state_key a b (venue_discrete a.0 b.0) (text_discrete a.1 b.1)

module _ (d : Decimals) (P : Type 0) where
  pub record MarketStateStore : Type 0 where
    pub config : StoreConfig
    pub exchange_health_events : Venue → BoundedTimeWindow HealthEvent
    pub states : Dict StateKey (VenueSymbolState d P)

  -- `_create_state`; the two windows of the book's events have bounds of their own.
  unfoldable pub create_state : StoreConfig → Result (VenueSymbolState d P)
  unfolding window_of
  create_state config = do
    trades ← window_of config config.late_policy config.maximum_lateness
    prices ← window_of config config.late_policy config.maximum_lateness
    open_interests ← window_of config config.late_policy config.maximum_lateness
    funding_rates ← window_of config config.late_policy config.maximum_lateness
    mark_prices ← window_of config config.late_policy config.maximum_lateness
    index_prices ← window_of config config.late_policy config.maximum_lateness
    liquidations ← window_of config config.late_policy config.maximum_lateness
    book_updates ← window_of config LateEventPolicy.drop 0
    book_changes ← window_of config config.late_policy config.maximum_lateness
    book_history ← window_of config LateEventPolicy.insert config.retention
    health_events ← window_of config config.late_policy config.maximum_lateness
    order_book ← Book.init d (pos config.book_pending_updates)
    let windows : Windows d P = record {
      trades = trades;
      prices = prices;
      open_interests = open_interests;
      funding_rates = funding_rates;
      mark_prices = mark_prices;
      index_prices = index_prices;
      liquidations = liquidations;
      book_updates = book_updates;
      book_changes = book_changes;
      book_history = book_history;
      order_book = order_book;
    }
    ok (record {
      windows = windows;
      health_events = health_events;
      latest_by_type = λ type. none;
      health_by_channel = [];
      accepted_events = 0;
      rejected_events = 0;
    })

  -- `__init__`.
  unfoldable pub init : StoreConfig → Result MarketStateStore
  unfolding window_of
  init config = do
    on_binance ← window_of config config.late_policy config.maximum_lateness
    on_okx ← window_of config config.late_policy config.maximum_lateness
    ok (record {
      config = config;
      exchange_health_events =
          λ venue. if same_venue venue binance_venue then on_binance else on_okx;
      states = [];
    })

abbrev pub Yields : {A : Type 0} → (A → Type 0) → Result A → Type 0
Yields Q r = (x : _) → r ≡ ok x → Q x

pub bind-Yields :
    {A B : Type 0} (Q : A → Type 0) (R : B → Type 0) (r : Result A) (f : A → Result B)
    → Yields Q r
    → ((x : A) → Q x → Yields R (f x))
    → Yields R (r >>= f)
bind-Yields Q R r f h k b e = let (x, p, q) = bind_ok r f b e in k x (h x p) b q

rolling_init-IsValid :
    {A : Type 0} (r m : ℕ) (policy : LateEventPolicy) (l : ℕ) (w : BoundedTimeWindow A)
    → Rolling.init (pos r) (pos m) policy (pos l) ≡ ok w
    → IsValid w
unfolding Rolling.init
rolling_init-IsValid zero m policy l w h = absurd (raise_not_ok h)
rolling_init-IsValid (suc r) zero policy l w h = absurd (raise_not_ok h)
rolling_init-IsValid (suc r) (suc m) policy l w h = subst IsValid (ok_injective h) (record {
  retention_positive = omega arith;
  maximum_positive = omega arith;
  bounded = omega arith;
  ordered = tt;
  inside = refl;
  counted = refl;
})

pub window_of-Yields :
    {A : Type 0} (config : StoreConfig) (policy : LateEventPolicy) (lateness : ℕ)
    → Yields (λ (w : BoundedTimeWindow A). IsValid w) (window_of config policy lateness)
unfolding window_of
window_of-Yields config policy lateness w h = rolling_init-IsValid _ _ policy lateness w h

book_init-IsSound : (d : Decimals) (n : ℕ) → Yields (IsSound d) (Book.init d (pos n))
unfolding Book.init
book_init-IsSound d zero b h = absurd (raise_not_ok h)
book_init-IsSound d (suc n) b h =
    subst (IsSound d) (ok_injective h) (off-IsSound d _ refl refl (omega arith) tt (omega arith))

-- A state that is made has empty windows and an empty book, which are as every call keeps them.
pub create_state-Holds :
    (d : Decimals) (P : Type 0) (config : StoreConfig) (s : VenueSymbolState d P)
    → create_state d P config ≡ ok s
    → Holds s
unfolding create_state
create_state-Holds d P config =
    bind-Yields IsValid Holds _ _
      (window_of-Yields config config.late_policy config.maximum_lateness)
      (λ trades h0.
        bind-Yields IsValid Holds _ _
          (window_of-Yields config config.late_policy config.maximum_lateness)
          (λ prices h1.
            bind-Yields IsValid Holds _ _
              (window_of-Yields config config.late_policy config.maximum_lateness)
              (λ open_interests h2.
                bind-Yields IsValid Holds _ _
                  (window_of-Yields config config.late_policy config.maximum_lateness)
                  (λ funding_rates h3.
                    bind-Yields IsValid Holds _ _
                      (window_of-Yields config config.late_policy config.maximum_lateness)
                      (λ mark_prices h4.
                        bind-Yields IsValid Holds _ _
                          (window_of-Yields config config.late_policy config.maximum_lateness)
                          (λ index_prices h5.
                            bind-Yields IsValid Holds _ _
                              (window_of-Yields config config.late_policy config.maximum_lateness)
                              (λ liquidations h6.
                                bind-Yields IsValid Holds _ _
                                  (window_of-Yields config LateEventPolicy.drop 0)
                                  (λ book_updates h7.
                                    bind-Yields IsValid Holds _ _
                                      (window_of-Yields config config.late_policy
                                        config.maximum_lateness)
                                      (λ book_changes h8.
                                        bind-Yields IsValid Holds _ _
                                          (window_of-Yields config LateEventPolicy.insert
                                            config.retention)
                                          (λ book_history h9.
                                            bind-Yields IsValid Holds _ _
                                              (window_of-Yields config config.late_policy
                                                config.maximum_lateness)
                                              (λ health_events h10.
                                                bind-Yields (IsSound d) Holds _ _
                                                  (book_init-IsSound d config.book_pending_updates)
                                                  (λ order_book h11 s e.
                                                    subst Holds (ok_injective e) (
                                                      (h0, h1, h2, h3, h4, h5, h6, h7, h8, h9, h11),
                                                      h10,
                                                    )))))))))))))
