-- ===== src/Features/Store/MarketHeld.antt =====
-- features/state.py: every state of a `MarketStateStore` keeps its invariant.
use Prim.Native.String.{String}
use cvf.Prelude.{◌≡◌, refl, Bool, true, false, Option, none, some, [], ◌∷◌, All, if◌then◌else◌}
use mathlib.Core.Logic.{ite}
use cvf.Outcome.{Result, ok, raise}
use cvf.Exec.{Exec}
use cvf.Decimals.{Decimals}
use cvf.Dict.{Dict, lookup, assign}
use cvf.Monitoring.Health.Status.{HealthStatus}
use cvf.Features.Rolling.Kept.{IsValid}
use cvf.Features.Store.{HealthEvent, VenueSymbolState, is_accepted}
use cvf.Features.Store.Held.{placed}
use cvf.Features.Store.StateHeld.{Holds, Saves, continue-Holds}
use cvf.Features.Store.Ingest.{put_health, set_channel, ingest_health}
use cvf.Features.Store.Created.{
  Venue, same_venue, StateKey, state_key_discrete, MarketStateStore, create_state,
  create_state-Holds,
}
use cvf.Features.Store.Market.{put_back, put_state, run_created, run_found, on_state, set_channels}

assign-All :
    {K V : Type 0} (dec : Discrete K) (Q : V → Type 0) (k : K) (v : V) (m : Dict K V)
    → Q v
    → All (λ (e : K × V). Q e.1) m
    → All (λ (e : K × V). Q e.1) (assign dec k v m)
unfolding assign
assign-All dec Q k v [] h a = (h, tt)
assign-All dec Q k v ((j, w) ∷ m) h a =
    elim (dec j k)
      as (λ c. All (λ (e : _ × _). Q e.1) (ite c ((j, v) ∷ m) ((j, w) ∷ assign dec k v m))) [
        | yes e ↦ (h, a.1)
        | no n ↦ (a.0, assign-All dec Q k v m h a.1)
      ]

abbrev IfFound : {V : Type 0} → (V → Type 0) → Option V → Type 0
IfFound Q none = Unit {0}
IfFound Q (some v) = Q v

lookup-IfFound :
    {K V : Type 0} (dec : Discrete K) (Q : V → Type 0) (k : K) (m : Dict K V)
    → All (λ (e : K × V). Q e.1) m
    → IfFound Q (lookup dec k m)
unfolding lookup
lookup-IfFound dec Q k [] a = tt
lookup-IfFound dec Q k ((j, w) ∷ m) a =
    elim (dec j k) as (λ c. IfFound Q (ite c (some w) (lookup dec k m))) [
      | yes e ↦ a.0
      | no n ↦ lookup-IfFound dec Q k m a.1
    ]

module _ {d : Decimals} {P : Type 0} where
  -- What every state satisfies, and the health windows of the exchanges.
  pub record Kept (m : MarketStateStore d P) : Type 0 where
    pub each : All (λ (e : StateKey × VenueSymbolState d P). Holds e.1) m.states
    pub health : (venue : Venue) → IsValid (m.exchange_health_events venue)

  put_back-Kept :
      {A : Type 0} (key : StateKey) (m : MarketStateStore d P) (r : Result A × VenueSymbolState d P)
      → Kept m
      → Holds r.1
      → Kept (put_back (put_state key m) r).1
  unfolding put_back put_state
  put_back-Kept key m (r, s) h k = record {
    each = assign-All state_key_discrete Holds key s m.states k h.each;
    health = h.health;
  }

  run_created-Kept :
      {A : Type 0} (key : StateKey) (method : Exec (VenueSymbolState d P) A)
      (r : Result (VenueSymbolState d P)) (m : MarketStateStore d P)
      → Saves method
      → ((s : VenueSymbolState d P) → r ≡ ok s → Holds s)
      → Kept m
      → Kept (run_created key method r m).1
  unfolding run_created
  run_created-Kept key method (raise e) m saves made h = h
  run_created-Kept key method (ok s) m saves made h =
      put_back-Kept key m (method s) h (saves s (made s refl))

  run_found-Kept :
      {A : Type 0} (key : StateKey) (method : Exec (VenueSymbolState d P) A)
      (o : Option (VenueSymbolState d P)) (m : MarketStateStore d P)
      → Saves method
      → IfFound Holds o
      → Kept m
      → Kept (run_found key method o m).1
  unfolding run_found
  run_found-Kept key method none m saves found h =
      run_created-Kept key method (create_state d P m.config) m saves
        (create_state-Holds d P m.config) h
  run_found-Kept key method (some s) m saves found h =
      put_back-Kept key m (method s) h (saves s found)

  pub on_state-Kept :
      {A : Type 0} (venue : Option Venue) (symbol : String) (method : Exec (VenueSymbolState d P) A)
      (m : MarketStateStore d P)
      → Saves method
      → Kept m
      → Kept (on_state venue symbol method m).1
  unfolding on_state
  on_state-Kept none symbol method m saves h = h
  on_state-Kept (some venue) symbol method m saves h =
      run_found-Kept (venue, symbol) method _ m saves
        (lookup-IfFound state_key_discrete Holds (venue, symbol) m.states h.each) h

  pub set_channel-Holds :
      (channel : String) (status : HealthStatus) (s : VenueSymbolState d P)
      → Holds s
      → Holds (set_channel channel status s)
  unfolding set_channel
  set_channel-Holds channel status s h = h

  set_if-Holds :
      (b : Bool) (channel : String) (status : HealthStatus) (s : VenueSymbolState d P)
      → Holds s
      → Holds (if b then set_channel channel status s else s)
  set_if-Holds true channel status s h = set_channel-Holds channel status s h
  set_if-Holds false channel status s h = h

  put_health-Saves : (health : HealthEvent) → Saves {d = d} {P = P} (put_health health)
  unfolding put_health
  put_health-Saves health s h =
      placed Holds s.health_events health.exchange_timestamp health
        (λ v. record s { health_events = v }) s h.1 (λ v valid. (h.0, valid))

  pub ingest_health-Saves : (health : HealthEvent) → Saves {d = d} {P = P} (ingest_health health)
  unfolding ingest_health
  ingest_health-Saves health s h =
      continue-Holds _ _ _ (put_health-Saves health s h)
        (λ status v k. set_if-Holds (is_accepted status) health.channel health.status v k)

  pub set_channels-All :
      (venue : Venue) (channel : String) (status : HealthStatus)
      (states : Dict StateKey (VenueSymbolState d P))
      → All (λ (e : StateKey × VenueSymbolState d P). Holds e.1) states
      → All
          (λ (e : StateKey × VenueSymbolState d P). Holds e.1)
          (set_channels venue channel status states)
  unfolding set_channels
  set_channels-All venue channel status [] h = tt
  set_channels-All venue channel status ((key, s) ∷ states) h = (
    set_if-Holds (same_venue key.0 venue) channel status s h.0,
    set_channels-All venue channel status states h.1,
  )
