-- ===== src/Features/Store/Pipeline.antt =====
-- features/pipeline.py: `FeatureStatePipeline`, which hands every event to the store and counts the
-- answers. It is called by one consumer, so a call is one step.
use Prim.Native.String.{String}
use cvf.Prelude.{ℕ, ◌+◌, ◌≡◌, Bool, true, false, if◌then◌else◌, arith}
use cvf.Outcome.{Result, ok, raise}
use cvf.Exec.{Exec}
use cvf.Decimals.{Decimals}
use cvf.Exchanges.Symbols.{Exchange}
use cvf.Features.Book.{
  StateUpdateStatus, accepted, late_dropped, expired_dropped, stale_generation, stale_sequence,
  buffered_for_snapshot, book_invalidated, Int10, Arithmetic, Digests,
}
use cvf.Features.Store.{HealthEvent, StateEvent, is_accepted}
use cvf.Features.Store.Created.{MarketStateStore, venue_of}
use cvf.Features.Store.Market.{ingest, update_health}

-- `ingest` sends health events to `update_health`.
pub data NormalizedEvent (d : Decimals) (P : Type 0) : Type 0 where
  health : HealthEvent → NormalizedEvent d P
  market : StateEvent d P → NormalizedEvent d P

-- `Counter` as a function, since its keys are the seven statuses.
pub record FeatureStatePipeline (d : Decimals) (P : Type 0) : Type 0 where
  pub store : MarketStateStore d P
  pub status_counts : StateUpdateStatus → ℕ
  pub accepted_count : ℕ
  pub rejected_count : ℕ

unfoldable pub status_eq : StateUpdateStatus → StateUpdateStatus → Bool
status_eq accepted accepted = true
status_eq late_dropped late_dropped = true
status_eq expired_dropped expired_dropped = true
status_eq stale_generation stale_generation = true
status_eq stale_sequence stale_sequence = true
status_eq buffered_for_snapshot buffered_for_snapshot = true
status_eq book_invalidated book_invalidated = true
status_eq _ _ = false

unfoldable pub rejected_in : (StateUpdateStatus → ℕ) → ℕ
rejected_in counts =
    counts late_dropped
    + counts expired_dropped
    + counts stale_generation
    + counts stale_sequence
    + counts buffered_for_snapshot
    + counts book_invalidated

module _ {d : Decimals} {P : Type 0} where
  unfoldable pub record_status :
      StateUpdateStatus → FeatureStatePipeline d P → FeatureStatePipeline d P
  unfolding status_eq is_accepted
  record_status status p = record p {
    status_counts = λ s. if status_eq s status then p.status_counts s + 1 else p.status_counts s;
    accepted_count = if is_accepted status then p.accepted_count + 1 else p.accepted_count;
    rejected_count = if is_accepted status then p.rejected_count else p.rejected_count + 1;
  }

  unfoldable pub record_result :
      Result StateUpdateStatus
      → FeatureStatePipeline d P
      → Result (Unit {0}) × FeatureStatePipeline d P
  unfolding record_status
  record_result (raise e) p = (raise e, p)
  record_result (ok status) p = (ok tt, record_status status p)

  unfoldable pub ingest_event :
      Arithmetic d.Value
      → Digests d
      → Int10
      → Exchange
      → String
      → NormalizedEvent d P
      → Exec (MarketStateStore d P) StateUpdateStatus
  unfolding ingest update_health venue_of
  ingest_event a g int10 exchange symbol (health event) =
      update_health (venue_of exchange) symbol event
  ingest_event a g int10 exchange symbol (market event) = ingest a g int10 exchange symbol event

  unfoldable pub consume :
      Arithmetic d.Value
      → Digests d
      → Int10
      → Exchange
      → String
      → NormalizedEvent d P
      → Exec (FeatureStatePipeline d P) (Unit {0})
  unfolding ingest_event record_result
  consume a g int10 exchange symbol event p =
      let (r, m) = ingest_event a g int10 exchange symbol event p.store in
      record_result r (record p { store = m })

  -- The two counters are those of the statuses.
  pub record IsTallied (p : FeatureStatePipeline d P) : Type 0 where
    pub of_accepted : p.status_counts accepted ≡ p.accepted_count
    pub of_rejected : rejected_in p.status_counts ≡ p.rejected_count

  record_status-IsTallied :
      (status : StateUpdateStatus) (p : FeatureStatePipeline d P)
      → IsTallied p
      → IsTallied (record_status status p)
  unfolding record_status status_eq is_accepted rejected_in
  record_status-IsTallied accepted p h = record {
    of_accepted = omega (arith, h.of_accepted);
    of_rejected = h.of_rejected;
  }
  record_status-IsTallied late_dropped p h = record {
    of_accepted = h.of_accepted;
    of_rejected = omega (arith, h.of_rejected);
  }
  record_status-IsTallied expired_dropped p h = record {
    of_accepted = h.of_accepted;
    of_rejected = omega (arith, h.of_rejected);
  }
  record_status-IsTallied stale_generation p h = record {
    of_accepted = h.of_accepted;
    of_rejected = omega (arith, h.of_rejected);
  }
  record_status-IsTallied stale_sequence p h = record {
    of_accepted = h.of_accepted;
    of_rejected = omega (arith, h.of_rejected);
  }
  record_status-IsTallied buffered_for_snapshot p h = record {
    of_accepted = h.of_accepted;
    of_rejected = omega (arith, h.of_rejected);
  }
  record_status-IsTallied book_invalidated p h = record {
    of_accepted = h.of_accepted;
    of_rejected = omega (arith, h.of_rejected);
  }

  record_result-IsTallied :
      (r : Result StateUpdateStatus) (p : FeatureStatePipeline d P)
      → IsTallied p
      → IsTallied (record_result r p).1
  unfolding record_result
  record_result-IsTallied (raise e) p h = h
  record_result-IsTallied (ok status) p h = record_status-IsTallied status p h

  -- After any event, also one that raises, the accepted events are those counted under `accepted` and the
  -- rejected ones those counted under the six other statuses, if that was so before.
  pub consume-IsTallied :
      (a : Arithmetic d.Value) (g : Digests d) (int10 : Int10) (exchange : Exchange)
      (symbol : String) (event : NormalizedEvent d P) (p : FeatureStatePipeline d P)
      → IsTallied p
      → IsTallied (consume a g int10 exchange symbol event p).1
  unfolding consume
  consume-IsTallied a g int10 exchange symbol event p h =
      let (r, m) = ingest_event a g int10 exchange symbol event p.store in
      record_result-IsTallied r (record p { store = m })
        (record { of_accepted = h.of_accepted; of_rejected = h.of_rejected })
