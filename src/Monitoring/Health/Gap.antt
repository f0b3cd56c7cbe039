-- ===== src/Monitoring/Health/Gap.antt =====
-- A stream that has lost its sequence is not reported healthy before its book is live again.
use Prim.Native.String.{String}
use cvf.Prelude.{
  ℕ, ◌≡◌, refl, Bool, true, false, Option, List, [], ◌∷◌, All, ℤ, pos, negsuc, ◌⊎◌, inl, inr,
  Bool-cases,
}
use cvf.Outcome.{Result-cases}
use cvf.Exec.{Exec}
use cvf.Time.{DateTime}
use cvf.Monitoring.Health.{
  Floats, StreamState, mark_connected, mark_disconnected, record_reconnect, record_resubscribe,
  message_times, message_at, record_message, record_duplicate, mark_resyncing, record_sequence_gap,
  record_checksum_failure, mark_book_live, record_parse_error, record_drop, record_rest_result,
}
use cvf.Monitoring.Health.Status.{resyncing, disconnected, Thresholds, status_at}

module _ (f : Floats) where
  -- The registry's methods that change the state of a key.
  pub data Event : Type 0 where
    connects : DateTime → Event
    disconnects : Option String → Event
    reconnects : Option String → Event
    resubscribes : Event
    message : DateTime → DateTime → DateTime → Option f.Value → Bool → Event
    duplicate : Event
    resync : ℤ → String → Event
    sequence_gap : ℤ → Event
    checksum_failure : ℤ → Event
    book_live : ℤ → Event
    parse_error : String → Event
    drop : Bool → Event
    rest_result : Bool → Option String → Event

module _ {f : Floats} where
  unfoldable pub take_event : Event f → Exec (StreamState f) (Unit {0})
  take_event (connects at) = mark_connected at
  take_event (disconnects error) = mark_disconnected error
  take_event (reconnects error) = record_reconnect error
  take_event resubscribes = record_resubscribe
  take_event (message e r n skew oi) = record_message e r n skew oi
  take_event duplicate = record_duplicate
  take_event (resync g reason) = mark_resyncing g reason
  take_event (sequence_gap g) = record_sequence_gap g
  take_event (checksum_failure g) = record_checksum_failure g
  take_event (book_live g) = mark_book_live g
  take_event (parse_error error) = record_parse_error error
  take_event (drop backpressure) = record_drop backpressure
  take_event (rest_result healthy error) = record_rest_result healthy error

  -- The state after some events; one that raises does not stop the next.
  abbrev pub after_events : List (Event f) → StreamState f → StreamState f
  after_events [] s = s
  after_events (e ∷ es) s = after_events es (take_event e s).1

  -- Neither the book's return to live nor a disconnection.
  abbrev pub KeepsGap : Event f → Type 0
  KeepsGap (book_live g) = ⊥
  KeepsGap (disconnects error) = ⊥
  KeepsGap e = Unit

  abbrev Lost : StreamState f → Type 0
  Lost s = (s.resyncing ≡ true) × (s.sequence_gap_detected ≡ true)

  take_event-Lost :
      (e : Event f) (s : StreamState f) → KeepsGap e → Lost s → Lost (take_event e s).1
  unfolding take_event mark_connected record_reconnect record_resubscribe record_message message_at
      record_duplicate mark_resyncing record_sequence_gap record_checksum_failure record_parse_error
      record_drop record_rest_result
  take_event-Lost (connects (DateTime.aware t)) s k h = h
  take_event-Lost (connects (DateTime.naive t)) s k h = h
  take_event-Lost (disconnects error) s k h = absurd k
  take_event-Lost (reconnects error) s k h = h
  take_event-Lost resubscribes s k h = h
  take_event-Lost (message e r n skew oi) s k h = elim (Result-cases (message_times e r n)) [
    | inl (times, q) ↦ rw (q, record_message) h
    | inr (x, q) ↦ rw (q, record_message) h
  ]
  take_event-Lost duplicate s k h = h
  take_event-Lost (resync (pos g) reason) s k h = (refl, h.1)
  take_event-Lost (resync (negsuc g) reason) s k h = h
  take_event-Lost (sequence_gap (pos g)) s k h = (refl, refl)
  take_event-Lost (sequence_gap (negsuc g)) s k h = (h.0, refl)
  take_event-Lost (checksum_failure (pos g)) s k h = (refl, h.1)
  take_event-Lost (checksum_failure (negsuc g)) s k h = h
  take_event-Lost (book_live g) s k h = absurd k
  take_event-Lost (parse_error error) s k h = h
  take_event-Lost (drop backpressure) s k h = h
  take_event-Lost (rest_result true error) s k h = h
  take_event-Lost (rest_result false error) s k h = h

  after_events-Lost :
      (es : List (Event f)) (s : StreamState f)
      → All KeepsGap es
      → Lost s
      → Lost (after_events es s)
  after_events-Lost [] s k h = h
  after_events-Lost (e ∷ es) s k h =
      after_events-Lost es (take_event e s).1 k.1 (take_event-Lost e s k.0 h)

  status_at-Lost :
      (t : Thresholds) (channel : String) (now : ℕ) (c : StreamState f)
      → Lost c
      → (status_at f t channel now c ≡ resyncing) ⊎ (status_at f t channel now c ≡ disconnected)
  unfolding status_at
  status_at-Lost t channel now c h = elim (Bool-cases c.is_connected) [
    | inl e ↦ rw e (rw (h.0) (inl refl))
    | inr e ↦ rw e (inr refl)
  ]

  record_sequence_gap-Lost : (g : ℕ) (s : StreamState f) → Lost (record_sequence_gap (pos g) s).1
  unfolding record_sequence_gap mark_resyncing
  record_sequence_gap-Lost g s = (refl, refl)

  -- After a recorded sequence gap with a valid generation, and until the book is marked live or the
  -- stream is marked disconnected, whatever else is recorded and whatever of it raises: the gap stays
  -- detected, and at every time the status is RESYNCING or, for a stream that is not connected,
  -- DISCONNECTED.
  pub status_at-record_sequence_gap :
      (t : Thresholds) (channel : String) (now : ℕ) (g : ℕ) (es : List (Event f))
      (s : StreamState f)
      → All KeepsGap es
      → ((after_events es (record_sequence_gap (pos g) s).1).sequence_gap_detected ≡ true)
        × ((status_at f t channel now (after_events es (record_sequence_gap (pos g) s).1)
              ≡ resyncing)
            ⊎ (status_at f t channel now (after_events es (record_sequence_gap (pos g) s).1)
                ≡ disconnected))
  status_at-record_sequence_gap t channel now g es s k =
      let h =
        after_events-Lost es (record_sequence_gap (pos g) s).1 k (record_sequence_gap-Lost g s) in
      (h.1, status_at-Lost t channel now _ h)
