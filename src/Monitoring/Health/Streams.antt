-- ===== src/Monitoring/Health/Streams.antt =====
-- monitoring/health.py: the methods of `StreamHealthRegistry` on its dictionary of streams.
use mathlib.Core.Logic.{ite}
use cvf.Prelude.{
  ℕ, ◌≡◌, refl, sym, ap, ◌∙◌, Bool, true, false, Option, some, List, [], ◌∷◌, All, pos, negsuc, ◌⊎◌,
  inl, inr, Bool-cases, true_not_false, if◌then◌else◌,
}
use mathlib.Core.Path.{subst⁻¹}
use cvf.Outcome.{ok, raise, value_error}
use cvf.Exec.{Exec}
use cvf.Dict.{lookup, lookup-assign, ite_yes, ite_same}
use cvf.Time.{aware}
use cvf.Monitoring.Health.{Floats, StreamState, mark_resyncing, mark_book_live, record_sequence_gap}
use cvf.Monitoring.Health.Status.{resyncing, disconnected, status_at}
use cvf.Monitoring.Health.Registry.{
  StreamKey, key_discrete, StreamHealthRegistry, StreamHealthSnapshot, or_fresh, state_of, store,
  snapshot_at, snapshot,
}
use cvf.Monitoring.Health.Gap.{
  Event, connects, disconnects, reconnects, resubscribes, message, duplicate, resync, sequence_gap,
  checksum_failure, book_live, parse_error, drop, rest_result, take_event, after_events, KeepsGap,
  status_at-record_sequence_gap,
}

module _ {f : Floats} where
  -- `mark_resyncing` and `mark_book_live` test the generation before they ask for the state.
  unfoldable pub is_refused : Event f → Bool
  is_refused (resync (negsuc g) reason) = true
  is_refused (book_live (negsuc g)) = true
  is_refused _ = false

  -- A method of the registry, called for a key.
  unfoldable pub record_event : StreamKey → Event f → Exec (StreamHealthRegistry f) (Unit {0})
  unfolding is_refused take_event state_of store
  record_event key event registry =
      if is_refused event
      then (raise value_error, registry)
      else (let (r, s) = take_event event (state_of key registry) in (r, store key registry s))

  -- Calls for any keys; one that raises does not stop the next.
  unfoldable pub record_events :
      List (StreamKey × Event f) → StreamHealthRegistry f → StreamHealthRegistry f
  unfolding record_event
  record_events [] registry = registry
  record_events ((key, event) ∷ events) registry =
      record_events events (record_event key event registry).1

  -- The events of one key.
  unfoldable pub own : StreamKey → List (StreamKey × Event f) → List (Event f)
  unfolding key_discrete
  own key [] = []
  own key ((other, event) ∷ events) =
      let rest = own key events in ite (key_discrete other key) (event ∷ rest) rest

  refused_same :
      (event : Event f) (s : StreamState f) → is_refused event ≡ true → (take_event event s).1 ≡ s
  unfolding is_refused take_event mark_resyncing mark_book_live
  refused_same (resync (negsuc g) reason) s h = refl
  refused_same (book_live (negsuc g)) s h = refl
  refused_same (resync (pos g) reason) s h = absurd (true_not_false h refl)
  refused_same (book_live (pos g)) s h = absurd (true_not_false h refl)
  refused_same (connects at) s h = absurd (true_not_false h refl)
  refused_same (disconnects error) s h = absurd (true_not_false h refl)
  refused_same (reconnects error) s h = absurd (true_not_false h refl)
  refused_same resubscribes s h = absurd (true_not_false h refl)
  refused_same (message e r n skew oi) s h = absurd (true_not_false h refl)
  refused_same duplicate s h = absurd (true_not_false h refl)
  refused_same (sequence_gap g) s h = absurd (true_not_false h refl)
  refused_same (checksum_failure g) s h = absurd (true_not_false h refl)
  refused_same (parse_error error) s h = absurd (true_not_false h refl)
  refused_same (drop backpressure) s h = absurd (true_not_false h refl)
  refused_same (rest_result healthy error) s h = absurd (true_not_false h refl)

  or_fresh-ite :
      {P : Type 0} (o : Dec P) (s : StreamState f) (x : Option (StreamState f))
      → or_fresh (ite o (some s) x) ≡ ite o s (or_fresh x)
  unfolding or_fresh
  or_fresh-ite (yes p) s x = refl
  or_fresh-ite (no n) s x = refl

  state_of-store :
      (key other : StreamKey) (s : StreamState f) (registry : StreamHealthRegistry f)
      → state_of other (store key registry s)
        ≡ ite (key_discrete key other) s (state_of other registry)
  unfolding state_of store
  state_of-store key other s registry =
      ap or_fresh (lookup-assign key_discrete key other s registry.states)
      ∙ or_fresh-ite (key_discrete key other) s (lookup key_discrete other registry.states)

  same_key :
      (key other : StreamKey) (event : Event f) (registry : StreamHealthRegistry f)
      (o : Dec (key ≡ other)) (x : StreamState f)
      → ite o (take_event event (state_of key registry)).1 x
        ≡ ite o (take_event event (state_of other registry)).1 x
  same_key key other event registry (yes p) x =
      ap (λ k. (take_event event (state_of k registry)).1) p
  same_key key other event registry (no n) x = refl

  taken-store :
      (key : StreamKey) (event : Event f) (registry : StreamHealthRegistry f)
      → is_refused event ≡ false
      → (record_event key event registry).1
        ≡ store key registry (take_event event (state_of key registry)).1
  unfolding record_event
  taken-store key event registry h = rw h refl

  refused_keeps :
      (key : StreamKey) (event : Event f) (registry : StreamHealthRegistry f)
      → is_refused event ≡ true
      → (record_event key event registry).1 ≡ registry
  unfolding record_event
  refused_keeps key event registry h = rw h refl

  -- A call for one key works on that key's state alone.
  state_of-record_event :
      (key other : StreamKey) (event : Event f) (registry : StreamHealthRegistry f)
      → state_of other (record_event key event registry).1
        ≡ ite
            (key_discrete key other)
            (take_event event (state_of other registry)).1
            (state_of other registry)
  state_of-record_event key other event registry =
      let o = key_discrete key other in
      let s = state_of other registry in
      elim (Bool-cases (is_refused event)) [
        | inl h ↦
            ap (state_of other) (refused_keeps key event registry h)
            ∙ sym (ap (λ u. ite o u s) (refused_same event s h) ∙ ite_same o s)
        | inr h ↦
            ap (state_of other) (taken-store key event registry h)
            ∙ state_of-store key other (take_event event (state_of key registry)).1 registry
            ∙ same_key key other event registry o s
      ]

  after-ite :
      {P : Type 0} (o : Dec P) (event : Event f) (rest : List (Event f)) (s : StreamState f)
      → after_events rest (ite o (take_event event s).1 s)
        ≡ after_events (ite o (event ∷ rest) rest) s
  after-ite (yes p) event rest s = refl
  after-ite (no n) event rest s = refl

  -- Each stream goes its own way, through the calls for its key.
  state_of-record_events :
      (events : List (StreamKey × Event f)) (key : StreamKey) (registry : StreamHealthRegistry f)
      → state_of key (record_events events registry)
        ≡ after_events (own key events) (state_of key registry)
  unfolding record_events own
  state_of-record_events [] key registry = refl
  state_of-record_events ((other, event) ∷ events) key registry =
      state_of-record_events events key (record_event other event registry).1
      ∙ ap (after_events (own key events)) (state_of-record_event other key event registry)
      ∙ after-ite (key_discrete other key) event (own key events) (state_of key registry)

  abbrev after_gap :
      StreamKey → ℕ → List (StreamKey × Event f) → StreamHealthRegistry f → StreamHealthRegistry f
  after_gap key g events registry = record_events ((key, sequence_gap (pos g)) ∷ events) registry

  after_gap-state :
      (key : StreamKey) (g : ℕ) (events : List (StreamKey × Event f))
      (registry : StreamHealthRegistry f)
      → state_of key (after_gap key g events registry)
        ≡ after_events (own key events) (record_sequence_gap (pos g) (state_of key registry)).1
  unfolding own take_event
  after_gap-state key g events registry =
      state_of-record_events ((key, sequence_gap (pos g)) ∷ events) key registry
      ∙ ap (λ l. after_events l (state_of key registry))
          (ite_yes (key_discrete key key) refl (sequence_gap (pos g) ∷ own key events)
            (own key events))

  -- A sequence gap with a valid generation is recorded for one stream, and then come any calls for any
  -- streams, also such that raise; of those for the stream itself, none marks its book live or marks it
  -- disconnected. Then every snapshot of the stream still shows the gap, and its status is RESYNCING or,
  -- if the stream is not connected, DISCONNECTED, whatever the thresholds and the time.
  pub snapshot-record_events :
      (key : StreamKey) (g now : ℕ) (events : List (StreamKey × Event f))
      (registry : StreamHealthRegistry f)
      → All KeepsGap (own key events)
      → (v : StreamHealthSnapshot f) × ((snapshot key
            (aware now)
            (record_events ((key, sequence_gap (pos g)) ∷ events) registry)).0
          ≡ ok v)
        × (v.state.sequence_gap_detected ≡ true)
        × ((v.status ≡ resyncing) ⊎ (v.status ≡ disconnected))
  unfolding snapshot snapshot_at
  snapshot-record_events key g now events registry h =
      let r = after_gap key g events registry in
      let s =
        after_events (own key events) (record_sequence_gap (pos g) (state_of key registry)).1 in
      let e = after_gap-state key g events registry in
      let gap =
        status_at-record_sequence_gap r.thresholds key.channel now g (own key events)
          (state_of key registry) h in
      (
        _,
        refl,
        subst⁻¹ (λ u. u.sequence_gap_detected ≡ true) e gap.0,
        subst⁻¹
            (λ u.
              (status_at f r.thresholds key.channel now u ≡ resyncing)
              ⊎ (status_at f r.thresholds key.channel now u ≡ disconnected))
            e gap.1,
      )
