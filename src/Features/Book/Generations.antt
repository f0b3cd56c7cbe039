-- ===== src/Features/Book/Generations.antt =====
-- features/state.py: the generation of `FeatureOrderBookState`.
use cvf.Prelude.{
  ℕ, ◌≡◌, refl, sym, ◌∙◌, max, Bool, true, false, not, ◌&&◌, List, [], ◌∷◌, Option, none, ℤ,
  if◌then◌else◌, leb, ltb, ltb→lt, ltb→le, ==→eq, length, ◌==◌, arith, Bool-cases, inl, inr, ◌||◌,
}
use cvf.Outcome.{Result, ok, raise}
use cvf.Exec.{Exec, pure, continue, ◌>>=◌}
use cvf.Decimals.{Decimals}
use cvf.OrderBook.Views.{OrderBookLevel, sort_items}
use cvf.Features.Lineage.{SourceLineage, combine}
use cvf.Features.Book.{
  stale_generation, stale_sequence, buffered_for_snapshot, book_invalidated, Int10, sequence,
  Arithmetic, OrderBookSnapshot, OrderBookUpdate, BookEvent, a_snapshot, an_update, Book, Digests,
  reset, record_combined, record_source, record_lineage, desynchronize, apply_levels, is_empty,
  is_crossed, apply_side,
}
use cvf.Features.Book.Updates.{
  not_after, is_after, both_known, differs, since, levels_side, before_pending, buffer,
  apply_in_sequence, drain_pending, finish_snapshot, install, accept_snapshot, apply_snapshot,
  finish_update, accept_update, update_synchronized, apply_update,
}
use cvf.Features.Book.Events.{take_event}

and_true_left : (a b : Bool) → (a && b) ≡ true → a ≡ true
and_true_left true b h = refl
and_true_left false b h = absurd (cc)

module _ (d : Decimals) where
  -- A result with a book of generation `n`.
  Has : {A : Type 0} → ℕ → A × Book d → Type 0
  Has n q = q.1.generation ≡ n

  if-Has :
      {A : Type 0} (n : ℕ) (c : Bool) (x y : A × Book d)
      → Has n x
      → Has n y
      → Has n (if c then x else y)
  unfolding Has
  if-Has n true x y h k = h
  if-Has n false x y h k = k

  when-Has :
      {A : Type 0} (n : ℕ) (c : Bool) (x y : A × Book d)
      → (c ≡ true → Has n x)
      → (c ≡ false → Has n y)
      → Has n (if c then x else y)
  when-Has n true x y h k = h refl
  when-Has n false x y h k = k refl

  continue-Has :
      {A B : Type 0} (n : ℕ) (f : A → Exec (Book d) B) (r : Result A) (s : Book d)
      → s.generation ≡ n
      → ((x : A) → Has n (f x s))
      → Has n (continue r f s)
  unfolding Has
  continue-Has n f (ok x) s h k = k x
  continue-Has n f (raise e) s h k = h

  record_combined-Has :
      (r : Result SourceLineage) (b : Book d) → Has b.generation (record_combined d r b)
  unfolding record_combined Has
  record_combined-Has (raise e) b = refl
  record_combined-Has (ok l) b = refl

  record_source-Has :
      (r : Result SourceLineage) (b : Book d) → Has b.generation (record_source d r b)
  unfolding record_source Has
  record_source-Has (raise e) b = refl
  record_source-Has (ok l) b = record_combined-Has (combine b.lineage (l ∷ [])) b

  apply_levels-Has :
      (bids asks : List (OrderBookLevel d)) (b : Book d)
      → Has b.generation (apply_levels d bids asks b)
  unfolding apply_levels Has desynchronize
  apply_levels-Has bids asks b =
      let x = apply_side d b.bids bids in
      let y = apply_side d b.asks asks in
      if-Has b.generation (is_empty d x || is_empty d y) _ _ refl
        (if-Has b.generation (is_crossed d x y) _ _ refl refl)

  module _ (a : Arithmetic d.Value) (g : Digests d) (int10 : Int10) where
    -- The lineage is recorded, and something follows that keeps the generation.
    recorded-Has :
        {B : Type 0} (event : BookEvent d) (f : Unit {0} → Exec (Book d) B) (b : Book d)
        → ((s : Book d) → Has s.generation (f tt s))
        → Has b.generation ((record_lineage d g event >>= f) b)
    unfolding record_lineage Has
    recorded-Has event f b k =
        let r = record_lineage d g event b in
        let m : r.1.generation ≡ b.generation = record_source-Has _ b in
        continue-Has b.generation f r.0 r.1 m (λ _. k r.1 ∙ m)

    buffer-Has :
        (update : OrderBookUpdate d) (b : Book d)
        → update.generation ≡ b.generation
        → Has b.generation (buffer d a g int10 update b)
    unfolding buffer reset Has
    buffer-Has update b same =
        if-Has b.generation (leb b.pending_capacity (length b.pending)) _ _
          (recorded-Has (an_update update) (λ _. pure book_invalidated) _ (λ s. refl) ∙ same)
          (recorded-Has (an_update update) (λ _. pure buffered_for_snapshot) _ (λ s. refl))

    apply_in_sequence-Has :
        (update : OrderBookUpdate d) (n : Option ℤ) (b : Book d)
        → Has b.generation (apply_in_sequence d a g int10 update n b)
    unfolding apply_in_sequence Has
    apply_in_sequence-Has update n b =
        let e = apply_levels-Has update.bids update.asks b in
        if-Has b.generation (apply_levels d update.bids update.asks b).0 _ _ e e

    drain_pending-Has :
        (updates : List (OrderBookUpdate d)) (b : Book d)
        → Has b.generation (drain_pending d a g int10 updates b)
    unfolding drain_pending desynchronize Has
    drain_pending-Has [] b = refl
    drain_pending-Has (update ∷ updates) b =
        let n = sequence int10 update.sequence_id in
        let previous = sequence int10 update.previous_sequence_id in
        let applied = apply_in_sequence d a g int10 update n b in
        let e = apply_in_sequence-Has update n b in
        elim (Bool-cases (not_after n b.sequence_id)) [
          | inl old ↦ rw (old, drain_pending) (drain_pending-Has updates b)
          | inr new ↦
              elim (Bool-cases (both_known n b.sequence_id && is_after previous b.sequence_id)) [
                | inl gap ↦ rw (new, gap, drain_pending) refl
                | inr next ↦ elim (Bool-cases applied.0) [
                  | inl fits ↦
                      rw (new, next, fits, drain_pending) (drain_pending-Has updates applied.1 ∙ e)
                  | inr empty ↦ rw (new, next, empty, drain_pending) e
                ]
              ]
        ]

    finish_snapshot-Has : (q : Bool × Book d) → Has q.1.generation (finish_snapshot d a g int10 q)
    unfolding finish_snapshot Has
    finish_snapshot-Has q = if-Has q.1.generation (q.0 && q.1.synchronized) _ _ refl refl

    install-Has :
        (snapshot : OrderBookSnapshot d) (pending : List (OrderBookUpdate d)) (continuing : Bool)
        (before : Option ℕ) (b : Book d)
        → Has b.generation (install d a g int10 snapshot pending continuing before b)
    unfolding install desynchronize Has
    install-Has snapshot pending continuing before b =
        let bids = levels_side d [] snapshot.bids in
        let asks = levels_side d [] snapshot.asks in
        let complete = not (is_empty d bids || is_empty d asks) in
        let installed : Book d = record b {
          bids = bids;
          asks = asks;
          sequence_id = sequence int10 snapshot.sequence_id;
          synchronized = complete;
          synchronized_since =
              if complete then since continuing before snapshot.exchange_timestamp else none;
        } in
        let updates = sort_items (before_pending d a g int10) pending in
        let drained = drain_pending d a g int10 updates installed in
        if-Has b.generation (complete && is_crossed d bids asks)
          (ok book_invalidated, desynchronize d installed) (finish_snapshot d a g int10 drained)
          refl (finish_snapshot-Has drained ∙ drain_pending-Has updates installed)

    accept_snapshot-Has :
        (snapshot : OrderBookSnapshot d) (b : Book d)
        → Has snapshot.generation (accept_snapshot d a g int10 snapshot b)
    unfolding accept_snapshot reset Has
    accept_snapshot-Has snapshot b =
        let same = snapshot.generation == b.generation in
        let continuing = same && b.synchronized in
        let pending = if same then b.pending else [] in
        recorded-Has (a_snapshot snapshot)
          (λ _. install d a g int10 snapshot pending continuing b.synchronized_since) _
          (λ s. install-Has snapshot pending continuing b.synchronized_since s)

    accept_update-Has :
        (update : OrderBookUpdate d) (b : Book d)
        → Has b.generation (accept_update d a g int10 update b)
    unfolding accept_update finish_update Has
    accept_update-Has update b = recorded-Has (an_update update) _ b (λ s.
        let e = apply_in_sequence-Has update (sequence int10 update.sequence_id) s in
        if-Has s.generation
          (apply_in_sequence d a g int10 update (sequence int10 update.sequence_id) s).0 _ _ e e)

    update_synchronized-Has :
        (update : OrderBookUpdate d) (b : Book d)
        → update.generation ≡ b.generation
        → Has b.generation (update_synchronized d a g int10 update b)
    unfolding update_synchronized desynchronize Has
    update_synchronized-Has update b same =
        let n = sequence int10 update.sequence_id in
        let previous = sequence int10 update.previous_sequence_id in
        let cleared : Book d = record (desynchronize d b) { pending = [] } in
        if-Has b.generation (not_after n b.sequence_id) (ok stale_sequence, b) _ refl
          (if-Has b.generation (both_known n b.sequence_id && differs previous b.sequence_id)
            (buffer d a g int10 update cleared) (accept_update d a g int10 update b)
            (buffer-Has update cleared same) (accept_update-Has update b))

    -- The generation that an event has.
    abbrev pub generation_of : BookEvent d → ℕ
    generation_of (a_snapshot snapshot) = snapshot.generation
    generation_of (an_update update) = update.generation

    apply_snapshot-Has :
        (snapshot : OrderBookSnapshot d) (b : Book d)
        → Has (max b.generation snapshot.generation) (apply_snapshot d a g int10 snapshot b)
    unfolding apply_snapshot Has
    apply_snapshot-Has snapshot b =
        let n = max b.generation snapshot.generation in
        let same = snapshot.generation == b.generation in
        let stale = not_after (sequence int10 snapshot.sequence_id) b.sequence_id in
        when-Has n (ltb snapshot.generation b.generation) (ok stale_generation, b) _
          (λ old. let lt = ltb→lt snapshot.generation b.generation old in omega arith)
          (λ new.
            let le = ltb→le snapshot.generation b.generation new in
            when-Has n (same && b.synchronized && stale) (ok stale_sequence, b)
              (accept_snapshot d a g int10 snapshot b)
              (λ e.
                let q = ==→eq snapshot.generation b.generation (
                  and_true_left same b.synchronized
                    (and_true_left (same && b.synchronized) stale e)) in
                omega arith)
              (λ _.
                let m : snapshot.generation ≡ n = omega arith in
                accept_snapshot-Has snapshot b ∙ m))

    apply_update-Has :
        (update : OrderBookUpdate d) (b : Book d)
        → Has (max b.generation update.generation) (apply_update d a g int10 update b)
    unfolding apply_update Has
    apply_update-Has update b =
        let n = max b.generation update.generation in
        let emptied = reset d update.generation true b in
        when-Has n (ltb update.generation b.generation) (ok stale_generation, b) _
          (λ old. let lt = ltb→lt update.generation b.generation old in omega arith)
          (λ new.
            let le = ltb→le update.generation b.generation new in
            let m : update.generation ≡ n = omega arith in
            when-Has n (ltb b.generation update.generation) (buffer d a g int10 update emptied) _
              (λ newer. buffer-Has update emptied (unfold reset in refl) ∙ (unfold reset in m))
              (λ not_newer.
                let ge = ltb→le b.generation update.generation not_newer in
                let same : update.generation ≡ b.generation = omega arith in
                when-Has n (not b.synchronized) (buffer d a g int10 update b)
                  (update_synchronized d a g int10 update b)
                  (λ _. buffer-Has update b same ∙ sym same ∙ m)
                  (λ _. update_synchronized-Has update b same ∙ sym same ∙ m)))

    -- The generation of the book after an event, whatever its status and also where it raises, is the later
    -- of the book's and the event's.
    pub take_event-generation :
        (event : BookEvent d) (b : Book d)
        → (take_event d a g int10 event b).1.generation ≡ max b.generation (generation_of event)
    unfolding take_event Has
    take_event-generation (a_snapshot snapshot) b = apply_snapshot-Has snapshot b
    take_event-generation (an_update update) b = apply_update-Has update b
