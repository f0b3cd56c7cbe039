-- ===== src/Features/Book/Events.antt =====
-- features/state.py: every event keeps the invariant of `FeatureOrderBookState`.
use cvf.Prelude.{◌≡◌, refl, ◌∙◌, true, not, ◌&&◌, [], if◌then◌else◌, ltb, ◌==◌, ltb→le, arith}
use cvf.Outcome.{Result, ok}
use cvf.Exec.{Exec}
use cvf.Decimals.{Decimals}
use cvf.Features.Book.{
  StateUpdateStatus, stale_sequence, Int10, sequence, Arithmetic, OrderBookSnapshot,
  OrderBookUpdate, BookEvent, a_snapshot, an_update, Book, Digests, reset, record_lineage,
  desynchronize,
}
use cvf.Features.Book.Updates.{
  not_after, both_known, differs, buffer, accept_snapshot, apply_snapshot, finish_update,
  accept_update, update_synchronized, apply_update,
}
use cvf.Features.Book.Sound.{
  IsSound, off-IsSound, reset-IsSound, lineage-IsSound, record_lineage-IsSound,
  record_lineage-pending, then-IsSound, if-IsSound, buffer-IsSound,
}
use cvf.Features.Book.Sync.{
  and_true_right, negated_false, apply_in_sequence-IsSound, install-IsSound,
}

module _ (d : Decimals) where
  cleared-IsSound :
      (b : Book d) → IsSound d b → IsSound d (record (desynchronize d b) { pending = [] })
  unfolding desynchronize
  cleared-IsSound b h = let room = h.room in off-IsSound d _ refl refl (omega arith) tt h.room

  module _ (a : Arithmetic d.Value) (g : Digests d) (int10 : Int10) where
    accept_snapshot-IsSound :
        (snapshot : OrderBookSnapshot d) (b : Book d)
        → IsSound d b
        → IsSound d (accept_snapshot d a g int10 snapshot b).1
    unfolding accept_snapshot
    accept_snapshot-IsSound snapshot b h =
        let same = snapshot.generation == b.generation in
        let emptied = reset d snapshot.generation (not (same && b.synchronized)) b in
        let started : Book d = record emptied {
          lineage = if same then b.lineage else emptied.lineage;
        } in
        let m =
          record_lineage-IsSound d g (a_snapshot snapshot) started
            (lineage-IsSound d _ emptied (reset-IsSound d _ _ b h)) in
        then-IsSound d (record_lineage d g (a_snapshot snapshot)) _ started m (λ _.
          install-IsSound d a g int10 snapshot _ (same && b.synchronized) b.synchronized_since _ m
            (record_lineage-pending d g (a_snapshot snapshot) started ∙ (unfold reset in refl))
            (λ on. h.since ∙ and_true_right same b.synchronized on))

    apply_snapshot-IsSound :
        (snapshot : OrderBookSnapshot d) (b : Book d)
        → IsSound d b
        → IsSound d (apply_snapshot d a g int10 snapshot b).1
    unfolding apply_snapshot
    apply_snapshot-IsSound snapshot b h =
        if-IsSound d (ltb snapshot.generation b.generation) _ _ (λ _. h)
          (λ _. if-IsSound d _ _ _ (λ _. h) (λ _. accept_snapshot-IsSound snapshot b h))

    accept_update-IsSound :
        (update : OrderBookUpdate d) (b : Book d)
        → IsSound d b
        → IsSound d (accept_update d a g int10 update b).1
    unfolding accept_update finish_update
    accept_update-IsSound update b h =
        let m = record_lineage-IsSound d g (an_update update) b h in
        let n = sequence int10 update.sequence_id in
        then-IsSound d (record_lineage d g (an_update update)) _ b m (λ _.
          let next = apply_in_sequence-IsSound d a g int10 update n _ m in
          if-IsSound d _ _ _ (λ _. next) (λ _. next))

    update_synchronized-IsSound :
        (update : OrderBookUpdate d) (b : Book d)
        → IsSound d b
        → update.generation ≡ b.generation
        → IsSound d (update_synchronized d a g int10 update b).1
    unfolding update_synchronized desynchronize
    update_synchronized-IsSound update b h same =
        let n = sequence int10 update.sequence_id in
        let previous = sequence int10 update.previous_sequence_id in
        if-IsSound d {A = Result StateUpdateStatus} (not_after n b.sequence_id)
          (ok stale_sequence, b) _ (λ _. h)
          (λ _.
            if-IsSound d {A = Result StateUpdateStatus}
              (both_known n b.sequence_id && differs previous b.sequence_id)
              (buffer d a g int10 update (record (desynchronize d b) { pending = [] }))
              (accept_update d a g int10 update b)
              (λ gap. buffer-IsSound d a g int10 update _ (cleared-IsSound b h) refl same)
              (λ next. accept_update-IsSound update b h))

    apply_update-IsSound :
        (update : OrderBookUpdate d) (b : Book d)
        → IsSound d b
        → IsSound d (apply_update d a g int10 update b).1
    unfolding apply_update
    apply_update-IsSound update b h =
        if-IsSound d (ltb update.generation b.generation) _ _ (λ _. h)
          (λ not_old.
            if-IsSound d (ltb b.generation update.generation) _ _
              (λ newer.
                buffer-IsSound d a g int10 update _ (reset-IsSound d update.generation true b h)
                  (unfold reset in refl) (unfold reset in refl))
              (λ not_new.
                let le = ltb→le update.generation b.generation not_old in
                let ge = ltb→le b.generation update.generation not_new in
                let same : update.generation ≡ b.generation = omega arith in
                if-IsSound d (not b.synchronized) _ _
                  (λ off.
                    buffer-IsSound d a g int10 update b h (negated_false b.synchronized off) same)
                  (λ on. update_synchronized-IsSound update b h same)))

    -- An event of either kind.
    unfoldable pub take_event : BookEvent d → Exec (Book d) StateUpdateStatus
    take_event (a_snapshot snapshot) = apply_snapshot d a g int10 snapshot
    take_event (an_update update) = apply_update d a g int10 update

    -- Every snapshot and every update keeps the invariant, whatever the status and also where it
    -- raises: a synchronized book has levels on both sides, is not crossed, holds no pending update and
    -- has the time since which it is synchronized; the pending updates are within the capacity and of the
    -- book's generation.
    pub take_event-IsSound :
        (event : BookEvent d) (b : Book d) → IsSound d b → IsSound d (take_event event b).1
    unfolding take_event
    take_event-IsSound (a_snapshot snapshot) b h = apply_snapshot-IsSound snapshot b h
    take_event-IsSound (an_update update) b h = apply_update-IsSound update b h
