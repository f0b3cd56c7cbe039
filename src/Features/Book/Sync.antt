-- ===== src/Features/Book/Sync.antt =====
-- features/state.py: changed levels, pending updates and an installed snapshot keep the
-- invariant of `FeatureOrderBookState`.
use cvf.Prelude.{
  ℕ, ◌≡◌, refl, Bool, true, false, not, ◌||◌, ◌&&◌, Option, none, List, [], ◌∷◌, if◌then◌else◌,
  Bool-cases, inl, inr, ℤ,
}
use cvf.Decimals.{Decimals}
use cvf.OrderBook.Sides.{Side}
use cvf.OrderBook.Views.{OrderBookLevel}
use cvf.Features.Book.{
  Int10, sequence, Arithmetic, OrderBookSnapshot, OrderBookUpdate, BookChange, Book, Digests,
  apply_side, is_empty, is_crossed, desynchronize, apply_levels,
}
use cvf.Features.Book.Updates.{
  not_after, is_after, both_known, since, levels_side, apply_in_sequence, drain_pending,
  finish_snapshot, install,
}
use cvf.Features.Book.Sound.{is_some, Fits, IsSound, off-IsSound, desynchronize-IsSound, if-IsSound}

or_false_left : (a b : Bool) → (a || b) ≡ false → a ≡ false
or_false_left true b h = absurd (cc)
or_false_left false b h = refl

or_false_right : (a b : Bool) → (a || b) ≡ false → b ≡ false
or_false_right true b h = absurd (cc)
or_false_right false b h = h

pub and_true_right : (a b : Bool) → (a && b) ≡ true → b ≡ true
and_true_right true b h = h
and_true_right false b h = absurd (cc)

and_false_right : (a b : Bool) → a ≡ true → (a && b) ≡ false → b ≡ false
and_false_right true b e h = h
and_false_right false b e h = absurd (cc)

pub negated_false : (a : Bool) → not a ≡ true → a ≡ false
negated_false true h = absurd (cc)
negated_false false h = refl

module _ (d : Decimals) where
  leveled-IsSound :
      (bids asks : Side d) (b : Book d)
      → IsSound d b
      → Fits d bids asks
      → IsSound d (record b { bids = bids; asks = asks })
  leveled-IsSound bids asks b h f = record {
    uncrossed = λ _. f;
    idle = h.idle;
    since = h.since;
    bounded = h.bounded;
    own = h.own;
    room = h.room;
  }

  off_leveled-IsSound :
      (bids asks : Side d) (b : Book d)
      → IsSound d b
      → IsSound d (desynchronize d (record b { bids = bids; asks = asks }))
  unfolding desynchronize
  off_leveled-IsSound bids asks b h = off-IsSound d _ refl refl h.bounded h.own h.room

  apply_levels-IsSound :
      (bids asks : List (OrderBookLevel d)) (b : Book d)
      → IsSound d b
      → IsSound d (apply_levels d bids asks b).1
  unfolding apply_levels
  apply_levels-IsSound bids asks b h =
      let x = apply_side d b.bids bids in
      let y = apply_side d b.asks asks in
      let off = off_leveled-IsSound x y b h in
      if-IsSound d (is_empty d x || is_empty d y) _ _ (λ _. off)
        (λ full.
          if-IsSound d (is_crossed d x y) _ _ (λ _. off)
            (λ apart. leveled-IsSound x y b h (record {
              some_bid = or_false_left (is_empty d x) (is_empty d y) full;
              some_ask = or_false_right (is_empty d x) (is_empty d y) full;
              apart = apart;
            })))

  sequenced-IsSound :
      (c : Option (BookChange d)) (n : Option ℤ) (b : Book d)
      → IsSound d b
      → IsSound d (record b { last_change = c; sequence_id = n })
  sequenced-IsSound c n b h = record {
    uncrossed = h.uncrossed;
    idle = h.idle;
    since = h.since;
    bounded = h.bounded;
    own = h.own;
    room = h.room;
  }

  module _ (a : Arithmetic d.Value) (g : Digests d) (int10 : Int10) where
    pub apply_in_sequence-IsSound :
        (update : OrderBookUpdate d) (n : Option ℤ) (b : Book d)
        → IsSound d b
        → IsSound d (apply_in_sequence d a g int10 update n b).1
    unfolding apply_in_sequence
    apply_in_sequence-IsSound update n b h =
        let applied = apply_levels d update.bids update.asks b in
        let sound = apply_levels-IsSound update.bids update.asks b h in
        if-IsSound d applied.0 _ _ (λ _. sequenced-IsSound _ _ applied.1 sound) (λ _. sound)

    drain_pending-IsSound :
        (updates : List (OrderBookUpdate d)) (b : Book d)
        → IsSound d b
        → IsSound d (drain_pending d a g int10 updates b).1
    unfolding drain_pending
    drain_pending-IsSound [] b h = h
    drain_pending-IsSound (update ∷ updates) b h =
        let n = sequence int10 update.sequence_id in
        let previous = sequence int10 update.previous_sequence_id in
        elim (Bool-cases (not_after n b.sequence_id)) [
          | inl old ↦ rw (old, drain_pending) (drain_pending-IsSound updates b h)
          | inr new ↦
              elim (Bool-cases (both_known n b.sequence_id && is_after previous b.sequence_id)) [
                | inl gap ↦ rw (new, gap, drain_pending) (desynchronize-IsSound d b h)
                | inr next ↦
                    let applied = apply_in_sequence d a g int10 update n b in
                    let sound = apply_in_sequence-IsSound update n b h in
                    elim (Bool-cases applied.0) [
                      | inl fits ↦
                          rw (new, next, fits, drain_pending)
                            (drain_pending-IsSound updates applied.1 sound)
                      | inr empty ↦ rw (new, next, empty, drain_pending) sound
                    ]
              ]
        ]

    finish_snapshot-IsSound :
        (q : Bool × Book d) → IsSound d q.1 → IsSound d (finish_snapshot d a g int10 q).1
    unfolding finish_snapshot
    finish_snapshot-IsSound q h = if-IsSound d (q.0 && q.1.synchronized) _ _ (λ _. h) (λ _. h)

    -- The sides of a snapshot are put in place of those of an emptied book.
    installed-IsSound :
        (bids asks : Side d) (n : Option ℤ) (s : Option ℕ) (complete : Bool) (b : Book d)
        → IsSound d b
        → b.pending ≡ []
        → is_some s ≡ complete
        → (complete ≡ true → Fits d bids asks)
        → IsSound d (record b {
          bids = bids;
          asks = asks;
          sequence_id = n;
          synchronized = complete;
          synchronized_since = s;
        })
    installed-IsSound bids asks n s complete b h e k fits = record {
      uncrossed = fits;
      idle = λ _. e;
      since = k;
      bounded = h.bounded;
      own = h.own;
      room = h.room;
    }

    since-is_some :
        (continuing : Bool) (before : Option ℕ) (t : ℕ)
        → (continuing ≡ true → is_some before ≡ true)
        → is_some (since continuing before t) ≡ true
    unfolding since is_some
    since-is_some true before t h = h refl
    since-is_some false before t h = refl

    since_complete :
        (complete continuing : Bool) (before : Option ℕ) (t : ℕ)
        → (continuing ≡ true → is_some before ≡ true)
        → is_some (if complete then since continuing before t else none) ≡ complete
    unfolding is_some
    since_complete true continuing before t h = since-is_some continuing before t h
    since_complete false continuing before t h = refl

    complete-Fits :
        (bids asks : Side d)
        → (not (is_empty d bids || is_empty d asks) && is_crossed d bids asks) ≡ false
        → not (is_empty d bids || is_empty d asks) ≡ true
        → Fits d bids asks
    complete-Fits bids asks apart complete =
        let full = negated_false (is_empty d bids || is_empty d asks) complete in
        record {
          some_bid = or_false_left (is_empty d bids) (is_empty d asks) full;
          some_ask = or_false_right (is_empty d bids) (is_empty d asks) full;
          apart = and_false_right _ (is_crossed d bids asks) complete apart;
        }

    pub install-IsSound :
        (snapshot : OrderBookSnapshot d) (pending : List (OrderBookUpdate d)) (continuing : Bool)
        (before : Option ℕ) (b : Book d)
        → IsSound d b
        → b.pending ≡ []
        → (continuing ≡ true → is_some before ≡ true)
        → IsSound d (install d a g int10 snapshot pending continuing before b).1
    unfolding install desynchronize
    install-IsSound snapshot pending continuing before b h e k =
        let bids = levels_side d [] snapshot.bids in
        let asks = levels_side d [] snapshot.asks in
        let complete = not (is_empty d bids || is_empty d asks) in
        if-IsSound d (complete && is_crossed d bids asks) _ _
          (λ _. off-IsSound d _ refl refl h.bounded h.own h.room)
          (λ apart. finish_snapshot-IsSound _ (
            drain_pending-IsSound _ _ (
              installed-IsSound bids asks _ _ complete b h e
                (since_complete complete continuing before snapshot.exchange_timestamp k)
                (complete-Fits bids asks apart))))
