-- ===== src/Features/Book/Sound.antt =====
-- features/state.py: the invariant of `FeatureOrderBookState`.
use cvf.Prelude.{
  ℕ, ◌≤◌, ◌<◌, ◌≡◌, refl, ◌∙◌, Bool, true, false, Option, none, some, [], ◌∷◌, ◌++◌, length,
  length-append, All, All-append, if◌then◌else◌, leb, leb→lt, arith, true_not_false,
}
use cvf.Outcome.{Result, ok, raise}
use cvf.Exec.{Exec, pure, continue, ◌>>=◌, ◌>>◌}
use cvf.Decimals.{Decimals}
use cvf.OrderBook.Sides.{Side}
use cvf.Features.Lineage.{SourceLineage, combine}
use cvf.Features.Book.{
  StateUpdateStatus, buffered_for_snapshot, book_invalidated, Int10, Arithmetic, OrderBookUpdate,
  BookEvent, an_update, Book, Digests, reset, record_combined, record_source, record_lineage,
  is_empty, is_crossed, desynchronize,
}
use cvf.Features.Book.Updates.{buffer}

unfoldable pub is_some : {A : Type 0} → Option A → Bool
is_some none = false
is_some (some x) = true

none_of : {A : Type 0} (o : Option A) → is_some o ≡ false → o ≡ none
unfolding is_some
none_of none h = refl
none_of (some x) h = absurd (cc)

module _ (d : Decimals) where
  -- Both sides have levels, and the test for a crossed book is negative.
  pub record Fits (bids asks : Side d) : Type 0 where
    pub some_bid : is_empty d bids ≡ false
    pub some_ask : is_empty d asks ≡ false
    pub apart : is_crossed d bids asks ≡ false

  pub record IsSound (b : Book d) : Type 0 where
    pub uncrossed : b.synchronized ≡ true → Fits b.bids b.asks
    pub idle : b.synchronized ≡ true → b.pending ≡ []
    pub since : is_some b.synchronized_since ≡ b.synchronized
    pub bounded : length b.pending ≤ b.pending_capacity
    pub own : All (λ u. u.generation ≡ b.generation) b.pending
    pub room : 0 < b.pending_capacity

  -- A book that is not synchronized needs no more than its buffer's bounds.
  pub off-IsSound :
      (b : Book d)
      → b.synchronized ≡ false
      → b.synchronized_since ≡ none
      → length b.pending ≤ b.pending_capacity
      → All (λ u. u.generation ≡ b.generation) b.pending
      → 0 < b.pending_capacity
      → IsSound b
  unfolding is_some
  off-IsSound b off none_since bounded own room = record {
    uncrossed = λ on. absurd (true_not_false on off);
    idle = λ on. absurd (true_not_false on off);
    since = rw (none_since, off) refl;
    bounded = bounded;
    own = own;
    room = room;
  }

  pub desynchronize-IsSound : (b : Book d) → IsSound b → IsSound (desynchronize d b)
  unfolding desynchronize
  desynchronize-IsSound b h = off-IsSound _ refl refl h.bounded h.own h.room

  pub reset-IsSound : (g : ℕ) (e : Bool) (b : Book d) → IsSound b → IsSound (reset d g e b)
  unfolding reset
  reset-IsSound g e b h = let room = h.room in off-IsSound _ refl refl (omega arith) tt h.room

  pub lineage-IsSound :
      (l : SourceLineage) (b : Book d) → IsSound b → IsSound (record b { lineage = l })
  lineage-IsSound l b h = record {
    uncrossed = h.uncrossed;
    idle = h.idle;
    since = h.since;
    bounded = h.bounded;
    own = h.own;
    room = h.room;
  }

  -- The lineage is all that changes.
  record_combined-IsSound :
      (r : Result SourceLineage) (b : Book d) → IsSound b → IsSound (record_combined d r b).1
  unfolding record_combined
  record_combined-IsSound (raise e) b h = h
  record_combined-IsSound (ok l) b h = lineage-IsSound l b h

  record_source-IsSound :
      (r : Result SourceLineage) (b : Book d) → IsSound b → IsSound (record_source d r b).1
  unfolding record_source
  record_source-IsSound (raise e) b h = h
  record_source-IsSound (ok l) b h = record_combined-IsSound (combine b.lineage (l ∷ [])) b h

  pub record_lineage-IsSound :
      (g : Digests d) (event : BookEvent d) (b : Book d)
      → IsSound b
      → IsSound (record_lineage d g event b).1
  unfolding record_lineage
  record_lineage-IsSound g event b h = record_source-IsSound _ b h

  record_combined-pending :
      (r : Result SourceLineage) (b : Book d) → (record_combined d r b).1.pending ≡ b.pending
  unfolding record_combined
  record_combined-pending (raise e) b = refl
  record_combined-pending (ok l) b = refl

  record_source-pending :
      (r : Result SourceLineage) (b : Book d) → (record_source d r b).1.pending ≡ b.pending
  unfolding record_source
  record_source-pending (raise e) b = refl
  record_source-pending (ok l) b = record_combined-pending (combine b.lineage (l ∷ [])) b

  pub record_lineage-pending :
      (g : Digests d) (event : BookEvent d) (b : Book d)
      → (record_lineage d g event b).1.pending ≡ b.pending
  unfolding record_lineage
  record_lineage-pending g event b = record_source-pending _ b

  continue-IsSound :
      {A B : Type 0} (f : A → Exec (Book d) B) (r : Result A) (s : Book d)
      → IsSound s
      → ((x : A) → IsSound (f x s).1)
      → IsSound (continue r f s).1
  continue-IsSound f (ok x) s h k = k x
  continue-IsSound f (raise e) s h k = h

  -- A step of an `Exec`, and what follows it.
  pub then-IsSound :
      {A B : Type 0} (m : Exec (Book d) A) (f : A → Exec (Book d) B) (b : Book d)
      → IsSound (m b).1
      → ((x : A) → IsSound (f x (m b).1).1)
      → IsSound ((m >>= f) b).1
  then-IsSound m f b h k = continue-IsSound f (m b).0 (m b).1 h k

  pub if-IsSound :
      {A : Type 0} (c : Bool) (x y : A × Book d)
      → (c ≡ true → IsSound x.1)
      → (c ≡ false → IsSound y.1)
      → IsSound (if c then x else y).1
  if-IsSound true x y h k = h refl
  if-IsSound false x y h k = k refl

  module _ (a : Arithmetic d.Value) (g : Digests d) (int10 : Int10) where
    recorded-IsSound :
        (event : BookEvent d) (status : StateUpdateStatus) (b : Book d)
        → IsSound b
        → IsSound ((record_lineage d g event >> pure status) b).1
    recorded-IsSound event status b h =
        let m = record_lineage-IsSound g event b h in
        then-IsSound (record_lineage d g event) (λ _. pure status) b m (λ _. m)

    appended-IsSound :
        (update : OrderBookUpdate d) (b : Book d)
        → IsSound b
        → b.synchronized ≡ false
        → update.generation ≡ b.generation
        → length b.pending < b.pending_capacity
        → IsSound (record b { pending = b.pending ++ update ∷ [] })
    appended-IsSound update b h off same lt =
        off-IsSound _ off (none_of b.synchronized_since (h.since ∙ off))
          (omega (arith, length-append b.pending (update ∷ [])))
          (All-append (λ u. u.generation ≡ b.generation) b.pending (update ∷ []) h.own (same, tt))
          h.room

    pub buffer-IsSound :
        (update : OrderBookUpdate d) (b : Book d)
        → IsSound b
        → b.synchronized ≡ false
        → update.generation ≡ b.generation
        → IsSound (buffer d a g int10 update b).1
    unfolding buffer
    buffer-IsSound update b h off same =
        if-IsSound (leb b.pending_capacity (length b.pending)) _ _
          (λ full.
            recorded-IsSound (an_update update) book_invalidated _
              (lineage-IsSound b.lineage _ (reset-IsSound update.generation true b h)))
          (λ free. recorded-IsSound (an_update update) buffered_for_snapshot _ (
            appended-IsSound update b h off same
              (leb→lt b.pending_capacity (length b.pending) free)))
