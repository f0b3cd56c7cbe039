-- ===== src/OrderBook/Okx/Mirror.antt =====
-- An OKX `books` book that is fed faithful messages mirrors the venue's book.
use Prim.Native.String.{String}
use mathlib.Core.Logic.{ite}
use cvf.Prelude.{
  ℕ, ◌≡◌, refl, sym, ap, ◌∙◌, Option, none, some, List, [], ◌∷◌, ℤ, eqb_ℤ, eqb_ℤ→eq, if◌then◌else◌,
  inl, inr, Bool-cases,
}
use cvf.Outcome.{Result, ok}
use cvf.Dict.{lookup, lookup-assign, lookup-pop}
use cvf.Decimals.{Decimals, decimal_from_text}
use cvf.OrderBook.Base.{
  BookStatus, BookTransition, snapshot_applied, update_applied, live, buffering, resync_required,
  BookApplyResult,
}
use cvf.OrderBook.Okx.{
  OkxBookLevelText, OkxBookData, Action, snapshot, update, RawLevel, RawSide, raw_side,
  apply_raw_level, apply_raw_side, OkxBook, invalidate, checksum_valid, checksum_failure,
  accept_if_valid, replace_bids, replace_asks, apply_bids, apply_asks, ingest_snapshot,
  apply_update, ingest_update, ingest,
}

module _ (d : Decimals) where
  abbrev pub raw_level : String → String → d.Value → d.Value → RawLevel d
  raw_level price_text quantity_text price quantity = record {
    price = price;
    quantity_contracts = quantity;
    price_text = price_text;
    quantity_text = quantity_text;
  }

  -- The levels' texts are finite decimals, and these are the levels they give.
  abbrev pub Reads : List OkxBookLevelText → List (RawLevel d) → Type 0
  Reads [] [] = Unit
  Reads ((pt, qt, _, _) ∷ levels) (r ∷ ls) =
      (decimal_from_text d pt ≡ ok r.price)
      × (decimal_from_text d qt ≡ ok r.quantity_contracts)
      × (r ≡ raw_level pt qt r.price r.quantity_contracts)
      × Reads levels ls
  Reads [] (r ∷ ls) = ⊥
  Reads (l ∷ levels) [] = ⊥

  -- What the levels make of the level at a price: the last one of that price counts, and a zero
  -- quantity removes it.
  abbrev pub quote : List (RawLevel d) → d.Value → Option (RawLevel d) → Option (RawLevel d)
  quote [] price o = o
  quote (r ∷ ls) price o =
      quote ls price
        (ite (d.discrete r.price price) (if d.is_zero r.quantity_contracts then none else some r) o)

  lookup-apply_raw_level :
      (side : RawSide d) (r : RawLevel d) (price : d.Value)
      → lookup d.discrete price (apply_raw_level d side r)
        ≡ ite
            (d.discrete r.price price)
            (if d.is_zero r.quantity_contracts then none else some r)
            (lookup d.discrete price side)
  unfolding apply_raw_level
  lookup-apply_raw_level side r price = elim (Bool-cases (d.is_zero r.quantity_contracts)) [
    | inl e ↦ rw e (lookup-pop d.discrete r.price price side)
    | inr e ↦ rw e (lookup-assign d.discrete r.price price r side)
  ]

  apply_raw_side-quote :
      (side : RawSide d) (levels : List OkxBookLevelText) (ls : List (RawLevel d))
      → Reads levels ls
      → ((apply_raw_side d side levels).0 ≡ ok tt)
        × ((price : d.Value)
            → lookup d.discrete price (apply_raw_side d side levels).1
              ≡ quote ls price (lookup d.discrete price side))
  unfolding apply_raw_side
  apply_raw_side-quote side [] [] h = (refl, λ price. refl)
  apply_raw_side-quote side ((pt, qt, _, _) ∷ levels) (r ∷ ls) h =
      let (done, same) = apply_raw_side-quote (apply_raw_level d side r) levels ls h.3 in
      rw (h.0, apply_raw_side)
        (rw (h.1, apply_raw_side)
          (rw (sym h.2) (
            done,
            λ price. same price ∙ ap (quote ls price) (lookup-apply_raw_level side r price),
          )))
  apply_raw_side-quote side [] (l ∷ ls) h = absurd h
  apply_raw_side-quote side (l ∷ levels) [] h = absurd h

  -- A venue: the levels of its book after each sequence id.
  pub record Venue : Type 0 where
    pub bids : ℤ → d.Value → Option (RawLevel d)
    pub asks : ℤ → d.Value → Option (RawLevel d)

  pub record LeadsTo (levels : List OkxBookLevelText) (before after : d.Value → Option (RawLevel d))
      : Type 0 where
    pub read : List (RawLevel d)
    pub reads : Reads levels read
    pub leads : (price : d.Value) → quote read price (before price) ≡ after price

  abbrev pub Same : RawSide d → (d.Value → Option (RawLevel d)) → Type 0
  Same side f = (price : d.Value) → lookup d.discrete price side ≡ f price

  abbrev pub At : Venue → ℤ → OkxBook d → Type 0
  At v n b = Same b.bids (v.bids n) × Same b.asks (v.asks n)

  -- An update that leads the venue's book from its `prevSeqId` to its `seqId`.
  pub record IsFaithful (v : Venue) (m : OkxBookData) : Type 0 where
    pub bids : LeadsTo m.bids (v.bids m.previous_sequence_id) (v.bids m.sequence_id)
    pub asks : LeadsTo m.asks (v.asks m.previous_sequence_id) (v.asks m.sequence_id)

  -- A snapshot whose levels are the venue's book at its `seqId`.
  pub record IsTrue (v : Venue) (m : OkxBookData) : Type 0 where
    pub bid_side : RawSide d
    pub ask_side : RawSide d
    pub read_bids : raw_side d m.bids ≡ ok bid_side
    pub read_asks : raw_side d m.asks ≡ ok ask_side
    pub bids : Same bid_side (v.bids m.sequence_id)
    pub asks : Same ask_side (v.asks m.sequence_id)

  abbrev pub IsGood : Venue → Action → OkxBookData → Type 0
  IsGood v snapshot m = IsTrue v m
  IsGood v update m = IsFaithful v m

  apply_raw_side-LeadsTo :
      (side : RawSide d) (levels : List OkxBookLevelText)
      (before after : d.Value → Option (RawLevel d))
      → Same side before
      → LeadsTo levels before after
      → ((apply_raw_side d side levels).0 ≡ ok tt) × Same (apply_raw_side d side levels).1 after
  apply_raw_side-LeadsTo side levels before after h l =
      let (done, same) = apply_raw_side-quote side levels l.read l.reads in
      (done, λ price. same price ∙ ap (quote l.read price) (h price) ∙ l.leads price)

-- Whenever the book has a sequence id, its sides are the venue's at that id.
abbrev pub Mirrors : {d : Decimals} → Venue d → OkxBook d → Type 0
Mirrors {d} v b = (s : ℤ) → b.sequence_id ≡ some s → At d v s b

module _ {d : Decimals} (v : Venue d) where
  pub from_id : (n : ℤ) (b : OkxBook d) → At d v n b → b.sequence_id ≡ some n → Mirrors v b
  from_id n b h k s q = let e : n ≡ s = some_injective (sym k ∙ q) in rw e at h
    where
      some_injective : {m t : ℤ} → some m ≡ some t → m ≡ t
      some_injective x = cc

module _ {d : Decimals} (v : Venue d) (crc32 : String → ℕ) where
  record Mirrored (p : Result BookApplyResult × OkxBook d) : Type 0 where
    value : BookApplyResult
    returns : p.0 ≡ ok value
    mirrors : Mirrors v p.1

  invalidate-Mirrors : (b : OkxBook d) → Mirrors v (invalidate b)
  unfolding invalidate
  invalidate-Mirrors b s q = absurd (cc)

  accept-Mirrored :
      (checksum : ℤ) (t : BookTransition) (finish : OkxBook d → OkxBook d) (b : OkxBook d)
      → Mirrors v (finish b)
      → Mirrored (accept_if_valid crc32 checksum t finish b)
  unfolding accept_if_valid checksum_failure
  accept-Mirrored checksum t finish b h = elim (Bool-cases (checksum_valid crc32 checksum b)) [
    | inl e ↦ rw e (record { value = _; returns = refl; mirrors = h })
    | inr e ↦ rw e (record { value = _; returns = refl; mirrors = invalidate-Mirrors b })
  ]

  ingest_snapshot-Mirrored :
      (m : OkxBookData) (b : OkxBook d) → IsTrue d v m → Mirrored (ingest_snapshot crc32 m b)
  unfolding ingest_snapshot replace_bids replace_asks
  ingest_snapshot-Mirrored m b t =
      let c : OkxBook d = record b {
        bids = t.bid_side;
        asks = t.ask_side;
        sequence_id = some m.sequence_id;
        status = live;
      } in
      rw (t.read_bids, replace_bids)
        (rw (t.read_asks, replace_asks)
          (accept-Mirrored m.checksum snapshot_applied (λ c. record c { status = live }) _
            (from_id v m.sequence_id c (t.bids, t.asks) refl)))

  apply_update-Mirrored :
      (m : OkxBookData) (b : OkxBook d)
      → IsFaithful d v m
      → At d v m.previous_sequence_id b
      → Mirrored (apply_update crc32 m b)
  unfolding apply_update apply_bids apply_asks
  apply_update-Mirrored m b f h =
      let (bids_done, bids_same) = apply_raw_side-LeadsTo d b.bids m.bids _ _ h.0 f.bids in
      let (asks_done, asks_same) = apply_raw_side-LeadsTo d b.asks m.asks _ _ h.1 f.asks in
      let c : OkxBook d = record b {
        bids = (apply_raw_side d b.bids m.bids).1;
        asks = (apply_raw_side d b.asks m.asks).1;
        sequence_id = some m.sequence_id;
      } in
      rw bids_done (
        rw asks_done (
          accept-Mirrored m.checksum update_applied (λ c. c) _
            (from_id v m.sequence_id c (bids_same, asks_same) refl)))

  ingest_update-Mirrored :
      (status : BookStatus) (o : Option ℤ) (m : OkxBookData) (b : OkxBook d)
      → b.sequence_id ≡ o
      → IsFaithful d v m
      → Mirrors v b
      → Mirrored (ingest_update crc32 status o m b)
  unfolding ingest_update
  ingest_update-Mirrored live (some k) m b e f h =
      elim (Bool-cases (eqb_ℤ m.previous_sequence_id k)) [
        | inl q ↦
            let same = eqb_ℤ→eq m.previous_sequence_id k q in
            rw q (apply_update-Mirrored m b f (rw same (h k e)))
        | inr q ↦ rw q (record { value = _; returns = refl; mirrors = invalidate-Mirrors b })
      ]
  ingest_update-Mirrored live none m b e f h = record { value = _; returns = refl; mirrors = h }
  ingest_update-Mirrored buffering o m b e f h = record { value = _; returns = refl; mirrors = h }
  ingest_update-Mirrored resync_required o m b e f h = record {
    value = _;
    returns = refl;
    mirrors = h;
  }

  -- A book that mirrors the venue takes a faithful message without raising, whatever its state and
  -- whichever messages were lost before, and mirrors the venue again: its sides are the venue's at
  -- whatever sequence id it then has.
  pub ingest-Mirrors :
      (action : Action) (m : OkxBookData) (b : OkxBook d)
      → IsGood d v action m
      → Mirrors v b
      → ((r : BookApplyResult) × ((ingest crc32 action m b).0 ≡ ok r))
        × Mirrors v (ingest crc32 action m b).1
  unfolding ingest
  ingest-Mirrors snapshot m b g h =
      let p = ingest_snapshot-Mirrored m b g in ((p.value, p.returns), p.mirrors)
  ingest-Mirrors update m b g h =
      let p = ingest_update-Mirrored b.status b.sequence_id m b refl g h in
      ((p.value, p.returns), p.mirrors)
