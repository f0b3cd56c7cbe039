-- ===== src/OrderBook/Binance/Mirror.antt =====
-- What a faithful depth update does to a side, price by price.
use cvf.Prelude.{
  ◌≡◌, ◌≢◌, refl, sym, ap, ◌∙◌, ◌⊎◌, Option, none, some, List, [], ◌∷◌, ℤ, ◌≤ℤ◌, eqb_ℤ, eqb_ℤ→eq,
  leb_ℤ, if◌then◌else◌, inl, inr, Bool-cases,
}
use mathlib.Core.Logic.{ite}
use cvf.Outcome.{ok}
use cvf.Dict.{lookup, lookup-assign, lookup-pop}
use cvf.Decimals.{Decimals, decimal_from_text}
use cvf.OrderBook.Sides.{BookLevelText, Side, snapshot_side, apply_level, apply_side}
use cvf.OrderBook.Binance.{DepthUpdate, DepthSnapshot, Book, old, follows, link, apply_update}

module _ (d : Decimals) where
  -- The levels' texts are finite decimals, and these are their prices and quantities.
  abbrev pub Reads : List BookLevelText → List (d.Value × d.Value) → Type 0
  Reads [] [] = Unit
  Reads ((price_text, quantity_text) ∷ levels) ((p, q) ∷ ls) =
      (decimal_from_text d price_text ≡ ok p)
      × (decimal_from_text d quantity_text ≡ ok q)
      × Reads levels ls
  Reads [] (l ∷ ls) = ⊥
  Reads (l ∷ levels) [] = ⊥

  -- What the levels make of the quantity at a price: the last level of that price counts, and a zero
  -- quantity removes it.
  abbrev pub quote : List (d.Value × d.Value) → d.Value → Option d.Value → Option d.Value
  quote [] price o = o
  quote ((p, q) ∷ ls) price o =
      quote ls price (ite (d.discrete p price) (if d.is_zero q then none else some q) o)

  lookup-apply_level :
      (side : Side d) (p q price : d.Value)
      → lookup d.discrete price (apply_level d side p q)
        ≡ ite
            (d.discrete p price)
            (if d.is_zero q then none else some q)
            (lookup d.discrete price side)
  unfolding apply_level
  lookup-apply_level side p q price = elim (Bool-cases (d.is_zero q)) [
    | inl e ↦ rw e (lookup-pop d.discrete p price side)
    | inr e ↦ rw e (lookup-assign d.discrete p price q side)
  ]

  -- `_apply_side` succeeds, and leaves at each price what the levels quote.
  pub apply_side-quote :
      (side : Side d) (levels : List BookLevelText) (ls : List (d.Value × d.Value))
      → Reads levels ls
      → ((apply_side d side levels).0 ≡ ok tt)
        × ((price : d.Value)
            → lookup d.discrete price (apply_side d side levels).1
              ≡ quote ls price (lookup d.discrete price side))
  unfolding apply_side
  apply_side-quote side [] [] h = (refl, λ price. refl)
  apply_side-quote side ((pt, qt) ∷ levels) ((p, q) ∷ ls) h =
      let (done, same) = apply_side-quote (apply_level d side p q) levels ls h.2 in
      rw (h.0, apply_side)
        (rw (h.1, apply_side)
          (done, λ price. same price ∙ ap (quote ls price) (lookup-apply_level side p q price)))
  apply_side-quote side [] (l ∷ ls) h = absurd h
  apply_side-quote side (l ∷ levels) [] h = absurd h

  -- A venue: its book after each update id.
  pub record Venue : Type 0 where
    pub bids : ℤ → d.Value → Option d.Value
    pub asks : ℤ → d.Value → Option d.Value

  -- The ids from which an update leads to its last one.
  abbrev pub Covers : DepthUpdate → ℤ → Type 0
  Covers u n =
      (n ≡ u.previous_final_update_id) ⊎ (u.first_update_id ≤ℤ n) × (n ≤ℤ u.final_update_id)

  -- Levels that lead from one side of the venue's book to a later one.
  pub record LeadsTo (levels : List BookLevelText) (before after : d.Value → Option d.Value)
      : Type 0 where
    pub read : List (d.Value × d.Value)
    pub reads : Reads levels read
    pub leads : (price : d.Value) → quote read price (before price) ≡ after price

  pub record IsFaithful (v : Venue) (u : DepthUpdate) : Type 0 where
    pub bids : (n : ℤ) → Covers u n → LeadsTo u.bids (v.bids n) (v.bids u.final_update_id)
    pub asks : (n : ℤ) → Covers u n → LeadsTo u.asks (v.asks n) (v.asks u.final_update_id)

  abbrev pub Same : Side d → (d.Value → Option d.Value) → Type 0
  Same side f = (price : d.Value) → lookup d.discrete price side ≡ f price

  -- A snapshot whose levels are the venue's book at its `lastUpdateId`.
  pub record IsTrue (v : Venue) (s : DepthSnapshot) : Type 0 where
    pub bid_side : Side d
    pub ask_side : Side d
    pub read_bids : snapshot_side d s.bids ≡ ok bid_side
    pub read_asks : snapshot_side d s.asks ≡ ok ask_side
    pub bids : Same bid_side (v.bids s.last_update_id)
    pub asks : Same ask_side (v.asks s.last_update_id)

  -- The book's sides are the venue's at this id.
  abbrev pub At : Venue → ℤ → Book d → Type 0
  At v n b = Same b.bids (v.bids n) × Same b.asks (v.asks n)

  apply_side-LeadsTo :
      (side : Side d) (levels : List BookLevelText) (before after : d.Value → Option d.Value)
      → Same side before
      → LeadsTo levels before after
      → ((apply_side d side levels).0 ≡ ok tt) × Same (apply_side d side levels).1 after
  apply_side-LeadsTo side levels before after h l =
      let (done, same) = apply_side-quote side levels l.read l.reads in
      (done, λ price. same price ∙ ap (quote l.read price) (h price) ∙ l.leads price)

  -- An update applied at an id that it covers succeeds and leads to the venue's book at its last id.
  pub apply_update-At :
      (v : Venue) (u : DepthUpdate) (n : ℤ) (b : Book d)
      → IsFaithful v u
      → Covers u n
      → At v n b
      → ((apply_update u b).0 ≡ ok tt)
        × At v u.final_update_id (apply_update u b).1
        × ((apply_update u b).1.sequence_id ≡ some u.final_update_id)
  unfolding apply_update
  apply_update-At v u n b f c h =
      let (bids_done, bids_same) = apply_side-LeadsTo b.bids u.bids _ _ h.0 (f.bids n c) in
      let (asks_done, asks_same) = apply_side-LeadsTo b.asks u.asks _ _ h.1 (f.asks n c) in
      rw bids_done (rw asks_done (refl, (bids_same, asks_same), refl))

  old_not_follows : old ≢ follows
  old_not_follows h = absurd (cc)

  link_follows :
      (s : ℤ) (u : DepthUpdate) → link (some s) u ≡ follows → u.previous_final_update_id ≡ s
  unfolding link
  link_follows s u h = elim (Bool-cases (leb_ℤ u.final_update_id s)) [
    | inl e ↦ absurd (old_not_follows (rw e at h))
    | inr e ↦ elim (Bool-cases (eqb_ℤ u.previous_final_update_id s)) [
      | inl g ↦ eqb_ℤ→eq _ _ g
      | inr g ↦ absurd (cc)
    ]
  ]

  pub follows-Covers : (s : ℤ) (u : DepthUpdate) → link (some s) u ≡ follows → Covers u s
  follows-Covers s u h = inl (sym (link_follows s u h))
