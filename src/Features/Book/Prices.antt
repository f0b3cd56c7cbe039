-- ===== src/Features/Book/Prices.antt =====
-- features/state.py: the test for a crossed book, and what it says of the prices.
use mathlib.Core.Path.{subst⁻¹}
use cvf.Prelude.{
  ◌≡◌, refl, ◌⊎◌, inl, inr, Bool, true, false, [], ◌∷◌, All, All-map, Bool-cases, true_not_false,
  if◌then◌else◌,
}
use cvf.Decimals.{Decimals}
use cvf.OrderBook.Sides.{Side}
use cvf.Features.Book.{
  Int10, Arithmetic, BookEvent, Book, Digests, is_empty, highest, lowest, is_crossed,
}
use cvf.Features.Book.Sound.{Fits, IsSound}
use cvf.Features.Book.Events.{take_event, take_event-IsSound}

module _ (d : Decimals) where
  le_self : (p : d.Value) → d.le p p ≡ true
  le_self p = by_total (d.le_total p p)
    where
      by_total : {c : Bool} → (c ≡ true) ⊎ (c ≡ true) → c ≡ true
      by_total (inl h) = h
      by_total (inr h) = h

  not_le : (p q : d.Value) → d.le p q ≡ false → d.le q p ≡ true
  not_le p q h = elim (d.le_total p q) [ inl e ↦ absurd (true_not_false e h) | inr e ↦ e ]

  Highest : d.Value → d.Value → Side d → Type 0
  Highest top p side = (d.le p top ≡ true) × All (λ x. d.le x.0 top ≡ true) side

  highest-Highest : (p : d.Value) (side : Side d) → Highest (highest d p side) p side
  unfolding highest Highest
  highest-Highest p [] = (le_self p, tt)
  highest-Highest p ((q, v) ∷ side) =
      let next : d.Value → Type 0 = λ t. Highest t p ((q, v) ∷ side) in
      elim (Bool-cases (d.le q p)) [
        | inl le ↦
            let h = highest-Highest p side in
            let e : highest d (if d.le q p then p else q) side ≡ highest d p side = rw le refl in
            subst⁻¹ next e (h.0, (d.le_trans q p _ le h.0, h.1))
        | inr gt ↦
            let h = highest-Highest q side in
            let e : highest d (if d.le q p then p else q) side ≡ highest d q side = rw gt refl in
            subst⁻¹ next e (d.le_trans p q _ (not_le q p gt) h.0, (h.0, h.1))
      ]

  Lowest : d.Value → d.Value → Side d → Type 0
  Lowest bottom p side = (d.le bottom p ≡ true) × All (λ x. d.le bottom x.0 ≡ true) side

  lowest-Lowest : (p : d.Value) (side : Side d) → Lowest (lowest d p side) p side
  unfolding lowest Lowest
  lowest-Lowest p [] = (le_self p, tt)
  lowest-Lowest p ((q, v) ∷ side) =
      let next : d.Value → Type 0 = λ t. Lowest t p ((q, v) ∷ side) in
      elim (Bool-cases (d.le p q)) [
        | inl le ↦
            let h = lowest-Lowest p side in
            let e : lowest d (if d.le p q then p else q) side ≡ lowest d p side = rw le refl in
            subst⁻¹ next e (h.0, (d.le_trans _ p q h.0 le, h.1))
        | inr gt ↦
            let h = lowest-Lowest q side in
            let e : lowest d (if d.le p q then p else q) side ≡ lowest d q side = rw gt refl in
            subst⁻¹ next e (d.le_trans _ q p h.0 (not_le p q gt), (h.0, h.1))
      ]

  -- Every bid is below every ask.
  abbrev pub Apart : Side d → Side d → Type 0
  Apart bids asks = All (λ x. All (λ y. d.le y.0 x.0 ≡ false) asks) bids

  below_all :
      (top bottom p : d.Value) (asks : Side d)
      → d.le bottom top ≡ false
      → d.le p top ≡ true
      → All (λ y. d.le bottom y.0 ≡ true) asks
      → All (λ y. d.le y.0 p ≡ false) asks
  below_all top bottom p asks apart le above =
      All-map (λ y. d.le bottom y.0 ≡ true) (λ y. d.le y.0 p ≡ false)
        (λ y h. elim (Bool-cases (d.le y.0 p)) [
          | inl e ↦
              absurd
                (true_not_false (d.le_trans bottom y.0 top h (d.le_trans y.0 p top e le)) apart)
          | inr e ↦ e
        ])
        asks above

  is_crossed-Apart :
      (bids asks : Side d)
      → is_empty d bids ≡ false
      → is_empty d asks ≡ false
      → is_crossed d bids asks ≡ false
      → Apart bids asks
  unfolding is_crossed is_empty Highest Lowest
  is_crossed-Apart [] asks e f h = tt
  is_crossed-Apart (x ∷ bids) [] e f h = absurd (cc)
  is_crossed-Apart ((p, v) ∷ bids) ((q, w) ∷ asks) e f h =
      let top = highest-Highest p bids in
      let bottom = lowest-Lowest q asks in
      All-map (λ x. d.le x.0 (highest d p bids) ≡ true)
        (λ x. All (λ y. d.le y.0 x.0 ≡ false) ((q, w) ∷ asks))
        (λ x le.
          below_all (highest d p bids) (lowest d q asks) x.0 ((q, w) ∷ asks) h le
            (bottom.0, bottom.1))
        ((p, v) ∷ bids) (top.0, top.1)

  -- If a book that was sound is synchronized after a snapshot or an update, its sides have levels and
  -- every bid is below every ask.
  pub take_event-Apart :
      (a : Arithmetic d.Value) (g : Digests d) (int10 : Int10) (event : BookEvent d) (b : Book d)
      → IsSound d b
      → (take_event d a g int10 event b).1.synchronized ≡ true
      → Fits d (take_event d a g int10 event b).1.bids (take_event d a g int10 event b).1.asks
        × Apart (take_event d a g int10 event b).1.bids (take_event d a g int10 event b).1.asks
  take_event-Apart a g int10 event b h on =
      let fits = (take_event-IsSound d a g int10 event b h).uncrossed on in
      (fits, is_crossed-Apart _ _ fits.some_bid fits.some_ask fits.apart)
