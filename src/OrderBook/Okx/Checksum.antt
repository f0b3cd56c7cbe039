-- ===== src/OrderBook/Okx/Checksum.antt =====
-- orderbook/okx.py: `_checksum_from_sides`, the text that is summed.
use Prim.Native.String.{String}
use mathlib.Core.List.{Permᴰ}
use cvf.Prelude.{
  ℕ, zero, suc, ◌≡◌, refl, sym, ◌∙◌, ap, Bool, Option, none, some, List, [], ◌∷◌, ◌++◌, take, inl,
  inr, Bool-cases,
}
use cvf.Decimals.{Decimals}
use cvf.OrderBook.Views.{sort_items, insert_sorted, IsOrdered, sort_items-IsOrdered}
use cvf.OrderBook.Okx.{
  RawLevel, RawSide, values, higher, lower, interleave, checksum_from_sides, signed_crc32, join,
}

module _ {A : Type 0} (before : A → A → Bool) where
  Permᴰ-same : (l : List A) → Permᴰ l l
  Permᴰ-same [] = Permᴰ.nil
  Permᴰ-same (x ∷ l) = Permᴰ.cons refl (Permᴰ-same l)

  insert_sorted-Permᴰ : (x : A) (l : List A) → Permᴰ (x ∷ l) (insert_sorted before x l)
  unfolding insert_sorted
  insert_sorted-Permᴰ x [] = Permᴰ.cons refl Permᴰ.nil
  insert_sorted-Permᴰ x (y ∷ l) = elim (Bool-cases (before x y)) [
    | inl e ↦ rw e (Permᴰ-same (x ∷ y ∷ l))
    | inr e ↦ rw e (Permᴰ.trans (Permᴰ.swap refl refl) (Permᴰ.cons refl (insert_sorted-Permᴰ x l)))
  ]

  sort_items-Permᴰ : (l : List A) → Permᴰ l (sort_items before l)
  unfolding sort_items
  sort_items-Permᴰ [] = Permᴰ.nil
  sort_items-Permᴰ (x ∷ l) =
      Permᴰ.trans (Permᴰ.cons refl (sort_items-Permᴰ l))
        (insert_sorted-Permᴰ x (sort_items before l))

module _ {d : Decimals} where
  unfoldable pub level_texts : Option (RawLevel d) → List String
  level_texts none = []
  level_texts (some level) = level.price_text ∷ level.quantity_text ∷ []

  abbrev pub first : List (RawLevel d) → Option (RawLevel d)
  first [] = none
  first (level ∷ levels) = some level

  abbrev pub rest : List (RawLevel d) → List (RawLevel d)
  rest [] = []
  rest (level ∷ levels) = levels

  -- The first `n` rows of the two columns, the bid before the ask.
  unfoldable pub rows : ℕ → List (RawLevel d) → List (RawLevel d) → List String
  unfolding level_texts
  rows zero bids asks = []
  rows (suc n) bids asks =
      level_texts (first bids) ++ level_texts (first asks) ++ rows n (rest bids) (rest asks)

rows-none : (d : Decimals) (n : ℕ) → rows {d = d} n [] [] ≡ []
unfolding rows level_texts
rows-none d zero = refl
rows-none d (suc n) = rows-none d n

module _ {d : Decimals} where
  take-none : (n : ℕ) → take {A = RawLevel d} n [] ≡ []
  take-none zero = refl
  take-none (suc n) = refl

  interleave-rows :
      (n : ℕ) (bids asks : List (RawLevel d))
      → interleave d (take n bids) (take n asks) ≡ rows n bids asks
  unfolding interleave rows level_texts
  interleave-rows zero bids asks = refl
  interleave-rows (suc n) [] [] = sym (rows-none d n)
  interleave-rows (suc n) (b ∷ bids) [] =
      ap (λ l. b.price_text ∷ b.quantity_text ∷ l)
        (ap (interleave d (take n bids)) (sym (take-none n)) ∙ interleave-rows n bids [])
  interleave-rows (suc n) [] (a ∷ asks) =
      ap (λ l. a.price_text ∷ a.quantity_text ∷ l)
        (ap (λ l. interleave d l (take n asks)) (sym (take-none n)) ∙ interleave-rows n [] asks)
  interleave-rows (suc n) (b ∷ bids) (a ∷ asks) =
      ap (λ l. b.price_text ∷ b.quantity_text ∷ a.price_text ∷ a.quantity_text ∷ l)
        (interleave-rows n bids asks)

  -- The checksum of two sides is the signed CRC-32 of the texts of the first 25 rows of two columns, the
  -- bid of a row before its ask and its price before its quantity, joined by colons: the first column has
  -- all bids from the highest price, the second all asks from the lowest.
  pub checksum_from_sides-rows :
      (crc32 : String → ℕ) (bids asks : RawSide d)
      → (bid_column : List (RawLevel d)) × (ask_column : List (RawLevel d)) × Permᴰ
          (values d bids)
          bid_column
        × Permᴰ (values d asks) ask_column
        × IsOrdered (λ x y. d.le y.price x.price) bid_column
        × IsOrdered (λ x y. d.le x.price y.price) ask_column
        × (checksum_from_sides d crc32 bids asks
            ≡ signed_crc32 crc32 (join (rows 25 bid_column ask_column)))
  unfolding checksum_from_sides higher lower
  checksum_from_sides-rows crc32 bids asks = (
    sort_items (higher d) (values d bids),
    sort_items (lower d) (values d asks),
    sort_items-Permᴰ (higher d) (values d bids),
    sort_items-Permᴰ (lower d) (values d asks),
    sort_items-IsOrdered (higher d) (λ x y. d.le_total y.price x.price)
        (λ x y z p q. d.le_trans z.price y.price x.price q p) (values d bids),
    sort_items-IsOrdered (lower d) (λ x y. d.le_total x.price y.price)
        (λ x y z p q. d.le_trans x.price y.price z.price p q) (values d asks),
    ap (λ l. signed_crc32 crc32 (join l))
        (interleave-rows 25 (sort_items (higher d) (values d bids))
          (sort_items (lower d) (values d asks))),
  )
