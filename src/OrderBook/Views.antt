-- ===== src/OrderBook/Views.antt =====
-- What the books' `view` methods share: sorting the levels of a side, the depth limit and the
-- validated levels (orderbook/base.py, `BookView`; models/market.py, `OrderBookLevel`).
use Prim.Native.String.{String}
use mathlib.Core.Logic.{ite}
use cvf.Prelude.{
  true_not_false, ℕ, ◌≡◌, ◌≢◌, refl, sym, ap, ◌∙◌, ◌⊎◌, inl, inr, Bool, true, false, not, Option,
  none, some, List, [], ◌∷◌, ℤ, pos, ltb_ℤ, pos_part, take, All, All-map, if◌then◌else◌, Bool-cases,
}
use cvf.Outcome.{ok_injective, raise_not_ok, bind_ok, Result, ok, raise, value_error, ◌>>=◌}
use cvf.Dict.{Dict, lookup}
use cvf.Decimals.{Decimals}

module _ (d : Decimals) where
  pub record OrderBookLevel : Type 0 where
    pub price : d.Value
    pub quantity : d.Value

  -- The fields `exchange` and `channel`, the same for every view of a class, are not modelled.
  pub record BookView : Type 0 where
    pub symbol : String
    pub generation : ℕ
    pub sequence_id : Option ℤ
    pub synchronized : Bool
    pub bids : List OrderBookLevel
    pub asks : List OrderBookLevel

  -- `PositiveDecimal` and `NonNegativeDecimal`; a `ValidationError` is a `ValueError`.
  unfoldable pub order_book_level : d.Value → d.Value → Result OrderBookLevel
  order_book_level price quantity =
      if not (d.is_positive price)
      then raise value_error
      else if d.is_positive quantity
      then ok (record { price = price; quantity = quantity })
      else if d.is_zero quantity
      then ok (record { price = price; quantity = quantity })
      else raise value_error

  unfoldable pub order_book_levels : List (d.Value × d.Value) → Result (List OrderBookLevel)
  unfolding order_book_level
  order_book_levels [] = ok []
  order_book_levels ((p, q) ∷ items) =
      order_book_level p q >>= λ level. order_book_levels items >>= λ levels. ok (level ∷ levels)

  unfoldable pub best : List OrderBookLevel → Option OrderBookLevel
  best [] = none
  best (level ∷ levels) = some level

-- `sorted` by a test: insertion keeps the order of equal items.
module _ {A : Type 0} (before : A → A → Bool) where
  unfoldable pub insert_sorted : A → List A → List A
  insert_sorted x [] = x ∷ []
  insert_sorted x (y ∷ l) =
      let rest = insert_sorted x l in if before x y then x ∷ y ∷ l else y ∷ rest

  unfoldable pub sort_items : List A → List A
  unfolding insert_sorted
  sort_items [] = []
  sort_items (x ∷ l) = insert_sorted x (sort_items l)

-- The test of `depth`, and `items[:depth]`.
unfoldable pub check_depth : Option ℤ → Result (Unit {0})
check_depth none = ok tt
check_depth (some n) = if ltb_ℤ n (pos 1) then raise value_error else ok tt

unfoldable pub to_depth : {A : Type 0} → Option ℤ → List A → List A
to_depth none l = l
to_depth (some n) l = take (pos_part n) l

-- Sorted: every item comes before all later ones.
abbrev pub IsOrdered : {A : Type 0} → (A → A → Bool) → List A → Type 0
IsOrdered before [] = Unit
IsOrdered before (x ∷ l) = All (λ y. before x y ≡ true) l × IsOrdered before l

module _ {A : Type 0} (before : A → A → Bool) where
  All-insert_sorted :
      (P : A → Type 0) (x : A) (l : List A) → P x → All P l → All P (insert_sorted before x l)
  unfolding insert_sorted
  All-insert_sorted P x [] p h = (p, tt)
  All-insert_sorted P x (y ∷ l) p h = elim (Bool-cases (before x y)) [
    | inl e ↦ rw e (p, h)
    | inr e ↦ rw e (h.0, All-insert_sorted P x l p h.1)
  ]

  insert_sorted-IsOrdered :
      ((x y : A) → (before x y ≡ true) ⊎ (before y x ≡ true))
      → ((x y z : A) → before x y ≡ true → before y z ≡ true → before x z ≡ true)
      → (x : A) (l : List A) → IsOrdered before l
      → IsOrdered before (insert_sorted before x l)
  unfolding insert_sorted
  insert_sorted-IsOrdered total trans x [] h = (tt, tt)
  insert_sorted-IsOrdered total trans x (y ∷ l) h = elim (Bool-cases (before x y)) [
    | inl e ↦ rw e (
      (e, All-map (λ z. before y z ≡ true) (λ z. before x z ≡ true) (λ z q. trans x y z e q) l h.0),
      h,
    )
    | inr e ↦ rw e (
      All-insert_sorted (λ z. before y z ≡ true) x l (other_way (total x y) e) h.0,
      insert_sorted-IsOrdered total trans x l h.1,
    )
  ]
    where
      other_way :
          {x y : A}
          → (before x y ≡ true) ⊎ (before y x ≡ true)
          → before x y ≡ false
          → before y x ≡ true
      other_way (inl t) e = absurd (cc)
      other_way (inr t) e = t

  pub sort_items-IsOrdered :
      ((x y : A) → (before x y ≡ true) ⊎ (before y x ≡ true))
      → ((x y z : A) → before x y ≡ true → before y z ≡ true → before x z ≡ true)
      → (l : List A) → IsOrdered before (sort_items before l)
  unfolding sort_items
  sort_items-IsOrdered total trans [] = tt
  sort_items-IsOrdered total trans (x ∷ l) =
      insert_sorted-IsOrdered total trans x (sort_items before l)
        (sort_items-IsOrdered total trans l)

tests_swap :
    {K C : Type 0} (a b c : C) (x y k : K)
    → x ≢ y
    → (p : Dec (y ≡ k)) (q : Dec (x ≡ k)) → ite p a (ite q b c) ≡ ite q b (ite p a c)
tests_swap a b c x y k n (yes p) (yes q) = absurd (n (q ∙ sym p))
tests_swap a b c x y k n (yes p) (no q) = refl
tests_swap a b c x y k n (no p) (yes q) = refl
tests_swap a b c x y k n (no p) (no q) = refl

module _ {K V : Type 0} (dec : Discrete K) (before : K × V → K × V → Bool) where
  lookup-insert_sorted :
      ((x y : K × V) → x.0 ≡ y.0 → before x y ≡ true)
      → (k : K) (x : K × V) (l : Dict K V)
      → lookup dec k (insert_sorted before x l) ≡ lookup dec k (x ∷ l)
  unfolding lookup insert_sorted
  lookup-insert_sorted same k x [] = refl
  lookup-insert_sorted same k x (y ∷ l) = elim (Bool-cases (before x y)) [
    | inl e ↦ rw e refl
    | inr e ↦ rw e (
        rw (lookup-insert_sorted same k x l) (
          tests_swap (some y.1) (some x.1) (lookup dec k l) x.0 y.0 k
            (λ q. true_not_false (same x y q) e) (dec y.0 k) (dec x.0 k)))
  ]

  lookup-cons :
      (k : K) (x : K × V) (l m : Dict K V)
      → lookup dec k l ≡ lookup dec k m
      → lookup dec k (x ∷ l) ≡ lookup dec k (x ∷ m)
  unfolding lookup
  lookup-cons k x l m h = ap (ite (dec x.0 k) (some x.1)) h

  -- Sorting a dictionary's items does not change what a key is looked up to.
  pub lookup-sort_items :
      ((x y : K × V) → x.0 ≡ y.0 → before x y ≡ true)
      → (k : K) (l : Dict K V) → lookup dec k (sort_items before l) ≡ lookup dec k l
  unfolding sort_items
  lookup-sort_items same k [] = refl
  lookup-sort_items same k (x ∷ l) =
      lookup-insert_sorted same k x (sort_items before l)
      ∙ lookup-cons k x (sort_items before l) l (lookup-sort_items same k l)

module _ (d : Decimals) where
  abbrev pub pair_of : OrderBookLevel d → d.Value × d.Value
  pair_of level = (level.price, level.quantity)

  -- The prices and quantities of a view's levels.
  abbrev pub pairs : List (OrderBookLevel d) → Dict d.Value d.Value
  pairs [] = []
  pairs (level ∷ levels) = pair_of level ∷ pairs levels

  -- A level that is accepted has the given price and quantity.
  order_book_level-pair :
      (p q : d.Value) (level : OrderBookLevel d)
      → order_book_level d p q ≡ ok level
      → pair_of level ≡ (p, q)
  unfolding order_book_level
  order_book_level-pair p q level e = elim (Bool-cases (d.is_positive p)) [
    | inr f ↦ absurd (raise_not_ok (rw f at e))
    | inl f ↦ elim (Bool-cases (d.is_positive q)) [
      | inl g ↦ sym (ap pair_of (ok_injective (rw (f, g) at e)))
      | inr g ↦ elim (Bool-cases (d.is_zero q)) [
        | inl h ↦ sym (ap pair_of (ok_injective (rw (f, g, h) at e)))
        | inr h ↦ absurd (raise_not_ok (rw (f, g, h) at e))
      ]
    ]
  ]

  pub order_book_levels-pairs :
      (items : List (d.Value × d.Value)) (levels : List (OrderBookLevel d))
      → order_book_levels d items ≡ ok levels
      → pairs levels ≡ items
  unfolding order_book_levels
  order_book_levels-pairs [] levels e = ap pairs (sym (ok_injective e))
  order_book_levels-pairs ((p, q) ∷ items) levels e =
      let (level, one, e') = bind_ok (order_book_level d p q) _ levels e in
      let (rest, others, e'') = bind_ok (order_book_levels d items) _ levels e' in
      ap pairs (sym (ok_injective e''))
      ∙ ap (λ x. x ∷ pairs rest) (order_book_level-pair p q level one)
      ∙ ap (λ l. (p, q) ∷ l) (order_book_levels-pairs items rest others)
