-- ===== src/Features/Rolling/Items.antt =====
-- The items of a window: what placing, expiring and evicting do to a list in the order of its keys.
use cvf.Prelude.{
  ℕ, zero, suc, ◌+◌, ◌-◌, ◌≤◌, ◌<◌, ◌≡◌, refl, sym, ap, ap₂, ◌∙◌, ◌⊎◌, List, [], ◌∷◌, ◌++◌, ltb,
  leb, length, drop, drop_zero_of, newest, All, All-map, map, if◌then◌else◌, inl, inr, Bool-cases,
  leb→le, leb→lt, ltb→lt, ltb→le, arith,
}
use cvf.Features.Rolling.{TimedValue, key, key_le, bisect_right, insert_at, drop_expired, evict}

module _ {T : Type 0} where
  -- The order of the keys `(timestamp, ordinal)`.
  abbrev pub KeyLt : TimedValue T → TimedValue T → Type 0
  KeyLt x y = (x.timestamp < y.timestamp) ⊎ ((x.timestamp ≡ y.timestamp) × (x.ordinal < y.ordinal))

  abbrev pub IsOrdered : List (TimedValue T) → Type 0
  IsOrdered [] = Unit
  IsOrdered (x ∷ xs) = All (KeyLt x) xs × IsOrdered xs

  -- The items after `mark - retention`, wherever they stand.
  unfoldable pub retain : ℕ → ℕ → List (TimedValue T) → List (TimedValue T)
  retain retention mark [] = []
  retain retention mark (x ∷ xs) =
      if ltb mark (x.timestamp + retention)
      then x ∷ retain retention mark xs
      else retain retention mark xs

  -- An item after all that are not later.
  unfoldable pub place : TimedValue T → List (TimedValue T) → List (TimedValue T)
  place item [] = item ∷ []
  place item (x ∷ xs) = if leb x.timestamp item.timestamp then x ∷ place item xs else item ∷ x ∷ xs

  KeyLt-le : (x y : TimedValue T) → KeyLt x y → x.timestamp ≤ y.timestamp
  KeyLt-le x y h = omega arith

  retain_same :
      (r mark : ℕ) (x : TimedValue T) (l : List (TimedValue T))
      → mark < x.timestamp + r
      → All (KeyLt x) l
      → retain r mark l ≡ l
  unfolding retain
  retain_same r mark x [] h a = refl
  retain_same r mark x (y ∷ l) h a = ground (arith, retain_same r mark x l h a.1, KeyLt-le x y a.0)

  pub drop_expired-retain :
      (r mark : ℕ) (l : List (TimedValue T)) → IsOrdered l → drop_expired r mark l ≡ retain r mark l
  unfolding drop_expired retain
  drop_expired-retain r mark [] o = refl
  drop_expired-retain r mark (x ∷ l) o =
      ground (arith, drop_expired-retain r mark l o.1, retain_same r mark x l)

  pub insert_at-place :
      (item : TimedValue T) (l : List (TimedValue T))
      → All (λ x. x.ordinal < item.ordinal) l
      → insert_at l (bisect_right (map key l) (key item)) item ≡ place item l
  unfolding insert_at bisect_right key_le place
  insert_at-place item [] a = refl
  insert_at-place item (x ∷ l) a = ground (arith, insert_at-place item l a.1, a.0)

  pub append-place :
      (item : TimedValue T) (l : List (TimedValue T))
      → All (λ x. x.timestamp ≤ item.timestamp) l
      → l ++ item ∷ [] ≡ place item l
  unfolding place
  append-place item [] a = refl
  append-place item (x ∷ l) a = ground (arith, append-place item l a.1, a.0)

  pub evict-newest :
      (maximum : ℕ) (l : List (TimedValue T)) (n : ℕ)
      → evict maximum l n ≡ (newest maximum l, n + (length l - maximum))
  unfolding evict
  evict-newest maximum [] n =
      ap₂ (λ k m. (k, m)) (sym (drop_zero_of (0 - maximum) [] (omega arith))) (omega arith)
  evict-newest maximum (x ∷ l) n = elim (Bool-cases (ltb maximum (suc (length l)))) [
    | inl e ↦
        let over = ltb→lt maximum (suc (length l)) e in
        let one : suc (length l) - maximum ≡ suc (length l - maximum) = omega arith in
        rw (e, evict)
          (rw one (evict-newest maximum l (n + 1) ∙ ap (λ m. (newest maximum l, m)) (omega arith)))
    | inr e ↦
        let fits = ltb→le maximum (suc (length l)) e in
        rw (e, evict)
          (ap₂ (λ k m. (k, m)) (sym (drop_zero_of (suc (length l) - maximum) (x ∷ l) (omega arith)))
            (omega arith))
  ]

  pub All-retain :
      (P : TimedValue T → Type 0) (r mark : ℕ) (l : List (TimedValue T))
      → All P l
      → All P (retain r mark l)
  unfolding retain
  All-retain P r mark [] a = tt
  All-retain P r mark (x ∷ l) a = elim (Bool-cases (ltb mark (x.timestamp + r))) [
    | inl e ↦ rw e (a.0, All-retain P r mark l a.1)
    | inr e ↦ rw e (All-retain P r mark l a.1)
  ]

  pub IsOrdered-retain :
      (r mark : ℕ) (l : List (TimedValue T)) → IsOrdered l → IsOrdered (retain r mark l)
  unfolding retain
  IsOrdered-retain r mark [] o = tt
  IsOrdered-retain r mark (x ∷ l) o = elim (Bool-cases (ltb mark (x.timestamp + r))) [
    | inl e ↦ rw e (All-retain (KeyLt x) r mark l o.0, IsOrdered-retain r mark l o.1)
    | inr e ↦ rw e (IsOrdered-retain r mark l o.1)
  ]

  pub IsOrdered-drop : (n : ℕ) (l : List (TimedValue T)) → IsOrdered l → IsOrdered (drop n l)
  IsOrdered-drop zero l o = o
  IsOrdered-drop (suc n) [] o = o
  IsOrdered-drop (suc n) (x ∷ l) o = IsOrdered-drop n l o.1

  pub All-place :
      (P : TimedValue T → Type 0) (item : TimedValue T) (l : List (TimedValue T))
      → P item
      → All P l
      → All P (place item l)
  unfolding place
  All-place P item [] p a = (p, tt)
  All-place P item (x ∷ l) p a = elim (Bool-cases (leb x.timestamp item.timestamp)) [
    | inl e ↦ rw e (a.0, All-place P item l p a.1)
    | inr e ↦ rw e (p, a)
  ]

  pub IsOrdered-place :
      (item : TimedValue T) (l : List (TimedValue T))
      → All (λ x. x.ordinal < item.ordinal) l
      → IsOrdered l
      → IsOrdered (place item l)
  unfolding place
  IsOrdered-place item [] a o = (tt, tt)
  IsOrdered-place item (x ∷ l) a o = elim (Bool-cases (leb x.timestamp item.timestamp)) [
    | inl e ↦
        let le = leb→le x.timestamp item.timestamp e in
        rw e (All-place (KeyLt x) item l (omega arith) o.0, IsOrdered-place item l a.1 o.1)
    | inr e ↦
        let lt = leb→lt x.timestamp item.timestamp e in
        rw e ((inl lt, All-map (KeyLt x) (KeyLt item) (λ y k. omega arith) l o.0), o)
  ]

  pub retain_recent :
      (r mark : ℕ) (l : List (TimedValue T)) → All (λ x. mark < x.timestamp + r) (retain r mark l)
  unfolding retain
  retain_recent r mark [] = tt
  retain_recent r mark (x ∷ l) = elim (Bool-cases (ltb mark (x.timestamp + r))) [
    | inl e ↦ rw e (ltb→lt _ _ e, retain_recent r mark l)
    | inr e ↦ rw e (retain_recent r mark l)
  ]
