-- ===== src/Features/Rolling/Answers.antt =====
-- What the queries of a window answer, against plain passes over all its items.
use mathlib.Core.List.{reverse, reverse-append, reverse-reverse}
use cvf.Prelude.{
  ℕ, ◌≤◌, ◌<◌, ◌≡◌, refl, ap, ◌∙◌, ◌&&◌, Option, none, some, List, [], ◌∷◌, ◌++◌, append_assoc,
  append-nil, ltb, leb, All, All-append, All-map, if◌then◌else◌, inl, inr, Bool-cases, leb→le,
  leb→lt, le→ltb, arith,
}
use cvf.Outcome.{ok}
use cvf.Time.{aware}
use cvf.Features.Rolling.{TimedValue, BoundedTimeWindow}
use cvf.Features.Rolling.Queries.{scan_between, items_between, scan_latest, latest_at_or_before}
use cvf.Features.Rolling.Items.{KeyLt, IsOrdered}
use cvf.Features.Rolling.Kept.{IsValid}

module _ {T : Type 0} where
  -- The items with a timestamp in `(start, end]`.
  unfoldable pub between : ℕ → ℕ → List (TimedValue T) → List (TimedValue T)
  between start end [] = []
  between start end (x ∷ xs) =
      if ltb start x.timestamp && leb x.timestamp end
      then x ∷ between start end xs
      else between start end xs

  abbrev Descending : List (TimedValue T) → Type 0
  Descending [] = Unit
  Descending (x ∷ xs) = All (λ y. y.timestamp ≤ x.timestamp) xs × Descending xs

  Descending-snoc :
      (x : TimedValue T) (l : List (TimedValue T))
      → All (λ y. x.timestamp ≤ y.timestamp) l
      → Descending l
      → Descending (l ++ x ∷ [])
  Descending-snoc x [] a d = (tt, tt)
  Descending-snoc x (y ∷ l) a d = (
    All-append (λ z. z.timestamp ≤ y.timestamp) l (x ∷ []) d.0 (a.0, tt),
    Descending-snoc x l a.1 d.1,
  )

  All-reverse : (P : TimedValue T → Type 0) (l : List (TimedValue T)) → All P l → All P (reverse l)
  All-reverse P [] a = tt
  All-reverse P (x ∷ l) a =
      rw (reverse-append (x ∷ []) l)
        (All-append P (reverse l) (x ∷ []) (All-reverse P l a.1) (a.0, tt))

  Descending-reverse : (l : List (TimedValue T)) → IsOrdered l → Descending (reverse l)
  Descending-reverse [] o = tt
  Descending-reverse (x ∷ l) o = rw (reverse-append (x ∷ []) l) (
      Descending-snoc x (reverse l)
        (All-reverse (λ y. x.timestamp ≤ y.timestamp) l
          (All-map (KeyLt x) (λ y. x.timestamp ≤ y.timestamp) (λ y k. omega arith) l o.0))
        (Descending-reverse l o.1))

  none_between :
      (start end : ℕ) (l : List (TimedValue T))
      → All (λ y. y.timestamp ≤ start) l
      → between start end l ≡ []
  unfolding between
  none_between start end [] a = refl
  none_between start end (x ∷ l) a = ground (arith, none_between start end l a.1, a.0)

  scan_between-between :
      (start end : ℕ) (l : List (TimedValue T))
      → Descending l
      → scan_between start end l ≡ between start end l
  unfolding scan_between between
  scan_between-between start end [] d = refl
  scan_between-between start end (x ∷ l) d = elim (Bool-cases (leb x.timestamp start)) [
    | inl e ↦
        let le = leb→le x.timestamp start e in
        ground (
          arith,
          scan_between-between start end l d.1,
          none_between start end l (
              All-map (λ y. y.timestamp ≤ x.timestamp) (λ y. y.timestamp ≤ start)
                (λ y h. omega arith) l d.0),
        )
    | inr e ↦ ground (arith, scan_between-between start end l d.1)
  ]

  between-append :
      (start end : ℕ) (l m : List (TimedValue T))
      → between start end (l ++ m) ≡ between start end l ++ between start end m
  unfolding between
  between-append start end [] m = refl
  between-append start end (x ∷ l) m = ground (arith, between-append start end l m)

  between-reverse :
      (start end : ℕ) (l : List (TimedValue T))
      → between start end (reverse l) ≡ reverse (between start end l)
  unfolding between
  between-reverse start end [] = refl
  between-reverse start end (x ∷ l) = rw (reverse-append (x ∷ []) l) (
      rw (between-append start end (reverse l) (x ∷ []))
        (elim (Bool-cases (ltb start x.timestamp && leb x.timestamp end)) [
          | inl e ↦ rw e (
              rw (reverse-append (x ∷ []) (between start end l))
                (ap (λ m. m ++ x ∷ []) (between-reverse start end l)))
          | inr e ↦ rw e (append-nil _ ∙ between-reverse start end l)
        ]))

  -- On a valid window, for aware bounds with the start not after the end, `items_between` returns
  -- exactly the items with a timestamp in (start, end], in the window's order: the early `break` loses
  -- none.
  pub items_between-between :
      (w : BoundedTimeWindow T) (start end : ℕ)
      → IsValid w
      → start ≤ end
      → items_between w (aware start) (aware end) ≡ ok (between start end w.items)
  unfolding items_between
  items_between-between w start end v h = rw (le→ltb start end h) (
      ap ok (
        ap reverse (scan_between-between start end _ (Descending-reverse w.items v.ordered))
        ∙ ap reverse (between-reverse start end w.items)
        ∙ reverse-reverse (between start end w.items)))

  -- `found` is the last item of the list at or before `end`: all that follow it are later; or there is
  -- none, and all are later.
  abbrev pub IsLatest : ℕ → List (TimedValue T) → Option (TimedValue T) → Type 0
  IsLatest end l none = All (λ x. end < x.timestamp) l
  IsLatest end l (some x) =
      (before : List (TimedValue T)) × (behind : List (TimedValue T)) × (l ≡ before ++ x ∷ behind)
      × (x.timestamp ≤ end)
      × All (λ y. end < y.timestamp) behind

  IsLatest-snoc :
      (end : ℕ) (l : List (TimedValue T)) (x : TimedValue T) (o : Option (TimedValue T))
      → end < x.timestamp
      → IsLatest end l o
      → IsLatest end (l ++ x ∷ []) o
  IsLatest-snoc end l x none h a = All-append (λ y. end < y.timestamp) l (x ∷ []) a (h, tt)
  IsLatest-snoc end l x (some y) h (before, behind, e, le, a) = (
    before,
    behind ++ x ∷ [],
    ap (λ m. m ++ x ∷ []) e ∙ append_assoc before (y ∷ behind) (x ∷ []),
    le,
    All-append (λ z. end < z.timestamp) behind (x ∷ []) a (h, tt),
  )

  scan_latest-IsLatest :
      (end : ℕ) (l : List (TimedValue T)) → IsLatest end (reverse l) (scan_latest end l)
  unfolding scan_latest
  scan_latest-IsLatest end [] = tt
  scan_latest-IsLatest end (x ∷ l) = elim (Bool-cases (leb x.timestamp end)) [
    | inl e ↦
        rw (reverse-append (x ∷ []) l) (rw e ((reverse l, [], refl, leb→le x.timestamp end e, tt)))
    | inr e ↦ rw (reverse-append (x ∷ []) l) (
        rw e (
          IsLatest-snoc end (reverse l) x (scan_latest end l) (leb→lt x.timestamp end e)
            (scan_latest-IsLatest end l)))
  ]

  -- For an aware boundary `latest_at_or_before` returns the last item of the window that is not after
  -- the boundary; every item behind it is after the boundary, and so is every item if it returns none.
  pub latest_at_or_before-IsLatest :
      (w : BoundedTimeWindow T) (end : ℕ)
      → (o : Option (TimedValue T)) × (latest_at_or_before w (aware end) ≡ ok o)
        × IsLatest end w.items o
  unfolding latest_at_or_before
  latest_at_or_before-IsLatest w end =
      let found = scan_latest-IsLatest end (reverse w.items) in
      (scan_latest end (reverse w.items), refl, rw (reverse-reverse w.items) at found)
