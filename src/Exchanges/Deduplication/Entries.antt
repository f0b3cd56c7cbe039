-- ===== src/Exchanges/Deduplication/Entries.antt =====
-- The ordered dictionary of the deduplicator: what its operations do to keys, times and length.
use mathlib.Core.Logic.{ite}
use cvf.Prelude.{
  ℕ, zero, suc, ◌+◌, ◌≤◌, ◌<◌, ◌≡◌, refl, true, false, [], ◌∷◌, ◌++◌, ltb, length, All, All-append,
  drop, if◌then◌else◌, inl, inr, Bool-cases, arith,
}
use cvf.Exchanges.Deduplication.{Entries, expire, contains, assign, move_to_end}

-- Times ascend, and none is after `hi`.
abbrev pub Ascending : {K : Type 0} → ℕ → Entries K → Type 0
Ascending hi [] = Unit
Ascending hi ((_, u) ∷ m) = (u ≤ hi) × All (λ e. u ≤ e.1) m × Ascending hi m

-- The entries that were seen less than `ttl` ago, wherever they stand.
unfoldable pub live : {K : Type 0} → ℕ → ℕ → Entries K → Entries K
live ttl now [] = []
live ttl now ((j, u) ∷ m) =
    let rest = live ttl now m in if ltb now (u + ttl) then (j, u) ∷ rest else rest

module _ {K : Type 0} where
  live_same :
      (ttl now u : ℕ) (l : Entries K) → now < u + ttl → All (λ e. u ≤ e.1) l → live ttl now l ≡ l
  unfolding live
  live_same ttl now u [] h a = refl
  live_same ttl now u ((j, v) ∷ l) h a = ground (arith, live_same ttl now u l h a.1)

  -- Among ascending times the loop that stops at the first live entry keeps all that are live.
  pub expire-live :
      (ttl now hi : ℕ) (l : Entries K) → Ascending hi l → expire ttl now l ≡ live ttl now l
  unfolding expire live
  expire-live ttl now hi [] a = refl
  expire-live ttl now hi ((j, u) ∷ l) a =
      ground (arith, expire-live ttl now hi l a.2, live_same ttl now u l)

  All-live : (P : K × ℕ → Type 0) (ttl now : ℕ) (l : Entries K) → All P l → All P (live ttl now l)
  unfolding live
  All-live P ttl now [] a = tt
  All-live P ttl now ((j, u) ∷ l) a = elim (Bool-cases (ltb now (u + ttl))) [
    | inl e ↦ rw e (a.0, All-live P ttl now l a.1)
    | inr e ↦ rw e (All-live P ttl now l a.1)
  ]

  pub Ascending-live :
      (ttl now hi : ℕ) (l : Entries K) → Ascending hi l → Ascending hi (live ttl now l)
  unfolding live
  Ascending-live ttl now hi [] a = tt
  Ascending-live ttl now hi ((j, u) ∷ l) a = elim (Bool-cases (ltb now (u + ttl))) [
    | inl e ↦ rw e (a.0, All-live (λ e. u ≤ e.1) ttl now l a.1, Ascending-live ttl now hi l a.2)
    | inr e ↦ rw e (Ascending-live ttl now hi l a.2)
  ]

  pub length-live : (ttl now : ℕ) (l : Entries K) → length (live ttl now l) ≤ length l
  unfolding live
  length-live ttl now [] = omega arith
  length-live ttl now ((j, u) ∷ l) = ground (arith, length-live ttl now l)

  pub Ascending-snoc :
      (hi now : ℕ) (k : K) (l : Entries K)
      → Ascending hi l
      → hi ≤ now
      → Ascending now (l ++ (k, now) ∷ [])
  Ascending-snoc hi now k [] a h = omega arith
  Ascending-snoc hi now k ((j, u) ∷ l) a h = (
    omega arith,
    All-append (λ e. u ≤ e.1) l _ a.1 (omega arith),
    Ascending-snoc hi now k l a.2 h,
  )

  pub Ascending-drop : (n hi : ℕ) (l : Entries K) → Ascending hi l → Ascending hi (drop n l)
  Ascending-drop zero hi l a = a
  Ascending-drop (suc n) hi [] a = a
  Ascending-drop (suc n) hi ((j, u) ∷ l) a = Ascending-drop n hi l a.2

module _ {K : Type 0} (dec : Discrete K) where
  -- The entries without the first one of a key.
  unfoldable pub remove : K → Entries K → Entries K
  remove k [] = []
  remove k ((j, u) ∷ m) = ite (dec j k) m ((j, u) ∷ remove k m)

  -- No key stands twice.
  abbrev pub Distinct : Entries K → Type 0
  Distinct [] = Unit
  Distinct ((j, _) ∷ m) = (contains dec j m ≡ false) × Distinct m

  pub assign-new :
      (k : K) (t : ℕ) (l : Entries K)
      → contains dec k l ≡ false
      → assign dec k t l ≡ l ++ (k, t) ∷ []
  unfolding contains assign
  assign-new k t [] h = refl
  assign-new k t ((j, u) ∷ l) h = ground (arith, assign-new k t l)

  pub move_to_end-assign :
      (k : K) (t : ℕ) (l : Entries K)
      → contains dec k l ≡ true
      → move_to_end dec k (assign dec k t l) ≡ remove k l ++ (k, t) ∷ []
  unfolding contains assign move_to_end remove
  move_to_end-assign k t [] h = absurd (ground arith)
  move_to_end-assign k t ((j, u) ∷ l) h = ground (arith, move_to_end-assign k t l)

  pub remove_absent : (k : K) (l : Entries K) → contains dec k l ≡ false → remove k l ≡ l
  unfolding contains remove
  remove_absent k [] h = refl
  remove_absent k ((j, u) ∷ l) h = ground (arith, remove_absent k l)

  pub length-remove :
      (k : K) (l : Entries K) → contains dec k l ≡ true → length (remove k l) + 1 ≡ length l
  unfolding contains remove
  length-remove k [] h = absurd (ground arith)
  length-remove k ((j, u) ∷ l) h = ground (arith, length-remove k l)
