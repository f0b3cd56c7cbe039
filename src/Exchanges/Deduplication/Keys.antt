-- ===== src/Exchanges/Deduplication/Keys.antt =====
-- The keys of the ordered dictionary stay distinct.
use mathlib.Core.Logic.{ite}
use cvf.Prelude.{
  ℕ, zero, suc, ◌+◌, ◌≤◌, ◌≡◌, refl, false, [], ◌∷◌, ◌++◌, ltb, All, drop, inl, inr, Bool-cases,
  arith,
}
use cvf.Exchanges.Deduplication.{Entries, contains}
use cvf.Exchanges.Deduplication.Entries.{Ascending, live, remove, Distinct}

module _ {K : Type 0} (dec : Discrete K) where
  contains-live :
      (j : K) (ttl now : ℕ) (l : Entries K)
      → contains dec j l ≡ false
      → contains dec j (live ttl now l) ≡ false
  unfolding live contains
  contains-live j ttl now [] h = refl
  contains-live j ttl now ((i, u) ∷ l) h = ground (arith, contains-live j ttl now l)

  pub Distinct-live : (ttl now : ℕ) (l : Entries K) → Distinct dec l → Distinct dec (live ttl now l)
  unfolding live
  Distinct-live ttl now [] d = tt
  Distinct-live ttl now ((j, u) ∷ l) d = elim (Bool-cases (ltb now (u + ttl))) [
    | inl e ↦ rw e (contains-live j ttl now l d.0, Distinct-live ttl now l d.1)
    | inr e ↦ rw e (Distinct-live ttl now l d.1)
  ]

  contains-remove_ne :
      (j k : K) (l : Entries K) → contains dec j l ≡ false → contains dec j (remove dec k l) ≡ false
  unfolding contains remove
  contains-remove_ne j k [] h = refl
  contains-remove_ne j k ((i, u) ∷ l) h = ground (arith, contains-remove_ne j k l)

  pub contains-remove_self :
      (k : K) (l : Entries K) → Distinct dec l → contains dec k (remove dec k l) ≡ false
  unfolding contains remove
  contains-remove_self k [] d = refl
  contains-remove_self k ((i, u) ∷ l) d = ground (arith, contains-remove_self k l d.1, d.0)

  pub Distinct-remove : (k : K) (l : Entries K) → Distinct dec l → Distinct dec (remove dec k l)
  unfolding remove
  Distinct-remove k [] d = tt
  Distinct-remove k ((i, u) ∷ l) d =
      elim (dec i k) as (λ c. Distinct dec (ite c l ((i, u) ∷ remove dec k l))) [
        | yes p ↦ d.1
        | no p ↦ (contains-remove_ne i k l d.0, Distinct-remove k l d.1)
      ]

  contains-snoc :
      (j k : K) (t u : ℕ) (m l : Entries K)
      → contains dec k ((j, u) ∷ m) ≡ false
      → contains dec j l ≡ false
      → contains dec j (l ++ (k, t) ∷ []) ≡ false
  unfolding contains
  contains-snoc j k t u m [] h g = ground arith
  contains-snoc j k t u m ((i, v) ∷ l) h g = ground (arith, contains-snoc j k t u m l h)

  pub Distinct-snoc :
      (k : K) (t : ℕ) (l : Entries K)
      → contains dec k l ≡ false
      → Distinct dec l
      → Distinct dec (l ++ (k, t) ∷ [])
  unfolding contains
  Distinct-snoc k t [] h d = (refl, tt)
  Distinct-snoc k t ((j, u) ∷ l) h d =
      (contains-snoc j k t u l l h d.0, Distinct-snoc k t l (ground arith) d.1)

  pub Distinct-drop : (n : ℕ) (l : Entries K) → Distinct dec l → Distinct dec (drop n l)
  Distinct-drop zero l d = d
  Distinct-drop (suc n) [] d = d
  Distinct-drop (suc n) ((j, u) ∷ l) d = Distinct-drop n l d.1

  All-remove : (P : K × ℕ → Type 0) (k : K) (l : Entries K) → All P l → All P (remove dec k l)
  unfolding remove
  All-remove P k [] a = tt
  All-remove P k ((i, u) ∷ l) a =
      elim (dec i k) as (λ c. All P (ite c l ((i, u) ∷ remove dec k l))) [
        | yes p ↦ a.1
        | no p ↦ (a.0, All-remove P k l a.1)
      ]

  pub Ascending-remove :
      (hi : ℕ) (k : K) (l : Entries K) → Ascending hi l → Ascending hi (remove dec k l)
  unfolding remove
  Ascending-remove hi k [] a = tt
  Ascending-remove hi k ((i, u) ∷ l) a =
      elim (dec i k) as (λ c. Ascending hi (ite c l ((i, u) ∷ remove dec k l))) [
        | yes p ↦ a.2
        | no p ↦ (a.0, All-remove (λ e. u ≤ e.1) k l a.1, Ascending-remove hi k l a.2)
      ]
