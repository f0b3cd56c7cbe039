-- ===== src/Exchanges/Deduplication/Retention.antt =====
-- An identity is remembered for the TTL, as long as fewer than `capacity` other calls come between.
use mathlib.Core.Logic.{ite, ◌⊎◌}
use cvf.Prelude.{
  ℕ, zero, suc, ◌+◌, ◌-◌, ◌≤◌, ◌<◌, ◌≡◌, ◌≢◌, refl, sym, ◌∙◌, true, some, List, [], ◌∷◌, ◌++◌, ltb,
  lt→ltb, length, drop, drop_zero_of, newest, length-append, inl, inr, Bool-cases, arith,
}
use cvf.Outcome.{Result, ok, ◌>>=◌}
use cvf.Exchanges.Deduplication.{Entries, Deduplicator, contains, seen_or_add, current_time}
use cvf.Exchanges.Deduplication.Entries.{live, length-live, remove}
use cvf.Exchanges.Deduplication.Memory.{last_or_zero, IsValid, touched, after, seen_or_add-after}

-- `k` stands in the entries with a time from `t` on and at most `n` entries after it.
abbrev Recent : {K : Type 0} → K → ℕ → ℕ → Entries K → Type 0
Recent k t n [] = ⊥
Recent k t n ((j, u) ∷ m) = ((j ≡ k) × (t ≤ u) × (length m ≤ n)) ⊎ Recent k t n m

module _ {K : Type 0} where
  Recent-length : (k : K) (t n : ℕ) (l : Entries K) → Recent k t n l → 0 < length l
  Recent-length k t n [] r = absurd r
  Recent-length k t n (e ∷ l) r = omega arith

  Recent-live :
      (k : K) (t n ttl now : ℕ) (l : Entries K)
      → now < t + ttl
      → Recent k t n l
      → Recent k t n (live ttl now l)
  unfolding live
  Recent-live k t n ttl now [] h r = r
  Recent-live k t n ttl now ((j, u) ∷ l) h (inl r) =
      rw (lt→ltb now (u + ttl) (omega arith)) (inl (r.0, r.1, omega (arith, length-live ttl now l)))
  Recent-live k t n ttl now ((j, u) ∷ l) h (inr r) = elim (Bool-cases (ltb now (u + ttl))) [
    | inl e ↦ rw e (inr (Recent-live k t n ttl now l h r))
    | inr e ↦ rw e (Recent-live k t n ttl now l h r)
  ]

  Recent-snoc :
      (k : K) (t n : ℕ) (l : Entries K) (e : K × ℕ)
      → Recent k t n l
      → Recent k t (suc n) (l ++ e ∷ [])
  Recent-snoc k t n [] e r = absurd r
  Recent-snoc k t n (x ∷ l) e (inl r) = inl (r.0, r.1, omega (arith, length-append {0} l (e ∷ [])))
  Recent-snoc k t n (x ∷ l) e (inr r) = inr (Recent-snoc k t n l e r)

  Recent-drop :
      (k : K) (t n i : ℕ) (l : Entries K)
      → i + n < length l
      → Recent k t n l
      → Recent k t n (drop i l)
  Recent-drop k t n zero l h r = r
  Recent-drop k t n (suc i) [] h r = absurd r
  Recent-drop k t n (suc i) (x ∷ l) h (inl r) = absurd (omega arith)
  Recent-drop k t n (suc i) (x ∷ l) h (inr r) = Recent-drop k t n i l (omega arith) r

  Recent-newest :
      (k : K) (t n c : ℕ) (l : Entries K) → n < c → Recent k t n l → Recent k t n (newest c l)
  Recent-newest k t n c l h r = elim (short_or_long (length l) c) [
    | inl short ↦ rw (drop_zero_of (length l - c) l (omega arith)) r
    | inr long ↦ Recent-drop k t n (length l - c) l (omega arith) r
  ]
    where
      short_or_long : (a b : ℕ) → (a ≤ b) ⊎ (b < a)
      short_or_long a b = omega arith

  Recent-last : (k : K) (t n now : ℕ) (l : Entries K) → t ≤ now → Recent k t n (l ++ (k, now) ∷ [])
  Recent-last k t n now [] h = inl (refl, h, omega arith)
  Recent-last k t n now (x ∷ l) h = inr (Recent-last k t n now l h)

module _ {K : Type 0} (dec : Discrete K) where
  length-remove-le : (j : K) (l : Entries K) → length (remove dec j l) ≤ length l
  unfolding remove
  length-remove-le j [] = omega arith
  length-remove-le j ((i, u) ∷ l) = ground (arith, length-remove-le j l)

  Recent-remove :
      (k j : K) (t n : ℕ) (l : Entries K) → j ≢ k → Recent k t n l → Recent k t n (remove dec j l)
  unfolding remove
  Recent-remove k j t n [] h r = absurd r
  Recent-remove k j t n ((i, u) ∷ l) h (inl r) =
      elim (dec i j) as (λ c. Recent k t n (ite c l ((i, u) ∷ remove dec j l))) [
        | yes p ↦ absurd (h (sym p ∙ r.0))
        | no p ↦ inl (r.0, r.1, omega (arith, length-remove-le j l))
      ]
  Recent-remove k j t n ((i, u) ∷ l) h (inr r) =
      elim (dec i j) as (λ c. Recent k t n (ite c l ((i, u) ∷ remove dec j l))) [
        | yes p ↦ r
        | no p ↦ inr (Recent-remove k j t n l h r)
      ]

  contains-Recent : (k : K) (t n : ℕ) (l : Entries K) → Recent k t n l → contains dec k l ≡ true
  unfolding contains
  contains-Recent k t n [] r = absurd r
  contains-Recent k t n ((i, u) ∷ l) (inl r) = ground arith
  contains-Recent k t n ((i, u) ∷ l) (inr r) = ground (arith, contains-Recent k t n l r)

  -- Another call leaves one more entry behind `k` at most.
  after-Recent :
      (d : Deduplicator K) (k j : K) (t n now : ℕ)
      → t ≤ now
      → now < t + d.ttl_seconds
      → suc n < d.capacity
      → Recent k t n d.entries
      → Recent k t (suc n) (after dec d j now).entries
  unfolding after
  after-Recent d k j t n now lo hi room r =
      Recent-newest k t (suc n) d.capacity (touched dec d j now) room (elim (dec j k) [
        | yes p ↦
            rw p (Recent-last k t (suc n) now (remove dec k (live d.ttl_seconds now d.entries)) lo)
        | no p ↦
            Recent-snoc k t n _ (j, now)
              (Recent-remove k j t n _ p (Recent-live k t n d.ttl_seconds now d.entries hi r))
      ])

  -- Calls with their times given, one after the other; what they return is dropped.
  pub run : Deduplicator K → List (K × ℕ) → Result (Deduplicator K)
  run d [] = ok d
  run d ((j, now) ∷ calls) = do (d', _) ← seen_or_add dec d now j (some now); run d' calls

  -- The times of the calls ascend from `lo` to `hi`.
  abbrev pub Steady : ℕ → ℕ → List (K × ℕ) → Type 0
  Steady lo hi [] = lo ≤ hi
  Steady lo hi ((_, u) ∷ calls) = (lo ≤ u) × Steady u hi calls

  Steady-le : (lo hi : ℕ) (calls : List (K × ℕ)) → Steady lo hi calls → lo ≤ hi
  Steady-le lo hi [] s = s
  Steady-le lo hi ((_, u) ∷ calls) s = omega (arith, Steady-le u hi calls s.1)

  recognised :
      (d : Deduplicator K) (calls : List (K × ℕ)) (k : K) (t n now : ℕ)
      → IsValid dec d
      → Steady (last_or_zero d.last_now) now calls
      → t ≤ last_or_zero d.last_now
      → now < t + d.ttl_seconds
      → n + length calls < d.capacity
      → Recent k t n d.entries
      → (d' : Deduplicator K) × (run d calls ≡ ok d')
        × ((e : Deduplicator K) × (seen_or_add dec d' now k (some now) ≡ ok (e, true)))
  unfolding run current_time after
  recognised d [] k t n now v s lo hi room r =
      let known = contains-Recent k t n _ (Recent-live k t n d.ttl_seconds now d.entries hi r) in
      let (call, _) = seen_or_add-after dec d now k (some now) v s in
      (d, refl, (after dec d k now, call ∙ rw known refl))
  recognised d ((j, u) ∷ calls) k t n now v s lo hi room r =
      let (call, valid) = seen_or_add-after dec d u j (some u) v s.0 in
      let u_le : u ≤ now = Steady-le u now calls s.1 in
      let r' = after-Recent d k j t n u (omega arith) (omega arith) (omega arith) r in
      rw call (
        recognised (after dec d j u) calls k t (suc n) now valid s.1 (omega arith) hi (omega arith)
          r')

  -- On a valid deduplicator, after a call for `k` at time `t` and then any calls with ascending
  -- times, fewer than `capacity`, a call for `k` less than the TTL after `t` returns true; none of
  -- the calls raises.
  pub run-recognises :
      (d : Deduplicator K) (k : K) (t : ℕ) (calls : List (K × ℕ)) (now : ℕ)
      → IsValid dec d
      → last_or_zero d.last_now ≤ t
      → Steady t now calls
      → now < t + d.ttl_seconds
      → length calls < d.capacity
      → (d' : Deduplicator K) × (run d ((k, t) ∷ calls) ≡ ok d')
        × ((e : Deduplicator K) × (seen_or_add dec d' now k (some now) ≡ ok (e, true)))
  unfolding run current_time after
  run-recognises d k t calls now v lo s hi room =
      let (call, valid) = seen_or_add-after dec d t k (some t) v lo in
      rw call (
        recognised (after dec d k t) calls k t 0 now valid s (omega arith) hi (omega arith) (
          Recent-newest k t 0 d.capacity (touched dec d k t) (omega arith)
            (Recent-last k t 0 t (remove dec k (live d.ttl_seconds t d.entries)) (omega arith))))
