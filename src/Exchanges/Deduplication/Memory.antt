-- ===== src/Exchanges/Deduplication/Memory.antt =====
-- What `seen_or_add` computes: the entries are the live ones, the identity moved to the end, and of
-- these the newest `capacity`.
use cvf.Prelude.{
  ℕ, suc, ◌-◌, ◌≤◌, ◌<◌, ◌≡◌, refl, sym, true, false, Option, none, some, [], ◌∷◌, ◌++◌, ltb,
  length, length-append, length-drop, drop_zero_of, newest, if◌then◌else◌, inl, inr, Bool-cases,
  arith, ltb→lt, ltb→le,
}
use cvf.Outcome.{ok}
use cvf.Exchanges.Deduplication.{
  Entries, Deduplicator, current_time, moves_backwards, pop_first, contains, assign, move_to_end,
  seen_or_add,
}
use cvf.Exchanges.Deduplication.Entries.{
  Ascending, live, expire-live, Ascending-live, length-live, Ascending-snoc, Ascending-drop, remove,
  Distinct, assign-new, move_to_end-assign, remove_absent, length-remove,
}
use cvf.Exchanges.Deduplication.Keys.{
  Distinct-live, Distinct-remove, contains-remove_self, Distinct-snoc, Distinct-drop,
  Ascending-remove,
}

-- The last time that a call went by.
abbrev pub last_or_zero : Option ℕ → ℕ
last_or_zero none = 0
last_or_zero (some t) = t

-- The invariant between two calls: at most `capacity` entries, no key twice, and times ascending up
-- to the last call's.
pub record IsValid {K : Type 0} (dec : Discrete K) (d : Deduplicator K) : Type 0 where
  pub capacity_positive : 0 < d.capacity
  pub ttl_positive : 0 < d.ttl_seconds
  pub bounded : length d.entries ≤ d.capacity
  pub ascending : Ascending (last_or_zero d.last_now) d.entries
  pub distinct : Distinct dec d.entries

module _ {K : Type 0} (dec : Discrete K) where
  -- The identity at the end of the entries that are live.
  abbrev pub touched : Deduplicator K → K → ℕ → Entries K
  touched d k now = remove dec k (live d.ttl_seconds now d.entries) ++ (k, now) ∷ []

  unfoldable pub after : Deduplicator K → K → ℕ → Deduplicator K
  after d k now = record d { entries = newest d.capacity (touched d k now); last_now = some now }

  pub after-IsValid :
      (d : Deduplicator K) (k : K) (now : ℕ)
      → IsValid dec d
      → last_or_zero d.last_now ≤ now
      → IsValid dec (after d k now)
  unfolding after
  after-IsValid d k now v h =
      let alive = live d.ttl_seconds now d.entries in
      let kept = Distinct-live dec d.ttl_seconds now d.entries v.distinct in
      record {
        capacity_positive = v.capacity_positive;
        ttl_positive = v.ttl_positive;
        bounded =
            omega (arith, length-drop (length (touched d k now) - d.capacity) (touched d k now));
        ascending = Ascending-drop _ now (touched d k now) (
            Ascending-snoc _ now k _
              (Ascending-remove dec _ k alive (Ascending-live _ now _ d.entries v.ascending)) h);
        distinct = Distinct-drop dec _ (touched d k now) (
            Distinct-snoc dec k now _ (contains-remove_self dec k alive kept)
              (Distinct-remove dec k alive kept));
      }

  hit-newest :
      (c : ℕ) (k : K) (now : ℕ) (alive : Entries K)
      → length alive ≤ c
      → contains dec k alive ≡ true
      → move_to_end dec k (assign dec k now alive) ≡ newest c (remove dec k alive ++ (k, now) ∷ [])
  hit-newest c k now alive h e = rw (move_to_end-assign dec k now alive e) (
      let fits : length (remove dec k alive ++ (k, now) ∷ []) - c ≡ 0 = omega (
        arith,
        length-append {0} (remove dec k alive) ((k, now) ∷ []),
        length-remove dec k alive e,
      ) in
      sym (drop_zero_of _ _ fits))

  cap-newest :
      (c : ℕ) (l : Entries K)
      → length l ≤ suc c
      → (if ltb c (length l) then pop_first l else l) ≡ newest c l
  unfolding pop_first
  cap-newest c [] h = rw (drop_zero_of (0 - c) [] (omega arith)) (ground arith)
  cap-newest c (x ∷ l) h = elim (Bool-cases (ltb c (suc (length l)))) [
    | inl e ↦
        let one : suc (length l) - c ≡ suc 0 = omega (arith, ltb→lt c (suc (length l)) e) in
        rw e (rw one refl)
    | inr e ↦ rw e (sym (drop_zero_of _ (x ∷ l) (omega (arith, ltb→le c (suc (length l)) e))))
  ]

  miss-newest :
      (c : ℕ) (k : K) (now : ℕ) (alive : Entries K)
      → length alive ≤ c
      → contains dec k alive ≡ false
      → (if ltb c (length (assign dec k now alive))
          then pop_first (assign dec k now alive)
          else assign dec k now alive)
        ≡ newest c (remove dec k alive ++ (k, now) ∷ [])
  miss-newest c k now alive h e =
      rw (assign-new dec k now alive e, remove_absent dec k alive e)
        (cap-newest c (alive ++ (k, now) ∷ [])
          (omega (arith, length-append {0} alive ((k, now) ∷ []))))

  not_backwards : (o : Option ℕ) (c : ℕ) → last_or_zero o ≤ c → moves_backwards o c ≡ false
  unfolding moves_backwards
  not_backwards none c h = refl
  not_backwards (some t) c h = ground arith

  computes :
      (d : Deduplicator K) (reading : ℕ) (k : K) (now : Option ℕ)
      → IsValid dec d
      → last_or_zero d.last_now ≤ current_time reading now
      → seen_or_add dec d reading k now
        ≡ ok (
          after d k (current_time reading now),
          contains dec k (live d.ttl_seconds (current_time reading now) d.entries),
        )
  unfolding seen_or_add after
  computes d reading k now v h =
      let c = current_time reading now in
      let alive = live d.ttl_seconds c d.entries in
      let fits : length alive ≤ d.capacity =
        omega (arith, length-live d.ttl_seconds c d.entries, v.bounded) in
      rw (not_backwards d.last_now c h) (
        rw (expire-live d.ttl_seconds c _ d.entries v.ascending)
          (elim (Bool-cases (contains dec k alive)) [
            | inl e ↦ rw e (rw (hit-newest d.capacity k c alive fits e) refl)
            | inr e ↦ rw e (rw (miss-newest d.capacity k c alive fits e) refl)
          ]))

  -- On a valid deduplicator whose last time is not after the call's, `seen_or_add` returns whether
  -- the identity is among the entries seen less than the TTL ago; the entries become those, with the
  -- identity at the end at the call's time, cut to the newest `capacity`; the invariant is kept.
  pub seen_or_add-after :
      (d : Deduplicator K) (reading : ℕ) (k : K) (now : Option ℕ)
      → IsValid dec d
      → last_or_zero d.last_now ≤ current_time reading now
      → let current = current_time reading now in
        (seen_or_add dec d reading k now
          ≡ ok (after d k current, contains dec k (live d.ttl_seconds current d.entries)))
        × IsValid dec (after d k current)
  seen_or_add-after d reading k now v h =
      (computes d reading k now v h, after-IsValid d k (current_time reading now) v h)
