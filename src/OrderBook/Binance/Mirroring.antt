-- ===== src/OrderBook/Binance/Mirroring.antt =====
-- A Binance book that is fed a faithful stream mirrors the venue's book.

use cvf.Prelude.{
  ◌≡◌, ◌≢◌, refl, sym, ap, ◌∙◌, true, false, Option, none, some, List, [], ◌∷◌, ℤ, ◌≤ℤ◌, leb_ℤ,
  ltb_ℤ, All, inl, inr, Bool-cases, leb→le,
}
use cvf.Outcome.{Result, ok}
use cvf.Exec.{continue}
use cvf.Decimals.{Decimals}
use cvf.OrderBook.Base.{live, BookApplyResult}
use cvf.OrderBook.Binance.{DepthUpdate, DepthSnapshot, Book, invalidate, apply_update}
use cvf.OrderBook.Binance.Activation.{
  drop_before, overlaps, from_overlap, drain, activated, no_overlap, bridge, try_activate,
  try_activate_snapshot,
}
use cvf.OrderBook.Binance.Invariant.{is_old, is_broken, is_next, link_case, apply_update-Frame}
use cvf.OrderBook.Binance.Draining.{popped, drain_old, drain_broken, drain_follows}
use cvf.OrderBook.Binance.Mirror.{Venue, Covers, IsFaithful, At, apply_update-At, follows-Covers}

some_injective : (p q : DepthUpdate × List DepthUpdate) → some p ≡ some q → p ≡ q
some_injective p q h = cc

false_not_true : false ≢ true
false_not_true h = absurd (cc)

overlaps_bounds :
    (last : ℤ) (u : DepthUpdate)
    → overlaps last u ≡ true
    → (u.first_update_id ≤ℤ last) × (last ≤ℤ u.final_update_id)
unfolding overlaps
overlaps_bounds last u h = elim (Bool-cases (leb_ℤ u.first_update_id last)) [
  | inl e ↦ elim (Bool-cases (leb_ℤ last u.final_update_id)) [
    | inl f ↦ (leb→le _ _ e, leb→le _ _ f)
    | inr f ↦ absurd (false_not_true (rw (e, f) at h))
  ]
  | inr e ↦ absurd (false_not_true (rw e at h))
]

module _ {d : Decimals} (v : Venue d) where
  pub moved_id : (s t : ℤ) (b : Book d) → some s ≡ some t → At d v s b → At d v t b
  moved_id s t b e h = let q : s ≡ t = cc in rw q at h

  -- Whenever the book has a sequence id, its sides are the venue's at that id.
  pub record Mirrors (b : Book d) : Type 0 where
    pub sides : (s : ℤ) → b.sequence_id ≡ some s → At d v s b
    pub waiting :
        (snap : DepthSnapshot)
        → b.pending_snapshot ≡ some snap
        → b.sequence_id ≡ some snap.last_update_id
    pub settled : b.status ≡ live → b.pending_snapshot ≡ none
    pub faithful : All (IsFaithful d v) b.buffer

  -- A call that does not raise and leaves a mirror.
  pub record Mirrored {A : Type 0} (p : Result A × Book d) : Type 0 where
    pub value : A
    pub returns : p.0 ≡ ok value
    pub mirrors : Mirrors p.1

  pub invalidate-Mirrors :
      (kept : List DepthUpdate) (b : Book d)
      → All (IsFaithful d v) kept
      → Mirrors (invalidate kept b)
  unfolding invalidate
  invalidate-Mirrors kept b f = record {
    sides = λ s e. absurd (cc);
    waiting = λ s e. absurd (cc);
    settled = λ e. refl;
    faithful = f;
  }

  -- What the loop of the activation keeps, with the buffer apart; the snapshot no longer holds the
  -- sequence id then.
  record Drains (p : Result (Option BookApplyResult) × Book d) : Type 0 where
    value : Option BookApplyResult
    returns : p.0 ≡ ok value
    faithful : All (IsFaithful d v) p.1.buffer
    sides : (s : ℤ) → p.1.sequence_id ≡ some s → At d v s p.1
    left : value ≢ none → (p.1.pending_snapshot ≡ none)

  drain-Drains :
      (us : List DepthUpdate) (b : Book d) (s : ℤ)
      → b.buffer ≡ us
      → b.sequence_id ≡ some s
      → At d v s b
      → All (IsFaithful d v) us
      → Drains (drain us b)
  drain-Drains [] b s e k h f =
      unfold drain in
      record {
        value = none;
        returns = refl;
        faithful = rw e tt;
        sides = λ t q. moved_id s t b (sym k ∙ q) h;
        left = λ n. absurd (n refl);
      }
  drain-Drains (u ∷ rest) b s e k h f = elim (link_case b.sequence_id u (rw k tt)) [
    | is_old l ↦ rw (drain_old u rest b l) (drain-Drains rest (popped rest b) s refl k h f.1)
    | is_broken l ↦ rw (drain_broken u rest b l) (
        unfold invalidate in
        record {
          value = _;
          returns = refl;
          faithful = f;
          sides = λ t q. absurd (cc);
          left = λ n. refl;
        })
    | is_next l ↦
        let b' = popped rest b in
        let (done, at, now) = apply_update-At d v u s b' f.0 (follows-Covers d s u (rw k at l)) h in
        rw (drain_follows u rest b l done) (
          drain-Drains rest (apply_update u b').1 u.final_update_id (apply_update-Frame u b').buffer
            now at f.1)
  ]

  activated-Mirrored :
      (p : Result (Option BookApplyResult) × Book d)
      → Drains p
      → Mirrored (continue p.0 activated p.1)
  unfolding activated
  activated-Mirrored (r, c) h = rw (h.returns) (by_value h.value h.left)
    where
      by_value :
          (o : Option BookApplyResult)
          → (o ≢ none → c.pending_snapshot ≡ none)
          → Mirrored (activated o c)
      by_value none l = record {
        value = _;
        returns = refl;
        mirrors = record {
          sides = h.sides;
          waiting = λ snap e. absurd (cc);
          settled = λ e. refl;
          faithful = h.faithful;
        };
      }
      by_value (some x) l =
          let gone : c.pending_snapshot ≡ none = l (λ e. absurd (cc)) in
          record {
            value = _;
            returns = refl;
            mirrors = record {
              sides = h.sides;
              waiting = λ snap e. absurd (cc);
              settled = λ e. gone;
              faithful = h.faithful;
            };
          }

  no_overlap-Mirrored :
      (snapshot : DepthSnapshot) (us : List DepthUpdate) (b : Book d)
      → b.status ≢ live
      → Mirrors b
      → Mirrored (no_overlap snapshot us b)
  unfolding no_overlap
  no_overlap-Mirrored snapshot [] b w h = record { value = _; returns = refl; mirrors = h }
  no_overlap-Mirrored snapshot (u ∷ us) b w h =
      elim (Bool-cases (ltb_ℤ snapshot.last_update_id u.first_update_id)) [
        | inr e ↦ rw e (record { value = _; returns = refl; mirrors = h })
        | inl e ↦ rw e (record {
          value = _;
          returns = refl;
          mirrors = record {
            sides = h.sides;
            waiting = h.waiting;
            settled = λ q. absurd (cc);
            faithful = h.faithful;
          };
        })
      ]

  drop_before-All :
      (last : ℤ) (us : List DepthUpdate)
      → All (IsFaithful d v) us
      → All (IsFaithful d v) (drop_before last us)
  unfolding drop_before
  drop_before-All last [] f = tt
  drop_before-All last (u ∷ us) f = elim (Bool-cases (ltb_ℤ u.final_update_id last)) [
    | inl e ↦ rw (e, drop_before) (drop_before-All last us f.1)
    | inr e ↦ rw (e, drop_before) f
  ]

  -- The update that `_try_activate_snapshot` starts from covers the snapshot's id.
  from_overlap-Covers :
      (last : ℤ) (us : List DepthUpdate) (u : DepthUpdate) (rest : List DepthUpdate)
      → All (IsFaithful d v) us
      → from_overlap last us ≡ some (u, rest)
      → IsFaithful d v u × Covers d u last × All (IsFaithful d v) rest
  unfolding from_overlap
  from_overlap-Covers last [] u rest f e = absurd (cc)
  from_overlap-Covers last (x ∷ us) u rest f e = elim (Bool-cases (overlaps last x)) [
    | inl t ↦
        let same = some_injective (x, us) (u, rest) (rw (t, from_overlap) at e) in
        rw (sym (ap (λ p. p.0) same))
          (rw (sym (ap (λ p. p.1) same)) (f.0, inr (overlaps_bounds last x t), f.1))
    | inr t ↦ from_overlap-Covers last us u rest f.1 (rw (t, from_overlap) at e)
  ]

  bridge-Mirrored :
      (snapshot : DepthSnapshot) (o : Option (DepthUpdate × List DepthUpdate)) (b : Book d)
      → b.status ≢ live
      → Mirrors b
      → b.sequence_id ≡ some snapshot.last_update_id
      → ((u : DepthUpdate) (rest : List DepthUpdate)
          → o ≡ some (u, rest)
          → IsFaithful d v u × Covers d u snapshot.last_update_id × All (IsFaithful d v) rest)
      → Mirrored (bridge snapshot o b)
  unfolding bridge
  bridge-Mirrored snapshot none b w h k c = no_overlap-Mirrored snapshot b.buffer b w h
  bridge-Mirrored snapshot (some (u, rest)) b w h k c =
      let b' = popped rest b in
      let (faithful, covers, others) = c u rest refl in
      let (done, at, now) =
        apply_update-At d v u snapshot.last_update_id b' faithful covers
          (h.sides snapshot.last_update_id k) in
      let c' = (apply_update u b').1 in
      rw done (
        activated-Mirrored (drain rest c')
          (drain-Drains rest c' u.final_update_id (apply_update-Frame u b').buffer now at others))

  pub try_activate_snapshot-Mirrored :
      (b : Book d) → b.status ≢ live → Mirrors b → Mirrored (try_activate_snapshot b)
  unfolding try_activate_snapshot try_activate
  try_activate_snapshot-Mirrored b w h = try_with b.pending_snapshot refl
    where
      try_with : (o : Option DepthSnapshot) → b.pending_snapshot ≡ o → Mirrored (try_activate o b)
      try_with none e = record { value = none; returns = refl; mirrors = h }
      try_with (some snapshot) e =
          let last = snapshot.last_update_id in
          let kept = drop_before last b.buffer in
          let kept_faithful = drop_before-All last b.buffer h.faithful in
          let k = h.waiting snapshot e in
          bridge-Mirrored snapshot (from_overlap last kept) (popped kept b) w
            (record {
              sides = h.sides;
              waiting = h.waiting;
              settled = h.settled;
              faithful = kept_faithful;
            })
            k (λ u rest q. from_overlap-Covers last kept u rest kept_faithful q)
