-- ===== src/Clock/Scheduler/Boundaries.antt =====
-- The boundaries that `init` computes and `advance_to` keeps.
use native.Mathlib.Nat.{suc-add, add-suc}
use cvf.Prelude.{
  ℕ, zero, suc, ◌+◌, ◌-◌, ◌*◌, ◌/◌, ◌%◌, ◌≤◌, ◌<◌, ◌≡◌, refl, min, List, [], ◌∷◌, ◌++◌, pos, leb,
  ◌==◌, if◌then◌else◌, Bool-cases, inl, inr, leb→le, leb→lt, le→ltb, arith, append_assoc, sym, ap,
  ◌∙◌,
}
use cvf.Outcome.{ok}
use cvf.Time.{aware}
use cvf.Clock.Scheduler.{
  feature, signal, DecisionTick, DecisionScheduler, init, due_ticks, pass_boundary, advance_loop,
  rounds, advance_to,
}
use cvf.Clock.Scheduler.Multiples.{IsNext, not_multiple, IsNext-of_div, IsNext-pass, IsNext-wait}

-- The two boundaries are the first multiples of their intervals after `c`.
pub record IsAligned (c : ℕ) (s : DecisionScheduler) : Type 0 where
  pub features : IsNext c s.feature_interval s.next_feature
  pub signals : IsNext c s.signal_interval s.next_signal

-- The invariant of a scheduler between two calls.
abbrev pub IsValid : DecisionScheduler → Type 0
IsValid s = IsAligned s.cursor s

-- From an aware start and positive intervals the constructor returns a valid scheduler with its
-- cursor at the start: the next boundaries are the first multiples of the intervals after it.
pub init-IsValid :
    (t f g : ℕ)
    → 0 < f
    → 0 < g
    → (s : DecisionScheduler) × (init (aware t) (pos f) (pos g) ≡ ok s)
      × IsValid s
      × (s.cursor ≡ t)
      × (s.feature_interval ≡ f)
      × (s.signal_interval ≡ g)
unfolding init
init-IsValid t zero g hf hg = absurd (omega arith)
init-IsValid t (suc f) zero hf hg = absurd (omega arith)
init-IsValid t (suc f) (suc g) hf hg = (
  record {
    cursor = t;
    feature_interval = suc f;
    signal_interval = suc g;
    next_feature = (t / suc f + 1) * suc f;
    next_signal = (t / suc g + 1) * suc g;
  },
  ground arith,
  record { features = IsNext-of_div t (suc f) hf; signals = IsNext-of_div t (suc g) hg },
  refl,
  refl,
  refl,
)

-- The reference: what is due at an instant, and at each of `n` microseconds after `c`.
pub due_at : ℕ → ℕ → ℕ → List DecisionTick
due_at fi si t =
    (if t % fi == 0 then record { timestamp = t; kind = feature } ∷ [] else [])
    ++ (if t % si == 0 then record { timestamp = t; kind = signal } ∷ [] else [])

unfoldable pub due_in : ℕ → ℕ → ℕ → ℕ → List DecisionTick
due_in fi si c zero = []
due_in fi si c (suc n) = due_at fi si (suc c) ++ due_in fi si (suc c) n

pub due_in-add :
    (fi si c m n : ℕ) → due_in fi si c (m + n) ≡ due_in fi si c m ++ due_in fi si (c + m) n
unfolding due_in
due_in-add fi si c zero n = ground arith
due_in-add fi si c (suc m) n =
    rw (suc-add m n, add-suc c m, ← suc-add c m)
      (rw (due_in-add fi si (suc c) m n)
        (sym (append_assoc (due_at fi si (suc c)) (due_in fi si (suc c) m) _)))

module _ (s : DecisionScheduler) (c : ℕ) (h : IsAligned c s) where
  -- Nothing is due before the next boundary.
  due_in-quiet :
      (d n : ℕ)
      → c ≤ d
      → d + n < s.next_feature
      → d + n < s.next_signal
      → due_in s.feature_interval s.signal_interval d n ≡ []
  unfolding due_in due_at
  due_in-quiet d zero lo hf hs = refl
  due_in-quiet d (suc n) lo hf hs =
      rw (not_multiple c _ _ (suc d) h.features (omega arith) (omega arith)) (
        rw (not_multiple c _ _ (suc d) h.signals (omega arith) (omega arith))
          (due_in-quiet (suc d) n (omega arith) (omega arith) (omega arith)))

  due_ticks-due_at :
      due_ticks s ≡ due_at s.feature_interval s.signal_interval (min s.next_feature s.next_signal)
  unfolding due_ticks due_at
  due_ticks-due_at = ground (
    arith,
    h.features.multiple,
    h.signals.multiple,
    not_multiple c _ _ s.next_feature h.signals,
    not_multiple c _ _ s.next_signal h.features,
    h.features.after,
    h.signals.after,
  )

  pass_boundary-IsAligned : IsAligned (min s.next_feature s.next_signal) (pass_boundary s)
  unfolding pass_boundary
  pass_boundary-IsAligned = record {
    features =
        IsNext-pass c _ _ _ h.features (omega (arith, h.features.after, h.signals.after))
          (omega arith);
    signals =
        IsNext-pass c _ _ _ h.signals (omega (arith, h.features.after, h.signals.after))
          (omega arith);
  }

  round_at :
      (k m : ℕ)
      → min s.next_feature s.next_signal ≡ suc (c + k)
      → due_in s.feature_interval s.signal_interval c (k + suc m)
        ≡ due_ticks s ++ due_in s.feature_interval s.signal_interval (suc (c + k)) m
  unfolding due_in
  round_at k m e =
      rw due_in-add
        (rw (due_in-quiet c k (omega arith) (omega arith) (omega arith), due_ticks-due_at, e) refl)

  -- One round: what is due up to the boundary, and what is due after it.
  due_in-round :
      (end : ℕ)
      → min s.next_feature s.next_signal ≤ end
      → due_in s.feature_interval s.signal_interval c (end - c)
        ≡ due_ticks s
          ++ due_in s.feature_interval s.signal_interval
              (min s.next_feature s.next_signal)
              (end - min s.next_feature s.next_signal)
  due_in-round end le =
      let b = min s.next_feature s.next_signal in
      let lo : c < b = omega (arith, h.features.after, h.signals.after) in
      let e : b ≡ suc (c + (b - suc c)) = omega arith in
      let d : end - c ≡ (b - suc c) + suc (end - b) = omega arith in
      rw d (round_at (b - suc c) (end - b) e ∙ rw (← e) refl)

  rounds-pass :
      (end : ℕ)
      → min s.next_feature s.next_signal ≤ end
      → rounds (pass_boundary s) end < rounds s end
  unfolding pass_boundary
  rounds-pass end le = ground (arith, h.features.positive, h.signals.positive)

-- What a run of the `while` gives: the reference's ticks, and boundaries after `end`.
pub record Advanced (s : DecisionScheduler) (c end : ℕ) (r : List DecisionTick × DecisionScheduler)
    : Type 0 where
  pub ticks : r.0 ≡ due_in s.feature_interval s.signal_interval c (end - c)
  pub aligned : IsAligned end r.1
  pub feature_kept : r.1.feature_interval ≡ s.feature_interval
  pub signal_kept : r.1.signal_interval ≡ s.signal_interval

pub advance_loop-Advanced :
    (fuel : ℕ) (s : DecisionScheduler) (c end : ℕ)
    → IsAligned c s
    → c ≤ end
    → rounds s end < fuel
    → Advanced s c end (advance_loop fuel s end)
unfolding advance_loop
advance_loop-Advanced zero s c end h le f = absurd (omega arith)
advance_loop-Advanced (suc fuel) s c end h le f =
    elim (Bool-cases (leb (min s.next_feature s.next_signal) end)) [
      | inl more ↦
          let b = min s.next_feature s.next_signal in
          let le' : b ≤ end = leb→le b end more in
          let ih =
            advance_loop-Advanced fuel (pass_boundary s) b end (pass_boundary-IsAligned s c h) le'
              (omega (arith, rounds-pass s c h end le')) in
          rw (more, advance_loop)
            (record {
              ticks = ap (λ l. due_ticks s ++ l) ih.ticks ∙ sym (due_in-round s c h end le');
              aligned = ih.aligned;
              feature_kept = ih.feature_kept;
              signal_kept = ih.signal_kept;
            })
      | inr done ↦
          let lt = leb→lt (min s.next_feature s.next_signal) end done in
          rw (done, advance_loop)
            (record {
              ticks =
                  sym (due_in-quiet s c h c (end - c) (omega arith) (omega arith) (omega arith));
              aligned = record {
                features = IsNext-wait c _ _ end h.features le (omega arith);
                signals = IsNext-wait c _ _ end h.signals le (omega arith);
              };
              feature_kept = refl;
              signal_kept = refl;
            })
    ]

-- `advance_to` on a valid scheduler and a target that is not behind its cursor.
pub record AdvancedTo (s : DecisionScheduler) (end : ℕ) (r : List DecisionTick × DecisionScheduler)
    : Type 0 where
  pub ticks : r.0 ≡ due_in s.feature_interval s.signal_interval s.cursor (end - s.cursor)
  pub valid : IsValid r.1
  pub cursor : r.1.cursor ≡ end
  pub feature_kept : r.1.feature_interval ≡ s.feature_interval
  pub signal_kept : r.1.signal_interval ≡ s.signal_interval

after : DecisionScheduler → ℕ → List DecisionTick × DecisionScheduler
after s end =
    let (ticks, s') = advance_loop (suc (rounds s end)) s end in (ticks, record s' { cursor = end })

after-AdvancedTo :
    (s : DecisionScheduler) (end : ℕ) → IsValid s → s.cursor ≤ end → AdvancedTo s end (after s end)
unfolding after
after-AdvancedTo s end v le =
    let a = advance_loop-Advanced (suc (rounds s end)) s s.cursor end v le (omega arith) in
    record {
      ticks = a.ticks;
      valid = record { features = a.aligned.features; signals = a.aligned.signals };
      cursor = refl;
      feature_kept = a.feature_kept;
      signal_kept = a.signal_kept;
    }

-- From a valid scheduler, an aware target that is not behind the cursor is always served: the ticks
-- are exactly the multiples of the two intervals in (cursor, target], in time order and the feature
-- tick first, the cursor is the target, and the scheduler stays valid with its intervals.
pub advance_to-due_in :
    (s : DecisionScheduler) (end : ℕ)
    → IsValid s
    → s.cursor ≤ end
    → (r : List DecisionTick × DecisionScheduler) × (advance_to s (aware end) ≡ ok r)
      × AdvancedTo s end r
unfolding advance_to after
advance_to-due_in s end v le =
    (after s end, rw (le→ltb s.cursor end le) refl, after-AdvancedTo s end v le)
