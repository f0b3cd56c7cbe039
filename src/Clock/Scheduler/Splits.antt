-- ===== src/Clock/Scheduler/Splits.antt =====
-- A scheduler does not see how an advance is cut into steps.
use cvf.Prelude.{ℕ, ◌+◌, ◌-◌, ◌≤◌, ◌≡◌, refl, sym, ap, ap₂, ◌∙◌, List, ◌++◌, arith}
use cvf.Outcome.{Result, ok, ◌>>=◌}
use cvf.Time.{aware}
use cvf.Clock.Scheduler.{DecisionTick, DecisionScheduler, advance_to}
use cvf.Clock.Scheduler.Multiples.{IsNext-unique}
use cvf.Clock.Scheduler.Boundaries.{IsValid, due_in-add, AdvancedTo, advance_to-due_in}

abbrev pub Step : Type 0
Step = List DecisionTick × DecisionScheduler

scheduler_unique :
    (s t : DecisionScheduler)
    → s.cursor ≡ t.cursor
    → s.feature_interval ≡ t.feature_interval
    → s.signal_interval ≡ t.signal_interval
    → IsValid s
    → IsValid t
    → s ≡ t
scheduler_unique s t c f g v w =
    let nf =
      IsNext-unique s.cursor s.feature_interval s.next_feature t.next_feature v.features
        (rw (c, f) w.features) in
    let ns =
      IsNext-unique s.cursor s.signal_interval s.next_signal t.next_signal v.signals
        (rw (c, g) w.signals) in
    ground arith

AdvancedTo-unique :
    (s : DecisionScheduler) (end : ℕ) (p q : Step) → AdvancedTo s end p → AdvancedTo s end q → p ≡ q
AdvancedTo-unique s end (l, t) (m, u) a b =
    let e : t ≡ u =
      scheduler_unique t u (a.cursor ∙ sym b.cursor) (a.feature_kept ∙ sym b.feature_kept)
        (a.signal_kept ∙ sym b.signal_kept) a.valid b.valid in
    ap₂ (λ x y. (x, y)) (a.ticks ∙ sym b.ticks) e

AdvancedTo-trans :
    (s : DecisionScheduler) (a b : ℕ) (p q : Step)
    → s.cursor ≤ a
    → a ≤ b
    → AdvancedTo s a p
    → AdvancedTo p.1 b q
    → AdvancedTo s b (p.0 ++ q.0, q.1)
AdvancedTo-trans s a b (l, t) (m, u) h k x y = record {
  ticks =
      let at_a : s.cursor + (a - s.cursor) ≡ a = omega arith in
      let whole : b - s.cursor ≡ (a - s.cursor) + (b - a) = omega arith in
      rw (whole, due_in-add, at_a)
        (ap₂ ◌++◌ x.ticks (y.ticks ∙ rw (x.cursor, x.feature_kept, x.signal_kept) refl));
  valid = y.valid;
  cursor = y.cursor;
  feature_kept = y.feature_kept ∙ x.feature_kept;
  signal_kept = y.signal_kept ∙ x.signal_kept;
}

-- The ticks of an advance to `a` and of one to `b` from there, and the scheduler after both.
abbrev pub advance_twice : DecisionScheduler → ℕ → ℕ → Result Step
advance_twice s a b = do
  p ← advance_to s (aware a)
  q ← advance_to p.1 (aware b)
  ok (p.0 ++ q.0, q.1)

-- On a valid scheduler an advance to `a` and then to `b` at or after `a`, with the ticks of both, is
-- the advance to `b` at once: the same ticks in the same order, and the same scheduler.
pub advance_to-advance_to :
    (s : DecisionScheduler) (a b : ℕ)
    → IsValid s
    → s.cursor ≤ a
    → a ≤ b
    → advance_twice s a b ≡ advance_to s (aware b)
advance_to-advance_to s a b v h k =
    let (p, ep, x) = advance_to-due_in s a v h in
    let (q, eq, y) = advance_to-due_in p.1 b x.valid (omega (arith, x.cursor)) in
    let (r, er, z) = advance_to-due_in s b v (omega arith) in
    rw ep (rw eq (rw er (ap ok (AdvancedTo-unique s b _ r (AdvancedTo-trans s a b p q h k x y) z))))
