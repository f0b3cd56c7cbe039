-- ===== src/Clock/Scheduler/Due.antt =====
-- `has_due_tick` foretells whether `advance_to` emits a tick.
use cvf.Prelude.{
  ℕ, suc, ◌≡◌, refl, sym, ap, min, Bool, true, false, List, [], ◌∷◌, ◌++◌, leb, ltb, inl, inr,
  Bool-cases, arith,
}
use cvf.Outcome.{ok, ◌>>=◌}
use cvf.Time.{DateTime, aware, naive}
use cvf.Clock.Scheduler.{
  DecisionTick, DecisionScheduler, has_due_tick, due_ticks, advance_loop, rounds, advance_to,
}

abbrev pub any_tick : List DecisionTick → Bool
any_tick [] = false
any_tick (_ ∷ _) = true

any_tick-due_ticks :
    (s : DecisionScheduler) (rest : List DecisionTick) → any_tick (due_ticks s ++ rest) ≡ true
unfolding due_ticks
any_tick-due_ticks s rest = ground arith

any_tick-advance_loop :
    (fuel : ℕ) (s : DecisionScheduler) (end : ℕ)
    → any_tick (advance_loop (suc fuel) s end).0 ≡ leb (min s.next_feature s.next_signal) end
any_tick-advance_loop fuel s end = elim (Bool-cases (leb (min s.next_feature s.next_signal) end)) [
  | inl more ↦ unfold advance_loop in rw (more, advance_loop) (any_tick-due_ticks s _)
  | inr done ↦ unfold advance_loop in rw (done, advance_loop) refl
]

-- For every scheduler and target, `has_due_tick` raises exactly when `advance_to` does, and otherwise
-- tells whether `advance_to` returns any tick.
pub has_due_tick-advance_to :
    (s : DecisionScheduler) (target : DateTime)
    → has_due_tick s target ≡ (advance_to s target >>= λ r. ok (any_tick r.0))
has_due_tick-advance_to s (naive t) = unfold has_due_tick advance_to in refl
has_due_tick-advance_to s (aware end) = elim (Bool-cases (ltb end s.cursor)) [
  | inl behind ↦ unfold has_due_tick advance_to in rw behind refl
  | inr ahead ↦
      unfold has_due_tick advance_to in
      rw ahead (ap ok (sym (any_tick-advance_loop (rounds s end) s end)))
]
