-- ===== src/Features/Timeline/Ticks.antt =====
-- features/runtime.py: `_emit_ticks_through`, for sinks that record what they are given.
use cvf.Prelude.{
  ℕ, zero, suc, ◌+◌, ◌-◌, ◌≤◌, ◌<◌, max, ◌≡◌, refl, sym, ap, ◌∙◌, List, [], ◌∷◌, ◌++◌, true, false,
  some, map, append_assoc, append-nil, arith, Bool-cases, leb, ltb, leb→le, leb→lt, ltb→lt, ltb→le,
  inl, inr,
}
use cvf.Outcome.{ok}
use cvf.Time.{aware}
use cvf.Clock.Scheduler.{DecisionTick, DecisionScheduler, advance_to}
use cvf.Clock.Scheduler.Boundaries.{IsValid, due_in, due_in-add, AdvancedTo, advance_to-due_in}
use cvf.Clock.Scheduler.Due.{any_tick, has_due_tick-advance_to}
use cvf.Features.Timeline.{
  Driver, TimelineSettings, on_world, consume_ticks, take_ticks, emit_if_due, emit_from,
  emit_ticks_through,
}
use cvf.Features.Timeline.Spec.{Action, ticked, trace, ticks}

prefix_empty : (a b : List DecisionTick) → a ++ b ≡ [] → a ≡ []
prefix_empty [] b h = refl
prefix_empty (x ∷ a) b h = absurd (cc)

due_in-rest :
    (f g c p target : ℕ)
    → c ≤ p
    → c ≤ target
    → due_in f g c (p - c) ≡ []
    → due_in f g c (target - c) ≡ due_in f g p (target - p)
unfolding due_in
due_in-rest f g c p target cp ct quiet = elim (Bool-cases (leb p target)) [
  | inl le ↦
      let h = leb→le p target le in
      let d : target - c ≡ (p - c) + (target - p) = omega arith in
      let e : c + (p - c) ≡ p = omega arith in
      rw d (rw (due_in-add f g c (p - c) (target - p), quiet, e) refl)
  | inr gt ↦
      let h = leb→lt p target gt in
      let d : p - c ≡ (target - c) + (p - target) = omega arith in
      let z : target - p ≡ 0 = omega arith in
      rw z (
        prefix_empty (due_in f g c (target - c)) _
          (sym (due_in-add f g c (target - c) (p - target)) ∙ ap (due_in f g c) (sym d) ∙ quiet))
]

due_in-quiet_after :
    (f g c p target : ℕ)
    → c ≤ p
    → due_in f g c (p - c) ≡ []
    → due_in f g p (target - p) ≡ []
    → due_in f g c (max p target - c) ≡ []
due_in-quiet_after f g c p target cp quiet after =
    let d : max p target - c ≡ (p - c) + (target - p) = omega arith in
    let e : c + (p - c) ≡ p = omega arith in
    rw d (rw (due_in-add f g c (p - c) (target - p), quiet, e) after)

no_tick : (ts : List DecisionTick) → any_tick ts ≡ false → ts ≡ []
no_tick [] h = refl
no_tick (t ∷ ts) h = absurd (cc)

later_tick : (f g p n : ℕ) → any_tick (due_in f g p n) ≡ true → 0 < n
unfolding due_in
later_tick f g p zero h = absurd (cc)
later_tick f g p (suc n) h = omega arith

module _ {P : Type 0} (settings : TimelineSettings) where
  -- The driver has emitted the ticks up to `p`: its scheduler may stand earlier, but no tick is due
  -- in between.
  pub record Clocked (p : ℕ) (s : Driver P (List (Action P))) : Type 0 where
    pub clock : DecisionScheduler
    pub current : s.scheduler ≡ some clock
    pub valid : IsValid clock
    pub features : clock.feature_interval ≡ settings.feature_interval
    pub signals : clock.signal_interval ≡ settings.signal_interval
    pub started : clock.cursor ≤ p
    pub quiet :
        due_in settings.feature_interval settings.signal_interval clock.cursor (p - clock.cursor)
        ≡ []

  -- A call that emits the ticks in (p, target] and leaves all but the scheduler.
  pub record Emitted (p target : ℕ) (s s' : Driver P (List (Action P))) : Type 0 where
    pub clocked : Clocked (max p target) s'
    pub world : s'.world ≡ s.world ++ ticks settings p target
    pub frame : s' ≡ record s { scheduler = s'.scheduler; world = s'.world }

  consume_ticks-trace :
      (ts : List DecisionTick) (s : Driver P (List (Action P)))
      → consume_ticks trace settings ts s ≡ (ok tt, record s { world = s.world ++ map ticked ts })
  unfolding consume_ticks on_world
  consume_ticks-trace [] s = rw (append-nil s.world) refl
  consume_ticks-trace (t ∷ ts) s =
      rw
        (
          consume_ticks-trace ts (record s { world = s.world ++ ticked t ∷ [] }),
          append_assoc s.world (ticked t ∷ []) (map ticked ts),
        )
        refl

  still :
      (p target : ℕ) (s : Driver P (List (Action P)))
      → Clocked p s
      → due_in settings.feature_interval settings.signal_interval p (target - p) ≡ []
      → Emitted p target s s
  still p target s c none_due = record {
    clocked = record {
      clock = c.clock;
      current = c.current;
      valid = c.valid;
      features = c.features;
      signals = c.signals;
      started = let h = c.started in omega arith;
      quiet = due_in-quiet_after _ _ _ p target c.started c.quiet none_due;
    };
    world = rw none_due (sym (append-nil s.world));
    frame = refl;
  }

  -- What is due between the clock and the target, by the scheduler's own intervals.
  due_now :
      (p target : ℕ) (s : Driver P (List (Action P))) (c : Clocked p s)
      → c.clock.cursor ≤ target
      → due_in c.clock.feature_interval c.clock.signal_interval c.clock.cursor
          (target - c.clock.cursor)
        ≡ due_in settings.feature_interval settings.signal_interval p (target - p)
  due_now p target s c le =
      rw (c.features, c.signals) (due_in-rest _ _ _ p target c.started le c.quiet)

  taken :
      (p target : ℕ) (s : Driver P (List (Action P))) (c : Clocked p s)
      (r : List DecisionTick × DecisionScheduler)
      → c.clock.cursor ≤ target
      → AdvancedTo c.clock target r
      → any_tick r.0 ≡ true
      → Emitted p target s (record s { scheduler = some r.1; world = s.world ++ map ticked r.0 })
  taken p target s c r le a more =
      let e = a.ticks ∙ due_now p target s c le in
      let lt = later_tick _ _ p (target - p) (ap any_tick (sym e) ∙ more) in
      let m : max p target ≡ target = omega arith in
      record {
        clocked = record {
          clock = r.1;
          current = refl;
          valid = a.valid;
          features = a.feature_kept ∙ c.features;
          signals = a.signal_kept ∙ c.signals;
          started = let h = a.cursor in omega arith;
          quiet =
              let z : max p target - r.1.cursor ≡ 0 = let h = a.cursor in omega arith in
              unfold due_in in rw z refl;
        };
        world = rw e refl;
        frame = refl;
      }

  take_ticks-trace :
      (target : ℕ) (clock : DecisionScheduler) (r : List DecisionTick × DecisionScheduler)
      (s : Driver P (List (Action P)))
      → advance_to clock (aware target) ≡ ok r
      → take_ticks trace settings target clock s
        ≡ (ok tt, record s { scheduler = some r.1; world = s.world ++ map ticked r.0 })
  unfolding take_ticks
  take_ticks-trace target clock r s served =
      rw (served, take_ticks) (consume_ticks-trace r.0 (record s { scheduler = some r.1 }))

  emit_if_due-trace :
      (target : ℕ) (clock : DecisionScheduler) (s : Driver P (List (Action P)))
      → emit_if_due trace settings (ok true) target clock s
        ≡ take_ticks trace settings target clock s
  unfolding emit_if_due on_world
  emit_if_due-trace target clock s = refl

  emit_from-Emitted :
      (p target : ℕ) (s : Driver P (List (Action P))) (c : Clocked p s)
      → (s' : Driver P (List (Action P))) × (emit_from trace settings (some c.clock) target s
          ≡ (ok tt, s'))
        × Emitted p target s s'
  unfolding emit_from
  emit_from-Emitted p target s c = elim (Bool-cases (ltb target c.clock.cursor)) [
    | inl behind ↦
        let lt = ltb→lt target c.clock.cursor behind in
        let le = c.started in
        let z : target - p ≡ 0 = omega arith in
        (s, rw behind refl, still p target s c (unfold due_in in rw z refl))
    | inr ahead ↦
        let le = ltb→le target c.clock.cursor ahead in
        let (r, served, a) = advance_to-due_in c.clock target c.valid le in
        let due = has_due_tick-advance_to c.clock (aware target) in
        elim (Bool-cases (any_tick r.0)) [
          | inl more ↦ (
            record s { scheduler = some r.1; world = s.world ++ map ticked r.0 },
            rw (ahead, due, served, more)
                (emit_if_due-trace target c.clock s ∙ take_ticks-trace target c.clock r s served),
            taken p target s c r le a more,
          )
          | inr nothing ↦ (
            s,
            unfold emit_if_due in rw (ahead, due, served, nothing) refl,
            still p target s c (sym (due_now p target s c le) ∙ sym a.ticks ∙ no_tick r.0 nothing),
          )
        ]
  ]

  pub emit_ticks_through-Emitted :
      (p target : ℕ) (s : Driver P (List (Action P)))
      → Clocked p s
      → (s' : Driver P (List (Action P))) × (emit_ticks_through trace settings target s
          ≡ (ok tt, s'))
        × Emitted p target s s'
  unfolding emit_ticks_through
  emit_ticks_through-Emitted p target s c =
      let (s', run, e) = emit_from-Emitted p target s c in
      (s', ap (λ o. emit_from trace settings o target s) c.current ∙ run, e)
