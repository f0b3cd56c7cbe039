-- ===== src/Features/Timeline/Spec.antt =====
-- The timeline that the driver promises: the events in the order of the heap, and between them the
-- decision ticks, each after every event that is not later.
use cvf.Prelude.{
  ℕ, ◌+◌, ◌-◌, ◌≤◌, max, ◌≡◌, refl, sym, List, [], ◌∷◌, ◌++◌, map, append_assoc, append-nil, arith,
  Bool-cases, leb, leb→le, leb→lt, inl, inr,
}
use mathlib.Core.List.{map-append}
use cvf.Outcome.{ok}
use cvf.Clock.Scheduler.{DecisionTick}
use cvf.Clock.Scheduler.Boundaries.{due_in, due_in-add}
use cvf.Features.Timeline.{TimelineEvent, QueuedEvent, Sinks, TimelineSettings}

pub data Action (P : Type 0) : Type 0 where
  published : TimelineEvent P → Action P
  ticked : DecisionTick → Action P

-- Sinks that never fail and record what they are given.
abbrev pub trace : {P : Type 0} → Sinks (TimelineEvent P) (List (Action P))
trace = record {
  publish = λ event w. (ok tt, w ++ published event ∷ []);
  drain = λ w. (ok tt, w);
  consume_tick = λ tick w. (ok tt, w ++ ticked tick ∷ []);
}

module _ {P : Type 0} (settings : TimelineSettings) where
  -- The ticks due in (from, through].
  abbrev pub ticks : ℕ → ℕ → List (Action P)
  ticks from through =
      map ticked (due_in settings.feature_interval settings.signal_interval from (through - from))

  -- Where the ticks stand after the events: a microsecond before the last event time at least.
  abbrev pub reached : ℕ → List (QueuedEvent P) → ℕ
  reached p [] = p
  reached p (x ∷ xs) = reached (max p (x.receive_timestamp - 1)) xs

  -- The events, each after the ticks that are due before it.
  abbrev pub woven : ℕ → List (QueuedEvent P) → List (Action P)
  woven p [] = []
  woven p (x ∷ xs) =
      ticks p (x.receive_timestamp - 1)
      ++ (published x.event ∷ woven (max p (x.receive_timestamp - 1)) xs)

  -- The timeline of some events up to a watermark; the ticks start at the first event.
  abbrev pub timeline : List (QueuedEvent P) → ℕ → List (Action P)
  timeline [] w = []
  timeline (x ∷ xs) w =
      woven x.receive_timestamp (x ∷ xs) ++ ticks (reached x.receive_timestamp (x ∷ xs)) w

  pub ticks-split : (a b c : ℕ) → a ≤ b → ticks a (max b c) ≡ ticks a b ++ ticks b c
  unfolding due_in
  ticks-split a b c h =
      let fi = settings.feature_interval in
      let si = settings.signal_interval in
      elim (Bool-cases (leb c b)) [
        | inl le ↦
            let c_le = leb→le c b le in
            let m : max b c ≡ b = omega arith in
            let d : c - b ≡ 0 = omega arith in rw (m, d) (sym (append-nil _))
        | inr gt ↦
            let b_lt = leb→lt c b gt in
            let m : max b c ≡ c = omega arith in
            let d : c - a ≡ (b - a) + (c - b) = omega arith in
            let e : a + (b - a) ≡ b = omega arith in
            rw (m, d)
              (rw (due_in-add fi si a (b - a) (c - b), e)
                (map-append ticked (due_in fi si a (b - a)) (due_in fi si b (c - b))))
      ]

  pub reached-snoc :
      (p : ℕ) (xs : List (QueuedEvent P)) (x : QueuedEvent P)
      → reached p (xs ++ x ∷ []) ≡ max (reached p xs) (x.receive_timestamp - 1)
  reached-snoc p [] x = refl
  reached-snoc p (y ∷ ys) x = reached-snoc (max p (y.receive_timestamp - 1)) ys x

  pub woven-snoc :
      (p : ℕ) (xs : List (QueuedEvent P)) (x : QueuedEvent P)
      → woven p (xs ++ x ∷ [])
        ≡ woven p xs ++ (ticks (reached p xs) (x.receive_timestamp - 1) ++ (published x.event ∷ []))
  woven-snoc p [] x = refl
  woven-snoc p (y ∷ ys) x =
      let q = max p (y.receive_timestamp - 1) in
      rw (woven-snoc q ys x)
        (sym (append_assoc (ticks p (y.receive_timestamp - 1)) (published y.event ∷ woven q ys) _))
