-- ===== src/Features/Timeline/Advancing.antt =====
-- features/runtime.py: `_advance_locked` from a state between two calls.
use cvf.Prelude.{
  ℕ, ◌<◌, max, ◌≡◌, refl, ap, ◌∙◌, List, [], ◌∷◌, ◌++◌, true, false, Option, none, some, All,
  All-map, length, arith, Bool-cases, inl, inr, leb→le, leb→lt,
}
use cvf.Outcome.{ok}
use cvf.Features.Timeline.{
  QueuedEvent, Driver, TimelineSettings, later, is_behind, emit_from, emit_ticks_through,
  advance_locked,
}
use cvf.Features.Timeline.Spec.{Action, trace}
use cvf.Features.Timeline.Ordered.{Until, After, IsSorted}
use cvf.Features.Timeline.Ticks.{emit_ticks_through-Emitted}
use cvf.Features.Timeline.Publishing.{StartsAt, Progress, Emitted-Progress}
use cvf.Features.Timeline.Flushing.{
  Ahead, Below, Within, Shows, Shows.idle, Shows.running, flush-Flushed,
}

behind_later : (target : ℕ) (w : Option ℕ) → is_behind target w ≡ true → w ≡ some (later w target)
unfolding is_behind later
behind_later target none h = absurd (cc)
behind_later target (some v) h =
    let le = leb→le target v h in let e : v ≡ max v target = omega arith in ap some e

ahead_later :
    (target : ℕ) (w : Option ℕ) → is_behind target w ≡ false → some target ≡ some (later w target)
unfolding is_behind later
ahead_later target none h = refl
ahead_later target (some v) h =
    let lt = leb→lt target v h in let e : target ≡ max v target = omega arith in ap some e

not_behind : (target : ℕ) (w : Option ℕ) → is_behind target w ≡ false → Within w target
unfolding is_behind
not_behind target none h = tt
not_behind target (some v) h = let lt = leb→lt target v h in omega arith

ahead_of_behind :
    {P : Type 0} (target : ℕ) (w : Option ℕ)
    → is_behind target w ≡ true
    → (xs : List (QueuedEvent P)) → All (λ x. Ahead w x.receive_timestamp) xs
    → All (After target) xs
unfolding is_behind
ahead_of_behind target none h xs k = absurd (cc)
ahead_of_behind target (some v) h xs k =
    let le = leb→le target v h in All-map (After v) (After target) (λ x lt. omega arith) xs k

all_passed :
    {P : Type 0} (target : ℕ) (w : Option ℕ)
    → Within w target
    → (xs : List (QueuedEvent P)) → All (λ x. Below x.receive_timestamp w) xs
    → All (Until target) xs
all_passed target none h [] k = tt
all_passed target none h (x ∷ xs) k = absurd (k.0)
all_passed target (some v) h xs k = All-map (Until v) (Until target) (λ x le. omega arith) xs k

module _ {P : Type 0} (settings : TimelineSettings) where
  -- What the sinks were given, exactly up to the watermark.
  pub data Stands (sent : List (QueuedEvent P)) (w : Option ℕ) (s : Driver P (List (Action P)))
      : Type 0 where
    waiting : sent ≡ [] → s.scheduler ≡ none → s.world ≡ [] → Stands sent w s
    moving :
        (t0 v : ℕ) → w ≡ some v → StartsAt t0 sent → Progress settings t0 v sent s → Stands sent w s

  Stands-Shows :
      (sent : List (QueuedEvent P)) (w : Option ℕ) (s : Driver P (List (Action P)))
      → Stands sent w s
      → Shows settings sent w s
  Stands-Shows sent w s (waiting e n z) = idle e n z
  Stands-Shows sent w s (moving t0 v e starts h) = running t0 v (rw e (omega arith)) starts h

  -- The watermark, the buffer and the flags do not matter to it.
  pub Stands-same :
      (sent : List (QueuedEvent P)) (w : Option ℕ) (s s' : Driver P (List (Action P)))
      → s'.scheduler ≡ s.scheduler
      → s'.world ≡ s.world
      → Stands sent w s
      → Stands sent w s'
  Stands-same sent w s s' e f (waiting a n z) = waiting a (e ∙ n) (f ∙ z)
  Stands-same sent w s s' e f (moving t0 v a starts h) =
      let c = h.clocked in
      moving t0 v a starts (record {
        clocked = record {
          clock = c.clock;
          current = e ∙ c.current;
          valid = c.valid;
          features = c.features;
          signals = c.signals;
          started = c.started;
          quiet = c.quiet;
        };
        world = f ∙ h.world;
        level = h.level;
      })

  -- Of the events `arrived`, in the order of the heap, the first are sent and the rest are held.
  pub record Holds (arrived : List (QueuedEvent P)) (s : Driver P (List (Action P))) : Type 0 where
    pub sent : List (QueuedEvent P)
    pub split : sent ++ s.events ≡ arrived
    pub until : All (λ x. Below x.receive_timestamp s.watermark) sent
    pub ahead : All (λ x. Ahead s.watermark x.receive_timestamp) s.events
    pub sorted : IsSorted s.events
    pub stands : Stands sent s.watermark s

  moved_to :
      (t0 p q : ℕ) (sent : List (QueuedEvent P)) (s : Driver P (List (Action P)))
      → p ≡ q
      → Progress settings t0 p sent s
      → Progress settings t0 q sent s
  moved_to t0 p q sent s e h = rw⁻¹ e h

  emit-Stands :
      (sent : List (QueuedEvent P)) (target : ℕ) (s : Driver P (List (Action P)))
      → Shows settings sent (some target) s
      → (s' : Driver P (List (Action P))) × (emit_ticks_through trace settings target s
          ≡ (ok tt, s'))
        × (s' ≡ record s { scheduler = s'.scheduler; world = s'.world })
        × Stands sent (some target) s'
  unfolding emit_ticks_through emit_from
  emit-Stands sent target s (idle e n z) =
      (s, ap (λ o. emit_from trace settings o target s) n, refl, waiting e n z)
  emit-Stands sent target s (running t0 p b starts h) =
      let (s', run, e) = emit_ticks_through-Emitted settings p target s h.clocked in
      let m : max p target ≡ target = omega arith in
      (
        s',
        run,
        e.frame,
        moving t0 target refl starts (
            moved_to t0 (max p target) target sent s' m
              (Emitted-Progress settings t0 p target sent s s' h e)),
      )

  -- A call of `_advance_locked`.
  pub record Advances (arrived : List (QueuedEvent P)) (target : ℕ)
      (s s' : Driver P (List (Action P))) : Type 0 where
    pub holds : Holds arrived s'
    pub watermark : s'.watermark ≡ some (later s.watermark target)
    pub passed : All (After target) s'.events
    pub frame : s' ≡ record s {
      scheduler = s'.scheduler;
      events = s'.events;
      watermark = s'.watermark;
      world = s'.world;
    }

  module _ (positive : (0 < settings.feature_interval) × (0 < settings.signal_interval)) where
    pub advance_locked-Advances :
        (target : ℕ) (arrived : List (QueuedEvent P)) (s : Driver P (List (Action P)))
        → Holds arrived s
        → (s' : Driver P (List (Action P))) × (advance_locked trace settings target s ≡ (ok tt, s'))
          × Advances arrived target s s'
    unfolding advance_locked
    advance_locked-Advances target arrived s h = elim (Bool-cases (is_behind target s.watermark)) [
      | inl behind ↦ (
        s,
        rw behind refl,
        record {
          holds = h;
          watermark = behind_later target s.watermark behind;
          passed = ahead_of_behind target s.watermark behind s.events h.ahead;
          frame = refl;
        },
      )
      | inr ahead ↦
          let within = not_behind target s.watermark ahead in
          let (sent, s1, run1, h1) =
            flush-Flushed settings positive (length s.events) target s.watermark s.events h.sent s
              refl (omega arith) within (Stands-Shows h.sent s.watermark s h.stands) h.ahead
              h.sorted in
          let (s2, run2, frame, stands) = emit-Stands sent target s1 h1.shows in
          let events2 = ap (λ u. u.events) frame in
          let passed : All (After target) s2.events = rw events2 h1.after in
          let restore : Driver P (List (Action P)) → Driver P (List (Action P)) = λ u. record u {
            scheduler = s2.scheduler;
            events = s2.events;
            watermark = some target;
            world = s2.world;
          } in
          (
            record s2 { watermark = some target },
            rw (ahead, run1, run2) refl,
            record {
              holds = record {
                sent = sent;
                split = ap (λ l. sent ++ l) events2 ∙ h1.split ∙ h.split;
                until =
                    h1.until target (omega arith)
                      (all_passed target s.watermark within h.sent h.until);
                ahead = passed;
                sorted = rw events2 h1.sorted;
                stands = Stands-same sent (some target) s2 _ refl refl stands;
              };
              watermark = ahead_later target s.watermark ahead;
              passed = passed;
              frame = ap restore frame ∙ ap restore h1.frame;
            },
          )
    ]
