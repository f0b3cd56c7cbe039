-- ===== src/Features/Timeline/Flushing.antt =====
-- features/runtime.py: the outer `while` of `_advance_locked`.
use cvf.Prelude.{
  ℕ, zero, suc, ◌-◌, ◌≤◌, ◌<◌, max, ◌≡◌, refl, sym, ap, ◌∙◌, List, [], ◌∷◌, ◌++◌, true, false,
  Option, none, some, All, length, arith, Bool-cases, inl, inr, leb, leb→le, leb→lt,
}
use cvf.Outcome.{Result, ok}
use cvf.Clock.Scheduler.Boundaries.{due_in, init-IsValid}
use cvf.Features.Timeline.{
  QueuedEvent, Driver, TimelineSettings, ensure_from, ensure_scheduler, release, flush,
}
use cvf.Features.Timeline.Spec.{Action, trace, reached}
use cvf.Features.Timeline.Ordered.{Until, After, IsSorted, all_after}
use cvf.Features.Timeline.Ticks.{emit_ticks_through-Emitted}
use cvf.Features.Timeline.Publishing.{
  StartsAt, May, Progress, Emitted-Progress, publish_at-Published,
}

-- Times and the watermark: after it, up to it, and a watermark that is not past a target.
abbrev pub Ahead : Option ℕ → ℕ → Type 0
Ahead none t = Unit
Ahead (some w) t = w < t

abbrev pub Below : ℕ → Option ℕ → Type 0
Below p none = ⊥
Below p (some w) = p ≤ w

abbrev pub Within : Option ℕ → ℕ → Type 0
Within none target = Unit
Within (some w) target = w ≤ target

Below-Ahead : (p t : ℕ) (w : Option ℕ) → Below p w → Ahead w t → p < t
Below-Ahead p t none b a = absurd b
Below-Ahead p t (some w) b a = omega arith

Below-Within : (p target : ℕ) (w : Option ℕ) → Below p w → Within w target → p ≤ target
Below-Within p target none b a = absurd b
Below-Within p target (some w) b a = omega arith

module _ {P : Type 0} (settings : TimelineSettings) where
  -- What the sinks were given: nothing before the first event of `out`, or its timeline up to a time
  -- that is not past the watermark.
  pub data Shows (out : List (QueuedEvent P)) (w : Option ℕ) (s : Driver P (List (Action P)))
      : Type 0 where
    idle : out ≡ [] → s.scheduler ≡ none → s.world ≡ [] → Shows out w s
    running :
        (t0 p : ℕ) → Below p w → StartsAt t0 out → Progress settings t0 p out s → Shows out w s

  Shows-later :
      (out : List (QueuedEvent P)) (w : Option ℕ) (target : ℕ) (s : Driver P (List (Action P)))
      → Within w target
      → Shows out w s
      → Shows out (some target) s
  Shows-later out w target s within (idle e n z) = idle e n z
  Shows-later out w target s within (running t0 p b starts h) =
      running t0 p (Below-Within p target w b within) starts h

  -- A scheduler that may serve an event of time `t`.
  record Ensured (t : ℕ) (out : List (QueuedEvent P)) (s s' : Driver P (List (Action P)))
      : Type 0 where
    start : ℕ
    position : ℕ
    progress : Progress settings start position out s'
    may : May start t out
    level : max position (t - 1) ≡ max (reached settings start out) (t - 1)
    bound : max position (t - 1) ≤ t
    frame : s' ≡ record s { scheduler = s'.scheduler }

  module _ (positive : (0 < settings.feature_interval) × (0 < settings.signal_interval)) where
    new_scheduler :
        (t : ℕ) (s : Driver P (List (Action P)))
        → s.world ≡ []
        → (s' : Driver P (List (Action P))) × (ensure_from trace settings none t s ≡ (ok tt, s'))
          × Ensured t [] s s'
    unfolding ensure_from due_in
    new_scheduler t s w =
        let (clock, made, valid, at, f, g) =
          init-IsValid t settings.feature_interval settings.signal_interval positive.0 positive.1 in
        let z : t - clock.cursor ≡ 0 = omega arith in
        let z' : t - t ≡ 0 = omega arith in
        (
          record s { scheduler = some clock },
          rw (made, ensure_from) refl,
          record {
            start = t;
            position = t;
            progress = record {
              clocked = record {
                clock = clock;
                current = refl;
                valid = valid;
                features = f;
                signals = g;
                started = omega arith;
                quiet = rw z refl;
              };
              world = rw (w, z') refl;
              level = omega arith;
            };
            may = inr (refl, refl);
            level = refl;
            bound = omega arith;
            frame = refl;
          },
        )

    ensure_scheduler-Ensured :
        (t : ℕ) (w : Option ℕ) (out : List (QueuedEvent P)) (s : Driver P (List (Action P)))
        → Shows out w s
        → Ahead w t
        → (s' : Driver P (List (Action P))) × (ensure_scheduler trace settings t s ≡ (ok tt, s'))
          × Ensured t out s s'
    unfolding ensure_scheduler ensure_from
    ensure_scheduler-Ensured t w out s (idle e n z) ahead =
        let (s', run, h) = new_scheduler t s z in
        (s', ap (λ o. ensure_from trace settings o t s) n ∙ run, rw e h)
    ensure_scheduler-Ensured t w out s (running t0 p b starts h) ahead =
        let lt = Below-Ahead p t w b ahead in
        let l = h.level in
        (
          s,
          ap (λ o. ensure_from trace settings o t s) h.clocked.current,
          record {
            start = t0;
            position = p;
            progress = h;
            may = inl starts;
            level = omega arith;
            bound = omega arith;
            frame = refl;
          },
        )

    -- What some rounds up to a time have done: from `out` to `sent`.
    pub record Flushed (target : ℕ) (out sent : List (QueuedEvent P))
        (s s' : Driver P (List (Action P))) : Type 0 where
      pub split : sent ++ s'.events ≡ out ++ s.events
      pub until : (v : ℕ) → target ≤ v → All (Until v) out → All (Until v) sent
      pub sorted : IsSorted s'.events
      pub after : All (After target) s'.events
      pub shows : Shows sent (some target) s'
      pub frame : s' ≡ record s { scheduler = s'.scheduler; events = s'.events; world = s'.world }

    release-Flushed :
        (w : Option ℕ) (x : QueuedEvent P) (xs out : List (QueuedEvent P))
        (s : Driver P (List (Action P)))
        → s.events ≡ x ∷ xs
        → Shows out w s
        → Ahead w x.receive_timestamp
        → IsSorted (x ∷ xs)
        → (sent : List (QueuedEvent P)) × (s' : Driver P (List (Action P))) × (release trace
              settings x.receive_timestamp s
            ≡ (ok tt, s'))
          × (length s'.events ≤ length xs)
          × Flushed x.receive_timestamp out sent s s'
    unfolding release
    release-Flushed w x xs out s e shows ahead sorted =
        let t = x.receive_timestamp in
        let (s1, run1, h1) = ensure_scheduler-Ensured t w out s shows ahead in
        let (s2, run2, h2) =
          emit_ticks_through-Emitted settings h1.position (t - 1) s1 h1.progress.clocked in
        let events2 : s2.events ≡ x ∷ xs =
          ap (λ u. u.events) h2.frame ∙ ap (λ u. u.events) h1.frame ∙ e in
        let (sent, s3, run3, h3) =
          publish_at-Published settings t h1.start (max h1.position (t - 1)) (x ∷ xs) out s2 events2
            sorted (omega arith, sorted.0) h1.may h1.level
            (Emitted-Progress settings h1.start h1.position (t - 1) out s1 s2 h1.progress h2) in
        let restore : Driver P (List (Action P)) → Driver P (List (Action P)) =
          λ u. record u { scheduler = s3.scheduler; events = s3.events; world = s3.world } in
        (
          sent,
          s3,
          rw (run1, run2, events2, run3) refl,
          let f = h3.shrunk refl in omega arith,
          record {
            split = h3.split ∙ ap (λ l. out ++ l) (sym e);
            until = h3.until;
            sorted = h3.sorted;
            after = h3.after;
            shows =
                running h1.start (max h1.position (t - 1)) h1.bound (h3.started refl) h3.progress;
            frame = ap restore h3.frame ∙ ap restore h2.frame ∙ ap restore h1.frame;
          },
        )

    none_left :
        (target : ℕ) (w : Option ℕ) (out : List (QueuedEvent P)) (s : Driver P (List (Action P)))
        → Within w target
        → Shows out w s
        → IsSorted s.events
        → All (After target) s.events
        → Flushed target out out s s
    none_left target w out s within shows sorted after = record {
      split = refl;
      until = λ _ _ k. k;
      sorted = sorted;
      after = after;
      shows = Shows-later out w target s within shows;
      frame = refl;
    }

    flush-release :
        (fuel target : ℕ) (x : QueuedEvent P) (xs : List (QueuedEvent P))
        (s s' : Driver P (List (Action P)))
        → s.events ≡ x ∷ xs
        → leb x.receive_timestamp target ≡ true
        → release trace settings x.receive_timestamp s ≡ (ok tt, s')
        → flush trace settings (suc fuel) target s ≡ flush trace settings fuel target s'
    unfolding flush
    flush-release fuel target x xs s s' e now run = rw (e, now, flush, run) refl

    flush-rest :
        (fuel target : ℕ) (x : QueuedEvent P) (xs : List (QueuedEvent P))
        (s : Driver P (List (Action P)))
        → s.events ≡ x ∷ xs
        → leb x.receive_timestamp target ≡ false
        → flush trace settings (suc fuel) target s ≡ (ok tt, s)
    unfolding flush
    flush-rest fuel target x xs s e rest =
        let holding : List (QueuedEvent P) → Result (Unit {0}) × Driver P (List (Action P)) =
          λ l. (ok tt, record s { events = l }) in
        rw (e, rest, flush) (ap holding e)

    -- The outer loop ends: with positive intervals, sinks that never fail, and the buffer sorted and
    -- after the watermark, which is not past the target, fuel for each event in the buffer is enough
    -- for all events up to the target to be sent in their order and for the later ones alone to be
    -- left.
    pub flush-Flushed :
        (fuel target : ℕ) (w : Option ℕ) (xs out : List (QueuedEvent P))
        (s : Driver P (List (Action P)))
        → s.events ≡ xs
        → length xs ≤ fuel
        → Within w target
        → Shows out w s
        → All (λ x. Ahead w x.receive_timestamp) xs
        → IsSorted xs
        → (sent : List (QueuedEvent P)) × (s' : Driver P (List (Action P))) × (flush trace settings
              fuel target s
            ≡ (ok tt, s'))
          × Flushed target out sent s s'
    unfolding flush
    flush-Flushed zero target w [] out s e le within shows ahead sorted =
        (out, s, refl, none_left target w out s within shows (rw e tt) (rw e tt))
    flush-Flushed zero target w (x ∷ xs) out s e le within shows ahead sorted = absurd (omega arith)
    flush-Flushed (suc fuel) target w [] out s e le within shows ahead sorted =
        (out, s, rw e refl, none_left target w out s within shows (rw e tt) (rw e tt))
    flush-Flushed (suc fuel) target w (x ∷ xs) out s e le within shows ahead sorted =
        elim (Bool-cases (leb x.receive_timestamp target)) [
          | inl now ↦
              let t = x.receive_timestamp in
              let until = leb→le t target now in
              let (mid, s1, run1, fewer, h1) =
                release-Flushed w x xs out s e shows ahead.0 sorted in
              let (sent, s2, run2, h2) =
                flush-Flushed fuel target (some t) s1.events mid s1 refl (omega arith) until
                  h1.shows h1.after h1.sorted in
              let restore : Driver P (List (Action P)) → Driver P (List (Action P)) =
                λ u. record u { scheduler = s2.scheduler; events = s2.events; world = s2.world } in
              (
                sent,
                s2,
                flush-release fuel target x xs s s1 e now run1 ∙ run2,
                record {
                  split = h2.split ∙ h1.split;
                  until = λ v le k. h2.until v le (h1.until v (omega arith) k);
                  sorted = h2.sorted;
                  after = h2.after;
                  shows = h2.shows;
                  frame = h2.frame ∙ ap restore h1.frame;
                },
              )
          | inr later ↦
              let lt = leb→lt x.receive_timestamp target later in
              (
                out,
                s,
                flush-rest fuel target x xs s e later,
                none_left target w out s within shows (rw e sorted)
                    (rw e (lt, all_after target x xs lt sorted.0)),
              )
        ]
