-- ===== src/Features/Timeline/Publishing.antt =====
-- features/runtime.py: what `_emit_ticks_through` and the inner `while` of `_advance_locked` add to
-- the timeline.
use cvf.Prelude.{
  ℕ, ◌-◌, ◌≤◌, ◌<◌, max, ◌≡◌, refl, sym, ap, ◌∙◌, List, [], ◌∷◌, ◌++◌, All, length, All-append,
  append_assoc, append-nil, arith, ◌==◌, ==→eq, ==→ne, ◌⊎◌, Bool-cases, inl, inr,
}
use cvf.Outcome.{ok}
use cvf.Clock.Scheduler.Boundaries.{due_in}
use cvf.Features.Timeline.{QueuedEvent, Driver, TimelineSettings, on_world, publish_at}
use cvf.Features.Timeline.Spec.{
  Action, published, trace, ticks, reached, woven, ticks-split, reached-snoc, woven-snoc,
}
use cvf.Features.Timeline.Ordered.{Until, After, From, IsSorted, all_after}
use cvf.Features.Timeline.Ticks.{Clocked, Emitted}

module _ {P : Type 0} where
  abbrev pub StartsAt : ℕ → List (QueuedEvent P) → Type 0
  StartsAt t [] = ⊥
  StartsAt t (x ∷ xs) = x.receive_timestamp ≡ t

  pub StartsAt-snoc :
      (t : ℕ) (out : List (QueuedEvent P)) (x : QueuedEvent P)
      → StartsAt t out
      → StartsAt t (out ++ x ∷ [])
  StartsAt-snoc t [] x h = absurd h
  StartsAt-snoc t (y ∷ out) x h = h

  -- An event of time `t` may be published: it is the first, and the ticks start at it, or some were before.
  abbrev pub May : ℕ → ℕ → List (QueuedEvent P) → Type 0
  May t0 t out = StartsAt t0 out ⊎ ((out ≡ []) × (t ≡ t0))

  StartsAt-May :
      (t0 t : ℕ) (out : List (QueuedEvent P)) (x : QueuedEvent P)
      → x.receive_timestamp ≡ t
      → May t0 t out
      → StartsAt t0 (out ++ x ∷ [])
  StartsAt-May t0 t out x at (inl h) = StartsAt-snoc t0 out x h
  StartsAt-May t0 t out x at (inr h) = rw (h.0) (at ∙ h.1)

module _ {P : Type 0} (settings : TimelineSettings) where
  -- The sinks were given the events `out` and, from `t0` to `p`, the ticks between and after them.
  pub record Progress (t0 p : ℕ) (out : List (QueuedEvent P)) (s : Driver P (List (Action P)))
      : Type 0 where
    pub clocked : Clocked settings p s
    pub world : s.world ≡ woven settings t0 out ++ ticks settings (reached settings t0 out) p
    pub level : reached settings t0 out ≤ p

  pub Emitted-Progress :
      (t0 p target : ℕ) (out : List (QueuedEvent P)) (s s' : Driver P (List (Action P)))
      → Progress t0 p out s
      → Emitted settings p target s s'
      → Progress t0 (max p target) out s'
  Emitted-Progress t0 p target out s s' h e = record {
    clocked = e.clocked;
    world =
        e.world
        ∙ ap (λ w. w ++ ticks settings p target) h.world
        ∙ append_assoc (woven settings t0 out) _ _
        ∙ ap (λ l. woven settings t0 out ++ l)
            (sym (ticks-split settings (reached settings t0 out) p target h.level));
    level = let le = h.level in omega arith;
  }

  -- An event is published.
  pub published-Progress :
      (t0 p : ℕ) (out : List (QueuedEvent P)) (x : QueuedEvent P) (xs : List (QueuedEvent P))
      (s : Driver P (List (Action P)))
      → p ≡ max (reached settings t0 out) (x.receive_timestamp - 1)
      → Progress t0 p out s
      → Progress t0 p
          (out ++ x ∷ [])
          (record s { events = xs; world = s.world ++ published x.event ∷ [] })
  unfolding due_in
  published-Progress t0 p out x xs s e h =
      let r = reached settings t0 out in
      let d : p - r ≡ (x.receive_timestamp - 1) - r = omega arith in
      let z : p - p ≡ 0 = omega arith in
      let level = reached-snoc settings t0 out x ∙ sym e in
      record {
        clocked = record {
          clock = h.clocked.clock;
          current = h.clocked.current;
          valid = h.clocked.valid;
          features = h.clocked.features;
          signals = h.clocked.signals;
          started = h.clocked.started;
          quiet = h.clocked.quiet;
        };
        world =
            rw (h.world, level, z, woven-snoc settings t0 out x, d)
              (rw
                (append-nil (
                  woven settings t0 out
                  ++ (ticks settings r (x.receive_timestamp - 1) ++ (published x.event ∷ []))))
                (append_assoc (woven settings t0 out) _ _));
        level = omega (arith, level);
      }

  -- What the inner `while` has done: from `out` to `sent`.
  pub record Published (t t0 p : ℕ) (out xs sent : List (QueuedEvent P))
      (s s' : Driver P (List (Action P))) : Type 0 where
    pub split : sent ++ s'.events ≡ out ++ xs
    pub progress : Progress t0 p sent s'
    pub until : (v : ℕ) → t ≤ v → All (Until v) out → All (Until v) sent
    pub kept : StartsAt t0 out → StartsAt t0 sent
    pub started : StartsAt t xs → StartsAt t0 sent
    pub after : All (After t) s'.events
    pub sorted : IsSorted s'.events
    pub fewer : length s'.events ≤ length xs
    pub shrunk : StartsAt t xs → length s'.events < length xs
    pub frame : s' ≡ record s { events = s'.events; world = s'.world }

  pub publish_at-Published :
      (t t0 p : ℕ) (xs out : List (QueuedEvent P)) (s : Driver P (List (Action P)))
      → s.events ≡ xs
      → IsSorted xs
      → All (From t) xs
      → May t0 t out
      → p ≡ max (reached settings t0 out) (t - 1)
      → Progress t0 p out s
      → (sent : List (QueuedEvent P)) × (s' : Driver P (List (Action P))) × (publish_at trace
            settings t xs s
          ≡ (ok tt, s'))
        × Published t t0 p out xs sent s s'
  unfolding publish_at on_world
  publish_at-Published t t0 p [] out s e sorted from may top h = (
    out,
    s,
    refl,
    record {
      split = ap (λ l. out ++ l) e;
      progress = h;
      until = λ _ _ k. k;
      kept = λ k. k;
      started = λ k. absurd k;
      after = rw e tt;
      sorted = rw e tt;
      fewer = rw e (omega arith);
      shrunk = λ k. absurd k;
      frame = refl;
    },
  )
  publish_at-Published t t0 p (x ∷ xs) out s e sorted from may top h =
      elim (Bool-cases (x.receive_timestamp == t)) [
        | inl now ↦
            let at = ==→eq x.receive_timestamp t now in
            let next : Driver P (List (Action P)) = record s {
              events = xs;
              world = s.world ++ published x.event ∷ [];
            } in
            let p' = ap (λ n. max (reached settings t0 out) (n - 1)) (sym at) in
            let starts = StartsAt-May t0 t out x at may in
            let (sent, s', run, r) =
              publish_at-Published t t0 p xs (out ++ x ∷ []) next refl sorted.1 from.1 (inl starts)
                (let level = reached-snoc settings t0 out x in omega arith)
                (published-Progress t0 p out x xs s (top ∙ p') h) in
            (
              sent,
              s',
              rw (now, publish_at) run,
              record {
                split = r.split ∙ append_assoc out (x ∷ []) xs;
                progress = r.progress;
                until =
                    λ v le k. r.until v le (All-append (Until v) out (x ∷ []) k (omega arith, tt));
                kept = λ k. r.kept (StartsAt-snoc t0 out x k);
                started = λ k. r.kept starts;
                after = r.after;
                sorted = r.sorted;
                fewer = let f = r.fewer in omega arith;
                shrunk = λ k. (let f = r.fewer in omega arith);
                frame = r.frame;
              },
            )
        | inr other ↦
            let ne = ==→ne x.receive_timestamp t other in
            let le = from.0 in
            let lt : t < x.receive_timestamp = omega arith in
            (
              out,
              s,
              rw (other, publish_at) refl,
              record {
                split = ap (λ l. out ++ l) e;
                progress = h;
                until = λ _ _ k. k;
                kept = λ k. k;
                started = λ k. absurd (ne k);
                after = rw e (lt, all_after t x xs lt sorted.0);
                sorted = rw e sorted;
                fewer = rw e (omega arith);
                shrunk = λ k. absurd (ne k);
                frame = refl;
              },
            )
      ]
