-- ===== src/Features/Timeline/Calls.antt =====
-- features/runtime.py: each public method of the driver keeps what it holds.
use cvf.Prelude.{
  ℕ, ◌+◌, ◌-◌, ◌≤◌, ◌<◌, ◌≡◌, refl, sym, ap, ◌∙◌, List, [], ◌∷◌, Bool, true, false, Option, none,
  some, All, All-map, length, arith, Bool-cases, inl, inr, leb, leb→lt,
}
use mathlib.Core.Path.{subst}
use cvf.Outcome.{Error, Result, ok, raise, runtime_error, value_error}
use cvf.Exec.{Exec}
use cvf.Time.{DateTime, aware, naive}
use cvf.Features.Timeline.{
  TimelineEvent, QueuedEvent, Driver, TimelineSettings, push_event, later, is_behind,
  advance_locked, enqueue, publish_locked, run_transition, await_task_completion, fails,
  unless_failed, publish_at_time, publish_under, publish,
}
use cvf.Features.Timeline.Spec.{Action, trace}
use cvf.Features.Timeline.Ordered.{Until, All-push_event, push_event-IsSorted, push_event-append}
use cvf.Features.Timeline.Flushing.{Ahead, Below}
use cvf.Features.Timeline.Advancing.{
  Stands.waiting, Stands-same, Holds, Advances, advance_locked-Advances,
}

module _ {P : Type 0} where
  -- The events in the order of the heap.
  abbrev pub ordered : List (QueuedEvent P) → List (QueuedEvent P)
  ordered [] = []
  ordered (x ∷ xs) = push_event x (ordered xs)

  abbrev pub fresh : Driver P (List (Action P))
  fresh = record {
    scheduler = none;
    events = [];
    ordinal = 0;
    watermark = none;
    maximum_seen = none;
    sealed = false;
    failed = false;
    world = [];
  }

  abbrev pub queued : TimelineEvent P → ℕ → Driver P (List (Action P)) → QueuedEvent P
  queued event t s = record { receive_timestamp = t; ordinal = s.ordinal; event = event }

Below-later : (x t : ℕ) (m : Option ℕ) → Below x m → x ≤ later m t
unfolding later
Below-later x t none b = absurd b
Below-later x t (some v) b = omega arith

latest : (t : ℕ) (m : Option ℕ) → t ≤ later m t
unfolding later
latest t none = omega arith
latest t (some v) = omega arith

all_at_mark :
    {P : Type 0} (m : Option ℕ) (w : ℕ) (xs : List (QueuedEvent P))
    → m ≡ some w
    → All (λ y. Below y.receive_timestamp m) xs
    → All (Until w) xs
all_at_mark m w xs e h =
    All-map (λ y. Below y.receive_timestamp m) (Until w)
      (λ y b. subst (λ o. Below y.receive_timestamp o) e b) xs h

-- The settings that the configuration admits.
pub record IsUsable (settings : TimelineSettings) : Type 0 where
  pub intervals : (0 < settings.feature_interval) × (0 < settings.signal_interval)
  pub lateness : 0 < settings.lateness

moved_on :
    (settings : TimelineSettings) (usable : IsUsable settings) (t : ℕ) (w : Option ℕ)
    → 0 < t
    → is_behind t w ≡ false
    → later w (t - settings.lateness) < t
unfolding later is_behind
moved_on settings usable t none lt h = let p = usable.lateness in omega arith
moved_on settings usable t (some v) lt h =
    let p = usable.lateness in let b = leb→lt t v h in omega arith

pub transition_ok :
    {P W : Type 0} (op : Exec (Driver P W) (Unit {0})) (s s' : Driver P W)
    → op s ≡ (ok tt, s')
    → run_transition false op s ≡ (ok tt, s')
unfolding run_transition await_task_completion
transition_ok {P} {W} op s s' e =
    let done : Result (Unit {0}) × Driver P W → Result (Unit {0}) × Driver P W =
      λ q. (ok tt, q.1) in
    rw (e, run_transition) (ap done e)

pub transition_raise :
    {P W : Type 0} (op : Exec (Driver P W) (Unit {0})) (s s' : Driver P W) (err : Error)
    → op s ≡ (raise err, s')
    → run_transition false op s ≡ (raise err, record s' { failed = fails err s'.failed })
unfolding run_transition await_task_completion
transition_raise {P} {W} op s s' err e =
    let failing : Result (Unit {0}) × Driver P W → Result (Unit {0}) × Driver P W =
      λ q. (raise err, record q.1 { failed = fails err q.1.failed }) in
    rw (e, run_transition) (ap failing e)

module _ {P : Type 0} (settings : TimelineSettings) where
  pub record Kept (arrived : List (QueuedEvent P)) (s : Driver P (List (Action P))) : Type 0 where
    pub holds : Holds settings (ordered arrived) s
    pub seen : All (λ x. Below x.receive_timestamp s.maximum_seen) (ordered arrived)

  pub fresh-Kept : Kept [] fresh
  fresh-Kept = record {
    holds = record {
      sent = [];
      split = refl;
      until = tt;
      ahead = tt;
      sorted = tt;
      stands = waiting refl refl refl;
    };
    seen = tt;
  }

  -- A flag does not matter.
  pub flagged :
      (arrived : List (QueuedEvent P)) (s : Driver P (List (Action P))) (f g : Bool)
      → Kept arrived s
      → Kept arrived (record s { failed = f; sealed = g })
  flagged arrived s f g k = record {
    holds = record {
      sent = k.holds.sent;
      split = k.holds.split;
      until = k.holds.until;
      ahead = k.holds.ahead;
      sorted = k.holds.sorted;
      stands = Stands-same settings k.holds.sent s.watermark s _ refl refl k.holds.stands;
    };
    seen = k.seen;
  }

  pub advanced-Kept :
      (arrived : List (QueuedEvent P)) (target : ℕ) (s s' : Driver P (List (Action P)))
      → Kept arrived s
      → Advances settings (ordered arrived) target s s'
      → Kept arrived s'
  advanced-Kept arrived target s s' k a =
      let m : s'.maximum_seen ≡ s.maximum_seen = ap (λ u. u.maximum_seen) a.frame in
      record { holds = a.holds; seen = rw m k.seen }

  -- An event after the watermark is put into the buffer.
  pushed :
      (arrived : List (QueuedEvent P)) (s : Driver P (List (Action P))) (event : TimelineEvent P)
      (t w : ℕ)
      → Kept arrived s
      → s.watermark ≡ some w
      → w < t
      → Kept (queued event t (record s { ordinal = s.ordinal + 1 }) ∷ arrived) (record s {
        ordinal = s.ordinal + 1;
        events = push_event (queued event t (record s { ordinal = s.ordinal + 1 })) s.events;
        maximum_seen = some (later s.maximum_seen t);
      })
  pushed arrived s event t w k e lt =
      let x = queued event t (record s { ordinal = s.ordinal + 1 }) in
      let h = k.holds in
      let until : All (Until w) h.sent = all_at_mark s.watermark w h.sent e h.until in
      record {
        holds = record {
          sent = h.sent;
          split = sym (push_event-append w x h.sent s.events lt until) ∙ ap (push_event x) h.split;
          until = h.until;
          ahead =
              All-push_event (λ y. Ahead s.watermark y.receive_timestamp) x s.events (rw e lt)
                h.ahead;
          sorted = push_event-IsSorted x s.events h.sorted;
          stands = Stands-same settings h.sent s.watermark s _ refl refl h.stands;
        };
        seen =
            All-push_event (λ y. Below y.receive_timestamp (some (later s.maximum_seen t))) x
              (ordered arrived) (latest t s.maximum_seen)
              (All-map (λ y. Below y.receive_timestamp s.maximum_seen)
                (λ y. Below y.receive_timestamp (some (later s.maximum_seen t)))
                (λ y b. Below-later y.receive_timestamp t s.maximum_seen b) (ordered arrived)
                k.seen);
      }

  -- What a call of `publish` may lead to.
  pub data Published (arrived : List (QueuedEvent P)) (event : TimelineEvent P)
      (s : Driver P (List (Action P))) : Type 0 where
    taken :
        (s' : Driver P (List (Action P))) (t : ℕ)
        → publish trace settings event s ≡ (ok tt, s')
        → event.local_receive_timestamp ≡ aware t
        → (0 < t → Kept (queued event t s' ∷ arrived) s')
        → Published arrived event s
    denied :
        (s' : Driver P (List (Action P))) (e : Error)
        → publish trace settings event s ≡ (raise e, s')
        → Kept arrived s'
        → Published arrived event s

  publish_open :
      (event : TimelineEvent P) (t : ℕ) (s : Driver P (List (Action P)))
      → s.failed ≡ false
      → s.sealed ≡ false
      → event.local_receive_timestamp ≡ aware t
      → is_behind t s.watermark ≡ false
      → publish trace settings event s
        ≡ run_transition false (publish_locked trace settings event t) s
  unfolding publish publish_under unless_failed publish_at_time
  publish_open event t s f g e b = rw (f, g, e, b) refl

  publish_locked-enqueue :
      (event : TimelineEvent P) (t : ℕ) (s s' : Driver P (List (Action P)))
      → advance_locked trace settings (t - settings.lateness) s ≡ (ok tt, s')
      → publish_locked trace settings event t s ≡ enqueue trace settings event t s'
  unfolding publish_locked
  publish_locked-enqueue event t s s' e = rw e refl

  publish_locked-Published :
      (usable : IsUsable settings) (arrived : List (QueuedEvent P)) (event : TimelineEvent P)
      (t : ℕ) (s : Driver P (List (Action P)))
      → Kept arrived s
      → event.local_receive_timestamp ≡ aware t
      → is_behind t s.watermark ≡ false
      → publish trace settings event s
        ≡ run_transition false (publish_locked trace settings event t) s
      → Published arrived event s
  unfolding enqueue fails
  publish_locked-Published usable arrived event t s k e ahead admitted =
      let (s1, run1, a) =
        advance_locked-Advances settings usable.intervals (t - settings.lateness) (ordered arrived)
          s k.holds in
      let k1 = advanced-Kept arrived (t - settings.lateness) s s1 k a in
      let locked = publish_locked-enqueue event t s s1 run1 in
      elim (Bool-cases (leb settings.capacity (length s1.events))) [
        | inl full ↦
            denied (record s1 { failed = true }) runtime_error
              (admitted ∙ transition_raise _ s s1 runtime_error (locked ∙ rw full refl))
              (flagged arrived s1 true s1.sealed k1)
        | inr room ↦
            taken _ t (admitted ∙ transition_ok _ s _ (locked ∙ rw room refl)) e (λ positive.
              pushed arrived s1 event t (later s.watermark (t - settings.lateness)) k1 a.watermark
                (moved_on settings usable t s.watermark positive ahead))
      ]

  publish_time :
      (usable : IsUsable settings) (arrived : List (QueuedEvent P)) (event : TimelineEvent P)
      (s : Driver P (List (Action P))) (d : DateTime)
      → Kept arrived s
      → s.failed ≡ false
      → s.sealed ≡ false
      → event.local_receive_timestamp ≡ d
      → Published arrived event s
  unfolding publish publish_under unless_failed publish_at_time
  publish_time usable arrived event s (naive t) k f g e = denied s value_error (rw (f, g, e) refl) k
  publish_time usable arrived event s (aware t) k f g e =
      elim (Bool-cases (is_behind t s.watermark)) [
        | inl behind ↦ denied s runtime_error (rw (f, g, e, behind) refl) k
        | inr ahead ↦
            publish_locked-Published usable arrived event t s k e ahead
              (publish_open event t s f g e ahead)
      ]

  pub publish-Published :
      (usable : IsUsable settings) (arrived : List (QueuedEvent P)) (event : TimelineEvent P)
      (s : Driver P (List (Action P)))
      → Kept arrived s
      → Published arrived event s
  unfolding publish publish_under unless_failed
  publish-Published usable arrived event s k = elim (Bool-cases s.failed) [
    | inl f ↦ denied s runtime_error (rw f refl) k
    | inr f ↦ elim (Bool-cases s.sealed) [
      | inl g ↦ denied s runtime_error (rw (f, g) refl) k
      | inr g ↦ publish_time usable arrived event s event.local_receive_timestamp k f g refl
    ]
  ]
