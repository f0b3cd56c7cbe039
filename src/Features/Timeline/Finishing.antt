-- ===== src/Features/Timeline/Finishing.antt =====
-- features/runtime.py: `advance_to` and `finish` of the driver keep what it holds, and `finish`
-- leaves nothing in the buffer.
use cvf.Prelude.{
  ℕ, ◌≤◌, max, ◌≡◌, refl, sym, ap, ◌∙◌, List, [], ◌∷◌, ◌++◌, true, false, Option, none, some, All,
  arith, Bool-cases, inl, inr, true_not_false,
}
use mathlib.Core.Path.{subst}
use cvf.Outcome.{Error, Result, ok, raise, runtime_error, raise_not_ok}
use cvf.Exec.{Exec}
use cvf.Time.{DateTime, utc}
use cvf.Features.Timeline.{
  QueuedEvent, Driver, TimelineSettings, later, advance_locked, run_transition, fails,
  advance_under, finish_under, unless_failed, advance_time, advance, advance_through, finish_locked,
  utc_of, finish, on_world,
}
use cvf.Features.Timeline.Spec.{Action, trace}
use cvf.Features.Timeline.Ordered.{After}
use cvf.Features.Timeline.Flushing.{Below}
use cvf.Features.Timeline.Advancing.{advance_locked-Advances}
use cvf.Features.Timeline.Calls.{
  IsUsable, ordered, Kept, flagged, advanced-Kept, transition_ok, transition_raise,
}

All-suffix :
    {P : Type 0} (Q : QueuedEvent P → Type 0) (xs ys : List (QueuedEvent P))
    → All Q (xs ++ ys)
    → All Q ys
All-suffix Q [] ys h = h
All-suffix Q (x ∷ xs) ys h = All-suffix Q xs ys h.1

none_seen :
    {P : Type 0} (xs : List (QueuedEvent P))
    → All (λ x. Below x.receive_timestamp none) xs
    → xs ≡ []
none_seen [] h = refl
none_seen (x ∷ xs) h = absurd (h.0)

all_past :
    {P : Type 0} (target v : ℕ) (xs : List (QueuedEvent P))
    → v ≤ target
    → All (After target) xs
    → All (λ x. Below x.receive_timestamp (some v)) xs
    → xs ≡ []
all_past target v [] le a b = refl
all_past target v (x ∷ xs) le a b = let lt = a.0 in let until = b.0 in absurd (omega arith)

later_empty :
    {P : Type 0} (t : ℕ) (m : Option ℕ) (xs : List (QueuedEvent P))
    → All (After (later m t)) xs
    → All (λ x. Below x.receive_timestamp m) xs
    → xs ≡ []
unfolding later
later_empty t none xs a b = none_seen xs b
later_empty t (some v) xs a b = all_past (max v t) v xs (omega arith) a b

module _ {P : Type 0} (settings : TimelineSettings) (usable : IsUsable settings) where
  held_seen :
      (arrived : List (QueuedEvent P)) (s : Driver P (List (Action P)))
      → Kept settings arrived s
      → All (λ x. Below x.receive_timestamp s.maximum_seen) s.events
  held_seen arrived s k =
      All-suffix (λ x. Below x.receive_timestamp s.maximum_seen) k.holds.sent s.events
        (subst (All (λ x. Below x.receive_timestamp s.maximum_seen)) (sym k.holds.split) k.seen)

  -- The answer of a call, and the state after it.
  pub record Answered (op : Exec (Driver P (List (Action P))) (Unit {0}))
      (arrived : List (QueuedEvent P)) (s : Driver P (List (Action P))) : Type 0 where
    pub answer : Result (Unit {0})
    pub after : Driver P (List (Action P))
    pub run : op s ≡ (answer, after)
    pub kept : Kept settings arrived after

  advance_time-Answered :
      (arrived : List (QueuedEvent P)) (r : Result ℕ) (s : Driver P (List (Action P)))
      → Kept settings arrived s
      → Answered (advance_time trace settings false r) arrived s
  unfolding advance_time
  advance_time-Answered arrived (raise e) s k = record {
    answer = raise e;
    after = s;
    run = refl;
    kept = k;
  }
  advance_time-Answered arrived (ok t) s k =
      let (s1, run1, a) =
        advance_locked-Advances settings usable.intervals t (ordered arrived) s k.holds in
      record {
        answer = ok tt;
        after = s1;
        run = transition_ok (advance_locked trace settings t) s s1 run1;
        kept = advanced-Kept settings arrived t s s1 k a;
      }

  advance-time :
      (d : DateTime) (s : Driver P (List (Action P)))
      → s.failed ≡ false
      → s.sealed ≡ false
      → advance trace settings d s ≡ advance_time trace settings false (utc d) s
  unfolding advance advance_under unless_failed
  advance-time d s f g = rw (f, g) refl

  -- `advance_to`.
  pub advance-Answered :
      (arrived : List (QueuedEvent P)) (d : DateTime) (s : Driver P (List (Action P)))
      → Kept settings arrived s
      → Answered (advance trace settings d) arrived s
  unfolding advance advance_under unless_failed
  advance-Answered arrived d s k = elim (Bool-cases s.failed) [
    | inl f ↦ record { answer = raise runtime_error; after = s; run = rw f refl; kept = k }
    | inr f ↦ elim (Bool-cases s.sealed) [
      | inl g ↦ record { answer = ok tt; after = s; run = rw (f, g) refl; kept = k }
      | inr g ↦
          let a = advance_time-Answered arrived (utc d) s k in
          record {
            answer = a.answer;
            after = a.after;
            run = advance-time d s f g ∙ a.run;
            kept = a.kept;
          }
    ]
  ]

  -- The first step of `finish`: unless it raises, the buffer is empty after it.
  record Flushes (m : Option ℕ) (through : Option (Result ℕ)) (arrived : List (QueuedEvent P))
      (s : Driver P (List (Action P))) : Type 0 where
    answer : Result (Unit {0})
    after : Driver P (List (Action P))
    run : advance_through trace settings m through s ≡ (answer, after)
    kept : Kept settings arrived after
    empty : answer ≡ ok tt → after.events ≡ []

  advance_through-Flushes :
      (m : Option ℕ) (through : Option (Result ℕ)) (arrived : List (QueuedEvent P))
      (s : Driver P (List (Action P)))
      → m ≡ s.maximum_seen
      → Kept settings arrived s
      → Flushes m through arrived s
  unfolding advance_through
  advance_through-Flushes none none arrived s e k = record {
    answer = ok tt;
    after = s;
    run = refl;
    kept = k;
    empty = λ _. none_seen s.events (
        subst (λ o. All (λ x. Below x.receive_timestamp o) s.events) (sym e)
          (held_seen arrived s k));
  }
  advance_through-Flushes (some v) none arrived s e k =
      let (s1, run1, a) =
        advance_locked-Advances settings usable.intervals v (ordered arrived) s k.holds in
      let k1 = advanced-Kept settings arrived v s s1 k a in
      let seen = ap (λ u. u.maximum_seen) a.frame ∙ sym e in
      record {
        answer = ok tt;
        after = s1;
        run = run1;
        kept = k1;
        empty = λ _. all_past v v s1.events (omega arith) a.passed (
            subst (λ o. All (λ x. Below x.receive_timestamp o) s1.events) seen
              (held_seen arrived s1 k1));
      }
  advance_through-Flushes m (some (ok t)) arrived s e k =
      let (s1, run1, a) =
        advance_locked-Advances settings usable.intervals (later m t) (ordered arrived) s k.holds in
      let k1 = advanced-Kept settings arrived (later m t) s s1 k a in
      let seen = ap (λ u. u.maximum_seen) a.frame ∙ sym e in
      record {
        answer = ok tt;
        after = s1;
        run = run1;
        kept = k1;
        empty = λ _. later_empty t m s1.events a.passed (
            subst (λ o. All (λ x. Below x.receive_timestamp o) s1.events) seen
              (held_seen arrived s1 k1));
      }
  advance_through-Flushes m (some (raise err)) arrived s e k = record {
    answer = raise err;
    after = s;
    run = refl;
    kept = k;
    empty = λ h. absurd (raise_not_ok h);
  }

  finish_locked-ok :
      (through : Option (Result ℕ)) (s s' : Driver P (List (Action P)))
      → advance_through trace settings s.maximum_seen through s ≡ (ok tt, s')
      → finish_locked trace settings through s ≡ (ok tt, record s' { sealed = true })
  unfolding finish_locked on_world
  finish_locked-ok through s s' e = rw e refl

  finish_locked-raise :
      (through : Option (Result ℕ)) (s s' : Driver P (List (Action P))) (err : Error)
      → advance_through trace settings s.maximum_seen through s ≡ (raise err, s')
      → finish_locked trace settings through s ≡ (raise err, s')
  unfolding finish_locked
  finish_locked-raise through s s' err e = rw e refl

  finish-locked :
      (d : Option DateTime) (s : Driver P (List (Action P)))
      → s.failed ≡ false
      → s.sealed ≡ false
      → finish trace settings d s ≡ run_transition false (finish_locked trace settings (utc_of d)) s
  unfolding finish finish_under unless_failed
  finish-locked d s f g = rw (f, g) refl

  -- `finish`, and the buffer after it.
  pub record Finishes (d : Option DateTime) (arrived : List (QueuedEvent P))
      (s : Driver P (List (Action P))) : Type 0 where
    pub answered : Answered (finish trace settings d) arrived s
    pub empty : s.sealed ≡ false → answered.answer ≡ ok tt → answered.after.events ≡ []

  finish_open :
      (d : Option DateTime) (arrived : List (QueuedEvent P)) (s : Driver P (List (Action P)))
      (answer : Result (Unit {0})) (after : Driver P (List (Action P)))
      → s.failed ≡ false
      → s.sealed ≡ false
      → advance_through trace settings s.maximum_seen (utc_of d) s ≡ (answer, after)
      → Kept settings arrived after
      → (answer ≡ ok tt → after.events ≡ [])
      → Finishes d arrived s
  finish_open d arrived s (ok _) after f g run k empty = record {
    answered = record {
      answer = ok tt;
      after = record after { sealed = true };
      run = finish-locked d s f g ∙ transition_ok _ s _ (finish_locked-ok (utc_of d) s after run);
      kept = flagged settings arrived after after.failed true k;
    };
    empty = λ _ _. empty refl;
  }
  finish_open d arrived s (raise e) after f g run k empty = record {
    answered = record {
      answer = raise e;
      after = record after { failed = fails e after.failed };
      run =
          finish-locked d s f g
          ∙ transition_raise _ s after e (finish_locked-raise (utc_of d) s after e run);
      kept = flagged settings arrived after (fails e after.failed) after.sealed k;
    };
    empty = λ _ h. absurd (raise_not_ok h);
  }

  pub finish-Finishes :
      (d : Option DateTime) (arrived : List (QueuedEvent P)) (s : Driver P (List (Action P)))
      → Kept settings arrived s
      → Finishes d arrived s
  unfolding finish finish_under unless_failed
  finish-Finishes d arrived s k = elim (Bool-cases s.failed) [
    | inl f ↦ record {
      answered = record { answer = raise runtime_error; after = s; run = rw f refl; kept = k };
      empty = λ _ h. absurd (raise_not_ok h);
    }
    | inr f ↦ elim (Bool-cases s.sealed) [
      | inl g ↦ record {
        answered = record { answer = ok tt; after = s; run = rw (f, g) refl; kept = k };
        empty = λ h _. absurd (true_not_false g h);
      }
      | inr g ↦
          let a = advance_through-Flushes s.maximum_seen (utc_of d) arrived s refl k in
          finish_open d arrived s a.answer a.after f g a.run a.kept a.empty
    ]
  ]
