-- ===== src/Features/Timeline/Delivered.antt =====
-- features/runtime.py: any sequence of calls of the driver, and the timeline that its sinks see.
use mathlib.Core.Path.{subst, subst₂}
use cvf.Prelude.{
  ℕ, ◌<◌, ◌≡◌, refl, sym, ap, ◌∙◌, List, [], ◌∷◌, ◌++◌, false, Option, none, some, All, append-nil,
}
use cvf.Outcome.{Error, Result, ok, raise, raise_not_ok}
use cvf.Time.{DateTime, aware}
use cvf.Features.Timeline.{
  TimelineEvent, QueuedEvent, Driver, TimelineSettings, publish, advance, finish,
}
use cvf.Features.Timeline.Spec.{Action, trace, ticks, reached, woven, timeline}
use cvf.Features.Timeline.Publishing.{StartsAt, Progress}
use cvf.Features.Timeline.Flushing.{Ahead, Below}
use cvf.Features.Timeline.Advancing.{Stands, Stands.waiting, Stands.moving}
use cvf.Features.Timeline.Calls.{
  IsUsable, ordered, fresh, queued, Kept, fresh-Kept, Published, Published.taken, Published.denied,
  publish-Published,
}
use cvf.Features.Timeline.Finishing.{advance-Answered, finish-Finishes}

aware_injective : {a b : ℕ} → aware a ≡ aware b → a ≡ b
aware_injective h = cc

module _ {P : Type 0} (settings : TimelineSettings) where
  -- The states that calls lead to, with the events that were accepted, the newest first.
  pub data Reached : List (QueuedEvent P) → Driver P (List (Action P)) → Type 0 where
    start : Reached [] fresh
    accepted :
        (arrived : List (QueuedEvent P)) (s s' : Driver P (List (Action P)))
        (event : TimelineEvent P) (t : ℕ)
        → Reached arrived s
        → event.local_receive_timestamp ≡ aware t
        → 0 < t
        → publish trace settings event s ≡ (ok tt, s')
        → Reached (queued event t s' ∷ arrived) s'
    refused :
        (arrived : List (QueuedEvent P)) (s s' : Driver P (List (Action P)))
        (event : TimelineEvent P) (e : Error)
        → Reached arrived s
        → publish trace settings event s ≡ (raise e, s')
        → Reached arrived s'
    advanced :
        (arrived : List (QueuedEvent P)) (s s' : Driver P (List (Action P))) (t : DateTime)
        (r : Result (Unit {0}))
        → Reached arrived s
        → advance trace settings t s ≡ (r, s')
        → Reached arrived s'
    finished :
        (arrived : List (QueuedEvent P)) (s s' : Driver P (List (Action P))) (t : Option DateTime)
        (r : Result (Unit {0}))
        → Reached arrived s
        → finish trace settings t s ≡ (r, s')
        → Reached arrived s'

  -- The timeline of the events sent, once there is a watermark.
  abbrev pub shown : List (QueuedEvent P) → Option ℕ → List (Action P)
  shown sent none = []
  shown sent (some w) = timeline settings sent w

  pub record Delivers (arrived : List (QueuedEvent P)) (s : Driver P (List (Action P)))
      : Type 0 where
    pub sent : List (QueuedEvent P)
    pub split : sent ++ s.events ≡ ordered arrived
    pub until : All (λ x. Below x.receive_timestamp s.watermark) sent
    pub ahead : All (λ x. Ahead s.watermark x.receive_timestamp) s.events
    pub world : s.world ≡ shown sent s.watermark

  started_timeline :
      (t0 v : ℕ) (sent : List (QueuedEvent P)) (s : Driver P (List (Action P)))
      → StartsAt t0 sent
      → Progress settings t0 v sent s
      → s.world ≡ timeline settings sent v
  started_timeline t0 v [] s h p = absurd h
  started_timeline t0 v (x ∷ xs) s h p =
      p.world
      ∙ ap (λ t. woven settings t (x ∷ xs) ++ ticks settings (reached settings t (x ∷ xs)) v)
          (sym h)

  idle_timeline : (sent : List (QueuedEvent P)) (w : Option ℕ) → sent ≡ [] → [] ≡ shown sent w
  idle_timeline [] none e = refl
  idle_timeline [] (some w) e = refl
  idle_timeline (x ∷ xs) w e = absurd (cc)

  Stands-shown :
      (sent : List (QueuedEvent P)) (w : Option ℕ) (s : Driver P (List (Action P)))
      → Stands settings sent w s
      → s.world ≡ shown sent w
  Stands-shown sent w s (waiting e n z) = z ∙ idle_timeline sent w e
  Stands-shown sent w s (moving t0 v e starts h) = rw e (started_timeline t0 v sent s starts h)

  Kept-Delivers :
      (arrived : List (QueuedEvent P)) (s : Driver P (List (Action P)))
      → Kept settings arrived s
      → Delivers arrived s
  Kept-Delivers arrived s k =
      let h = k.holds in
      record {
        sent = h.sent;
        split = h.split;
        until = h.until;
        ahead = h.ahead;
        world = Stands-shown h.sent s.watermark s h.stands;
      }

  module _ (usable : IsUsable settings) where
    accepted-Kept :
        (arrived : List (QueuedEvent P)) (s s' : Driver P (List (Action P)))
        (event : TimelineEvent P) (t : ℕ)
        → Published settings arrived event s
        → event.local_receive_timestamp ≡ aware t
        → 0 < t
        → publish trace settings event s ≡ (ok tt, s')
        → Kept settings (queued event t s' ∷ arrived) s'
    accepted-Kept arrived s s' event t (taken s1 t1 run1 e1 k) e lt run =
        let state : s1 ≡ s' = ap (λ q. q.1) (sym run1 ∙ run) in
        let time : t1 ≡ t = aware_injective (sym e1 ∙ e) in
        subst₂ (λ u n. Kept settings (queued event n u ∷ arrived) u) state time
          (k (subst (λ n. 0 < n) (sym time) lt))
    accepted-Kept arrived s s' event t (denied s1 err run1 k) e lt run =
        absurd (raise_not_ok (ap (λ q. q.0) (sym run1 ∙ run)))

    refused-Kept :
        (arrived : List (QueuedEvent P)) (s s' : Driver P (List (Action P)))
        (event : TimelineEvent P) (e : Error)
        → Published settings arrived event s
        → publish trace settings event s ≡ (raise e, s')
        → Kept settings arrived s'
    refused-Kept arrived s s' event e (taken s1 t1 run1 e1 k) run =
        absurd (raise_not_ok (ap (λ q. q.0) (sym run ∙ run1)))
    refused-Kept arrived s s' event e (denied s1 err run1 k) run =
        subst (Kept settings arrived) (ap (λ q. q.1) (sym run1 ∙ run)) k

    Reached-Kept :
        (arrived : List (QueuedEvent P)) (s : Driver P (List (Action P)))
        → Reached arrived s
        → Kept settings arrived s
    Reached-Kept _ _ start = fresh-Kept settings
    Reached-Kept _ _ (accepted arrived s s' event t h e lt run) =
        accepted-Kept arrived s s' event t
          (publish-Published settings usable arrived event s (Reached-Kept arrived s h)) e lt run
    Reached-Kept _ _ (refused arrived s s' event e h run) =
        refused-Kept arrived s s' event e
          (publish-Published settings usable arrived event s (Reached-Kept arrived s h)) run
    Reached-Kept _ _ (advanced arrived s s' t r h run) =
        let a = advance-Answered settings usable arrived t s (Reached-Kept arrived s h) in
        subst (Kept settings arrived) (ap (λ q. q.1) (sym a.run ∙ run)) a.kept
    Reached-Kept _ _ (finished arrived s s' t r h run) =
        let a = finish-Finishes settings usable t arrived s (Reached-Kept arrived s h) in
        subst (Kept settings arrived) (ap (λ q. q.1) (sym a.answered.run ∙ run)) a.answered.kept

    -- From the new driver, with positive intervals and lateness and sinks that never fail, whatever
    -- calls are made, none of them cancelled, and whether they raise: of the accepted events, in the
    -- order of the heap, the sinks were given a first part and the buffer holds the rest; the watermark lies between the two,
    -- and the sinks saw the timeline of that part: the ticks start at the first event, each is due,
    -- none is missing up to the watermark, and each comes after every event before it and before
    -- every event after it.
    pub Reached-Delivers :
        (arrived : List (QueuedEvent P)) (s : Driver P (List (Action P)))
        → Reached arrived s
        → Delivers arrived s
    Reached-Delivers arrived s h = Kept-Delivers arrived s (Reached-Kept arrived s h)

    all_sent :
        (arrived : List (QueuedEvent P)) (s : Driver P (List (Action P)))
        → Delivers arrived s
        → s.events ≡ []
        → s.world ≡ shown (ordered arrived) s.watermark
    all_sent arrived s d e =
        d.world
        ∙ ap (λ l. shown l s.watermark)
            (sym (append-nil d.sent) ∙ ap (λ l. d.sent ++ l) (sym e) ∙ d.split)

    -- A `finish` that succeeds on a driver in use leaves nothing behind: the sinks have seen the whole
    -- timeline of the accepted events, which depends on nothing but their order in the heap and the
    -- last watermark.
    pub finish-shown :
        (arrived : List (QueuedEvent P)) (s s' : Driver P (List (Action P))) (d : Option DateTime)
        → Reached arrived s
        → s.sealed ≡ false
        → finish trace settings d s ≡ (ok tt, s')
        → (s'.events ≡ []) × (s'.world ≡ shown (ordered arrived) s'.watermark)
    finish-shown arrived s s' d h g run =
        let f = finish-Finishes settings usable d arrived s (Reached-Kept arrived s h) in
        let state = ap (λ q. q.1) (sym f.answered.run ∙ run) in
        let answer = ap (λ q. q.0) (sym f.answered.run ∙ run) in
        let empty = subst (λ u. u.events ≡ []) state (f.empty g answer) in
        (
          empty,
          all_sent arrived s' (Reached-Delivers arrived s' (finished arrived s s' d (ok tt) h run))
              empty,
        )
