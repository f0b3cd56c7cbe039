-- ===== src/OrderBook/Binance/Isolated.antt =====
-- orderbook/binance.py: the books of `BinanceOrderBookManager` do not disturb each other.
use Prim.Native.String.{String}
use mathlib.Core.Logic.{ite}
use mathlib.Core.Path.{subst, subst⁻¹}
use cvf.Prelude.{
  ℕ, ◌≡◌, refl, sym, ◌∙◌, ap, true, false, Option, none, some, List, [], ◌∷◌, Option-cases, inl,
  inr, Bool-cases, true_not_false, if◌then◌else◌,
}
use cvf.Outcome.{Error, Result, ok, raise, Result-cases}
use cvf.Exec.{Exec}
use cvf.Dict.{lookup, text_discrete, ite_yes, ite_no}
use cvf.Decimals.{Decimals}
use cvf.Exchanges.Symbols.{Texts}
use cvf.OrderBook.Binance.{Book}
use cvf.OrderBook.Binance.Operations.{init, ingest, install_snapshot}
use cvf.OrderBook.Binance.Manager.{
  Manager, new_manager, book, on_book, manager_ingest, manager_install_snapshot, lookup-on_book,
}
use cvf.OrderBook.Binance.Family.{
  ManagerCall, ingesting, installing, key_of, has_own, apply, take_call, take_calls, run_own,
  alone_from, alone, answer_from, answer_alone,
}

module _ {d : Decimals} (texts : Texts) where
  -- One call of a book, for what the dictionary has under its key.
  unfoldable made : {A : Type 0} → Exec (Book d) A → Result (Book d) → Option (Book d)
  made method (raise e) = none
  made method (ok b) = some (method b).1

  unfoldable next : {A : Type 0} → String → ℕ → Exec (Book d) A → Option (Book d) → Option (Book d)
  unfolding made
  next key n method none = made method (init d texts key n)
  next key n method (some b) = some (method b).1

  unfoldable reply_of : {A : Type 0} → Exec (Book d) A → Result (Book d) → Result A
  reply_of method (raise e) = raise e
  reply_of method (ok b) = (method b).0

  unfoldable reply : {A : Type 0} → String → ℕ → Exec (Book d) A → Option (Book d) → Result A
  unfolding reply_of
  reply key n method none = reply_of method (init d texts key n)
  reply key n method (some b) = (method b).0

  -- What a call through the manager does: to the entry of its key, to the others, and its result.
  record Calls {A : Type 0} (key : String) (method : Exec (Book d) A) (m : Manager d)
      (q : Result A × Manager d) : Type 0 where
    own :
        lookup text_discrete key q.1.books
        ≡ next key m.max_buffer_events method (lookup text_discrete key m.books)
    others :
        (k : String)
        → ¬ (key ≡ k)
        → lookup text_discrete k q.1.books ≡ lookup text_discrete k m.books
    bound : q.1.max_buffer_events ≡ m.max_buffer_events
    result : q.0 ≡ reply key m.max_buffer_events method (lookup text_discrete key m.books)

  -- There is a book for the call.
  on_made :
      {A : Type 0} (symbol : String) (method : Exec (Book d) A) (m : Manager d) (b : Book d)
      → (book texts symbol m).0 ≡ ok b
      → (on_book texts symbol method m).1.max_buffer_events ≡ m.max_buffer_events
      → next
          (texts.upper symbol)
          m.max_buffer_events
          method
          (lookup text_discrete (texts.upper symbol) m.books)
        ≡ some (method b).1
      → reply
          (texts.upper symbol)
          m.max_buffer_events
          method
          (lookup text_discrete (texts.upper symbol) m.books)
        ≡ (method b).0
      → Calls (texts.upper symbol) method m (on_book texts symbol method m)
  on_made symbol method m b e bound f g =
      let key = texts.upper symbol in
      let (result, entries) = lookup-on_book texts symbol method m b e in
      record {
        own = entries key ∙ ite_yes (text_discrete key key) refl _ _ ∙ sym f;
        others = λ k n. entries k ∙ ite_no (text_discrete key k) n _ _;
        bound = bound;
        result = result ∙ sym g;
      }

  failing :
      {A : Type 0} (symbol : String) (method : Exec (Book d) A) (m : Manager d) (err : Error)
      → lookup text_discrete (texts.upper symbol) m.books ≡ none
      → init d texts (texts.upper symbol) m.max_buffer_events ≡ raise err
      → on_book texts symbol method m ≡ (raise err, m)
  unfolding book on_book
  failing symbol method m err e f = rw (e, book) (rw (f, book) refl)

  unmade-Calls :
      {A : Type 0} (key : String) (method : Exec (Book d) A) (m : Manager d) (err : Error)
      → lookup text_discrete key m.books ≡ none
      → init d texts key m.max_buffer_events ≡ raise err
      → Calls key method m (raise err, m)
  unfolding next made reply reply_of
  unmade-Calls key method m err e f = record {
    own = rw (e, f) refl;
    others = λ k n. refl;
    bound = refl;
    result = rw (e, f) refl;
  }

  on_book-Calls :
      {A : Type 0} (symbol : String) (method : Exec (Book d) A) (m : Manager d)
      → Calls (texts.upper symbol) method m (on_book texts symbol method m)
  unfolding book on_book next made reply reply_of
  on_book-Calls symbol method m =
      let key = texts.upper symbol in
      elim (Option-cases (lookup text_discrete key m.books)) [
        | inr (b, e) ↦
            on_made symbol method m b (rw (e, book) refl) (rw (e, book) refl) (rw e refl)
              (rw e refl)
        | inl e ↦ elim (Result-cases (init d texts key m.max_buffer_events)) [
          | inl (b, f) ↦
              on_made symbol method m b (rw (e, book) (rw (f, book) refl))
                (rw (e, book) (rw (f, book) refl)) (rw (e, f) refl) (rw (e, f) refl)
          | inr (err, f) ↦
              subst⁻¹ (Calls key method m) (failing symbol method m err e f)
                (unmade-Calls key method m err e f)
        ]
      ]

  take_call-Calls :
      (call : ManagerCall) (m : Manager d)
      → Calls (key_of texts call) (apply texts call) m (take_call texts call m)
  unfolding key_of apply take_call manager_ingest manager_install_snapshot
  take_call-Calls (ingesting update) m =
      on_book-Calls update.venue_symbol (ingest texts.upper update) m
  take_call-Calls (installing venue_symbol snapshot) m =
      on_book-Calls venue_symbol (install_snapshot snapshot) m

  -- The entry of a key over a sequence of calls.
  unfoldable track : String → ℕ → List ManagerCall → Option (Book d) → Option (Book d)
  unfolding next
  track key n [] o = o
  track key n (call ∷ calls) o =
      track key n calls
        (ite (text_discrete (key_of texts call) key) (next key n (apply texts call) o) o)

  entry-step :
      (call : ManagerCall) (key : String) (m : Manager d) (o : Dec (key_of texts call ≡ key))
      → lookup text_discrete key (take_call texts call m).1.books
        ≡ ite o
            (next key m.max_buffer_events (apply texts call) (lookup text_discrete key m.books))
            (lookup text_discrete key m.books)
  entry-step call key m (yes p) =
      subst
        (λ k.
          lookup text_discrete k (take_call texts call m).1.books
          ≡ next k m.max_buffer_events (apply texts call) (lookup text_discrete k m.books))
        p ((take_call-Calls call m).own)
  entry-step call key m (no n) = (take_call-Calls call m).others key n

  take_calls-track :
      (calls : List ManagerCall) (key : String) (n : ℕ) (o : Option (Book d)) (m : Manager d)
      → m.max_buffer_events ≡ n
      → lookup text_discrete key m.books ≡ o
      → (lookup text_discrete key (take_calls texts calls m).books ≡ track key n calls o)
        × ((take_calls texts calls m).max_buffer_events ≡ n)
  unfolding take_calls track
  take_calls-track [] key n o m e f = (f, e)
  take_calls-track (call ∷ calls) key n o m e f =
      let step = entry-step call key m (text_discrete (key_of texts call) key) in
      take_calls-track calls key n _ (take_call texts call m).1 ((take_call-Calls call m).bound ∙ e)
        (step
          ∙ ap
              (λ l.
                ite (text_discrete (key_of texts call) key)
                  (next key l (apply texts call) (lookup text_discrete key m.books))
                  (lookup text_discrete key m.books))
              e
          ∙ ap
              (λ p. ite (text_discrete (key_of texts call) key) (next key n (apply texts call) p) p)
              f)

  track-run_own :
      (calls : List ManagerCall) (key : String) (n : ℕ) (b : Book d)
      → track key n calls (some b) ≡ some (run_own texts key calls b)
  unfolding track run_own next
  track-run_own [] key n b = refl
  track-run_own (call ∷ calls) key n b =
      elim (text_discrete (key_of texts call) key)
        as (λ o.
          track key n calls (ite o (some (apply texts call b).1) (some b))
          ≡ some (run_own texts key calls (ite o (apply texts call b).1 b))) [
            | yes p ↦ track-run_own calls key n (apply texts call b).1
            | no p ↦ track-run_own calls key n b
          ]

  track-alone_from :
      (calls : List ManagerCall) (key : String) (n : ℕ) (r : Result (Book d))
      → init d texts key n ≡ r
      → track key n calls none ≡ alone_from texts key calls r
  unfolding track alone_from has_own run_own next made
  track-alone_from [] key n (ok b) e = refl
  track-alone_from [] key n (raise err) e = refl
  track-alone_from (call ∷ calls) key n (raise err) e =
      rw e
        (elim (text_discrete (key_of texts call) key)
          as (λ o. track key n calls (ite o (made (apply texts call) (raise err)) none) ≡ none) [
            | yes p ↦ track-alone_from calls key n (raise err) e
            | no p ↦ track-alone_from calls key n (raise err) e
          ])
  track-alone_from (call ∷ calls) key n (ok b) e =
      rw e
        (elim (text_discrete (key_of texts call) key)
          as (λ o. track key n calls (ite o (made (apply texts call) (ok b)) none) ≡ (
            if ite o true (has_own texts key calls)
            then some (run_own texts key calls (ite o (apply texts call b).1 b))
            else none)) [
              | yes p ↦ track-run_own calls key n (apply texts call b).1
              | no p ↦ track-alone_from calls key n (ok b) e
            ])

  run_own-idle :
      (calls : List ManagerCall) (key : String) (b : Book d)
      → has_own texts key calls ≡ false
      → run_own texts key calls b ≡ b
  unfolding run_own has_own
  run_own-idle [] key b h = refl
  run_own-idle (call ∷ calls) key b h =
      elim (text_discrete (key_of texts call) key)
          as (λ o.
            ite o true (has_own texts key calls) ≡ false
            → run_own texts key calls (ite o (apply texts call b).1 b) ≡ b) [
              | yes p ↦ λ e. absurd (true_not_false refl e)
              | no p ↦ λ e. run_own-idle calls key b e
            ]
        h

  reply-answer_from :
      (call : ManagerCall) (calls : List ManagerCall) (n : ℕ) (r : Result (Book d))
      → init d texts (key_of texts call) n ≡ r
      → reply
          (key_of texts call)
          n
          (apply texts call)
          (alone_from texts (key_of texts call) calls r)
        ≡ answer_from texts call calls r
  unfolding reply reply_of alone_from answer_from
  reply-answer_from call calls n (raise err) e = rw e refl
  reply-answer_from call calls n (ok b) e =
      elim (Bool-cases (has_own texts (key_of texts call) calls)) [
        | inl mine ↦ rw mine refl
        | inr none_mine ↦ rw none_mine (
            rw e (
              ap (λ u. (apply texts call u).0)
                (sym (run_own-idle calls (key_of texts call) b none_mine))))
      ]

module _ {d : Decimals} (texts : Texts) where
  -- A new manager that has taken any calls, for any venue symbols and also such that raise: what it has
  -- under a key is what a single book of that key has after the calls with that key, in their order,
  -- whatever the other calls were, and nothing if there was none or no book can be made for the key. The
  -- next call of any symbol answers as that single book does, or raises what its constructor raises.
  pub take_calls-alone :
      (n : ℕ) (calls : List ManagerCall) (key : String) (call : ManagerCall)
      → (lookup text_discrete key (take_calls {d = d} texts calls (new_manager d n)).books
          ≡ alone texts key n calls)
        × ((take_call {d = d} texts call (take_calls texts calls (new_manager d n))).0
            ≡ answer_alone d texts call n calls)
  unfolding alone answer_alone new_manager lookup
  take_calls-alone n calls key call =
      let entry : (k : String)
          → (lookup text_discrete k (take_calls {d = d} texts calls (new_manager d n)).books
              ≡ alone_from texts k calls (init d texts k n)) =
        λ k.
          (take_calls-track texts calls k n none (new_manager d n) refl refl).0
          ∙ track-alone_from texts calls k n (init d texts k n) refl in
      let own = key_of texts call in
      let m = take_calls {d = d} texts calls (new_manager d n) in
      let bound = (take_calls-track texts calls own n none (new_manager d n) refl refl).1 in
      (
        entry key,
        (take_call-Calls texts call m).result
            ∙ ap (λ l. reply texts own l (apply texts call) (lookup text_discrete own m.books))
                bound
            ∙ ap (λ o. reply texts own n (apply texts call) o) (entry own)
            ∙ reply-answer_from texts call calls n (init d texts own n) refl,
      )
