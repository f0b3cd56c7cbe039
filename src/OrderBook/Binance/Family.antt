-- ===== src/OrderBook/Binance/Family.antt =====
-- orderbook/binance.py: calls of `BinanceOrderBookManager`, and what its books should be: each as if it
-- were alone.
use Prim.Native.String.{String}
use mathlib.Core.Logic.{ite}
use cvf.Prelude.{ℕ, Bool, true, false, Option, none, some, List, [], ◌∷◌, if◌then◌else◌}
use cvf.Outcome.{Result, ok, raise}
use cvf.Exec.{Exec}
use cvf.Dict.{text_discrete}
use cvf.Decimals.{Decimals}
use cvf.Exchanges.Symbols.{Texts}
use cvf.OrderBook.Base.{BookApplyResult}
use cvf.OrderBook.Binance.{DepthUpdate, DepthSnapshot, Book}
use cvf.OrderBook.Binance.Operations.{init, ingest, install_snapshot}
use cvf.OrderBook.Binance.Manager.{Manager, manager_ingest, manager_install_snapshot}

-- The calls of the manager that change it.
pub data ManagerCall : Type 0 where
  ingesting : DepthUpdate → ManagerCall
  installing : String → DepthSnapshot → ManagerCall

module _ (texts : Texts) where
  -- The key of a call, which is the venue symbol in capitals.
  unfoldable pub key_of : ManagerCall → String
  key_of (ingesting update) = texts.upper update.venue_symbol
  key_of (installing venue_symbol snapshot) = texts.upper venue_symbol

  unfoldable pub has_own : String → List ManagerCall → Bool
  unfolding key_of
  has_own key [] = false
  has_own key (call ∷ calls) =
      let rest = has_own key calls in ite (text_discrete (key_of call) key) true rest

module _ {d : Decimals} (texts : Texts) where
  -- What a call does to the book of its key.
  unfoldable pub apply : ManagerCall → Exec (Book d) BookApplyResult
  apply (ingesting update) = ingest texts.upper update
  apply (installing venue_symbol snapshot) = install_snapshot snapshot

  unfoldable pub take_call : ManagerCall → Exec (Manager d) BookApplyResult
  take_call (ingesting update) = manager_ingest texts update
  take_call (installing venue_symbol snapshot) =
      manager_install_snapshot texts venue_symbol snapshot

  unfoldable pub take_calls : List ManagerCall → Manager d → Manager d
  unfolding take_call
  take_calls [] m = m
  take_calls (call ∷ calls) m = take_calls calls (take_call call m).1

  -- One book that takes the calls with its key, in their order.
  unfoldable pub run_own : String → List ManagerCall → Book d → Book d
  unfolding key_of apply
  run_own key [] b = b
  run_own key (call ∷ calls) b =
      run_own key calls (ite (text_discrete (key_of texts call) key) (apply call b).1 b)

  -- What a manager should have under a key: nothing before the first call with that key or if no book can
  -- be made for it, and else a new book that has taken these calls and no others.
  unfoldable pub alone_from : String → List ManagerCall → Result (Book d) → Option (Book d)
  unfolding run_own has_own
  alone_from key calls (raise e) = none
  alone_from key calls (ok b) = if has_own texts key calls then some (run_own key calls b) else none

  unfoldable pub alone : String → ℕ → List ManagerCall → Option (Book d)
  unfolding alone_from
  alone key n calls = alone_from key calls (init d texts key n)

  unfoldable pub answer_from :
      ManagerCall → List ManagerCall → Result (Book d) → Result BookApplyResult
  unfolding run_own apply key_of
  answer_from call calls (raise e) = raise e
  answer_from call calls (ok b) = (apply call (run_own (key_of texts call) calls b)).0

unfoldable pub answer_alone :
    (d : Decimals) (texts : Texts) → ManagerCall → ℕ → List ManagerCall → Result BookApplyResult
unfolding answer_from key_of
answer_alone d texts call n calls =
    answer_from {d = d} texts call calls (init d texts (key_of texts call) n)
