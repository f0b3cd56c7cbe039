-- ===== src/OrderBook/Binance/Manager.antt =====
-- orderbook/binance.py: `BinanceOrderBookManager`, one book for each venue symbol, made when it is first asked for.
use Prim.Native.String.{String}
use mathlib.Core.Logic.{ite}
use cvf.Prelude.{ℕ, ◌≡◌, refl, ◌∙◌, Option, none, some, [], ◌∷◌, ℤ, Option-cases, inl, inr}
use cvf.Outcome.{Result, ok, raise, Result-cases, ◌>>=◌}
use cvf.Exec.{Exec, ◌>>=◌ as ◌>>=ₑ◌}
use cvf.Dict.{Dict, lookup, assign, lookup-assign, text_discrete}
use cvf.Decimals.{Decimals}
use cvf.Exchanges.Symbols.{Texts}
use cvf.OrderBook.Base.{BookApplyResult}
use cvf.OrderBook.Views.{BookView}
use cvf.OrderBook.Binance.{DepthUpdate, DepthSnapshot, Book}
use cvf.OrderBook.Binance.Operations.{init, ingest, install_snapshot}
use cvf.OrderBook.Binance.View.{view}

module _ (d : Decimals) where
  pub record Manager : Type 0 where
    pub max_buffer_events : ℕ
    pub books : Dict String (Book d)

  unfoldable pub new_manager : ℕ → Manager
  new_manager max_buffer_events = record { max_buffer_events = max_buffer_events; books = [] }

module _ {d : Decimals} (texts : Texts) where
  unfoldable pub book : String → Exec (Manager d) (Book d)
  book venue_symbol m =
      let normalized = texts.upper venue_symbol in
      elim (lookup text_discrete normalized m.books) [
        | some b ↦ (ok b, m)
        | none ↦ elim (init d texts normalized m.max_buffer_events) [
          | raise e ↦ (raise e, m)
          | ok b ↦ (ok b, record m { books = assign text_discrete normalized b m.books })
        ]
      ]

  -- A method of the symbol's book, which the dictionary shares.
  unfoldable pub on_book : {A : Type 0} → String → Exec (Book d) A → Exec (Manager d) A
  on_book venue_symbol method = book venue_symbol >>=ₑ λ b m.
      let (r, b') = method b in
      (r, record m { books = assign text_discrete (texts.upper venue_symbol) b' m.books })

  unfoldable pub manager_ingest : DepthUpdate → Exec (Manager d) BookApplyResult
  manager_ingest update = on_book update.venue_symbol (ingest texts.upper update)

  unfoldable pub manager_install_snapshot :
      String → DepthSnapshot → Exec (Manager d) BookApplyResult
  manager_install_snapshot venue_symbol snapshot = on_book venue_symbol (install_snapshot snapshot)

unfoldable pub views_of :
    {d : Decimals} → Option ℤ → Dict String (Book d) → Result (Dict String (BookView d))
views_of depth [] = ok []
views_of {d} depth ((venue_symbol, b) ∷ books) =
    view d depth b >>= λ w. views_of depth books >>= λ rest. ok ((venue_symbol, w) ∷ rest)

unfoldable pub views : {d : Decimals} → Option ℤ → Manager d → Result (Dict String (BookView d))
unfolding views_of
views depth m = views_of depth m.books

ite-ite : {P A : Type 0} (o : Dec P) (x y z : A) → ite o x (ite o y z) ≡ ite o x z
ite-ite (yes p) x y z = refl
ite-ite (no n) x y z = refl

module _ {d : Decimals} (texts : Texts) where
  -- Asking for a symbol's book changes no other entry.
  lookup-book :
      (symbol : String) (m : Manager d) (k : String) (x : Option (Book d))
      → ite
          (text_discrete (texts.upper symbol) k)
          x
          (lookup text_discrete k (book texts symbol m).1.books)
        ≡ ite (text_discrete (texts.upper symbol) k) x (lookup text_discrete k m.books)
  unfolding book
  lookup-book symbol m k x =
      let own = texts.upper symbol in
      elim (Option-cases (lookup text_discrete own m.books)) [
        | inr (b, e) ↦ rw (e, book) refl
        | inl e ↦ elim (Result-cases (init d texts own m.max_buffer_events)) [
          | inr (r, f) ↦ rw (e, book) (rw (f, book) refl)
          | inl (b, f) ↦
              rw (e, book)
                (rw (f, book)
                  (rw (lookup-assign text_discrete own k b m.books)
                    (ite-ite (text_discrete own k) x (some b) (lookup text_discrete k m.books))))
        ]
      ]

  -- A method called through the manager gives what the symbol's book gives, and leaves that book where
  -- the next lookup of the symbol finds it, and every other book as it was.
  pub lookup-on_book :
      {A : Type 0} (symbol : String) (method : Exec (Book d) A) (m : Manager d) (b : Book d)
      → (book texts symbol m).0 ≡ ok b
      → ((on_book texts symbol method m).0 ≡ (method b).0)
        × ((k : String)
            → lookup text_discrete k (on_book texts symbol method m).1.books
              ≡ ite
                  (text_discrete (texts.upper symbol) k)
                  (some (method b).1)
                  (lookup text_discrete k m.books))
  unfolding on_book
  lookup-on_book symbol method m b e = rw e (
    refl,
    λ k.
        lookup-assign text_discrete (texts.upper symbol) k (method b).1
          (book texts symbol m).1.books
        ∙ lookup-book symbol m k (some (method b).1),
  )
