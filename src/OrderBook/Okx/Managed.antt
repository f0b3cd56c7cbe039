-- ===== src/OrderBook/Okx/Managed.antt =====
-- Every book that an OKX manager holds mirrors its own venue symbol.
use Prim.Native.String.{String}
use mathlib.Core.Logic.{ite}
use cvf.Prelude.{
  ℕ, ◌≡◌, refl, sym, ◌∙◌, Option, none, some, List, [], ◌∷◌, All, Option-cases, inl, inr,
}
use cvf.Outcome.{ok}
use cvf.Dict.{lookup, assign, lookup-assign, text_discrete}
use cvf.Decimals.{Decimals}
use cvf.OrderBook.Base.{BookApplyResult}
use cvf.OrderBook.Okx.{OkxBookData, Action, OkxBook, ingest}
use cvf.OrderBook.Okx.Manager.{
  OkxBooksMessage, OkxManager, ingest_entries, ingest_books_of, ingest_books,
}
use cvf.OrderBook.Okx.Mirror.{Venue, IsGood, Mirrors, ingest-Mirrors}

module _ {d : Decimals} (crc32 : String → ℕ) where
  ingest_entries-Mirrors :
      (v : Venue d) (action : Action) (entries : List OkxBookData) (b : OkxBook d)
      → All (IsGood d v action) entries
      → Mirrors v b
      → ((rs : List BookApplyResult) × ((ingest_entries crc32 action entries b).0 ≡ ok rs))
        × Mirrors v (ingest_entries crc32 action entries b).1
  unfolding ingest_entries
  ingest_entries-Mirrors v action [] b g h = (([], refl), h)
  ingest_entries-Mirrors v action (entry ∷ entries) b g h =
      let ((r, done), same) = ingest-Mirrors v crc32 action entry b g.0 h in
      let ((rs, all_done), after) =
        ingest_entries-Mirrors v action entries (ingest crc32 action entry b).1 g.1 same in
      rw done (rw all_done ((r ∷ rs, refl), after))

  -- Every book of the manager mirrors the venue of its symbol.
  pub record AllMirror (venues : String → Venue d) (m : OkxManager d) : Type 0 where
    pub mirrors :
        (k : String) (b : OkxBook d)
        → lookup text_discrete k m.books ≡ some b
        → Mirrors (venues k) b

  abbrev pub IsGoodFor : (String → Venue d) → Option String → OkxBooksMessage → Type 0
  IsGoodFor venues none message = Unit
  IsGoodFor venues (some symbol) message =
      All (IsGood d (venues symbol) message.action) message.entries

  assign-AllMirror :
      (venues : String → Venue d) (symbol : String) (c : OkxBook d) (m : OkxManager d)
      → Mirrors (venues symbol) c
      → AllMirror venues m
      → AllMirror venues (record m { books = assign text_discrete symbol c m.books })
  assign-AllMirror venues symbol c m n h = record {
    mirrors = λ k b e.
        by_key k b (text_discrete symbol k)
          (sym (lookup-assign text_discrete symbol k c m.books) ∙ e);
  }
    where
      by_key :
          (k : String) (b : OkxBook d) (o : Dec (symbol ≡ k))
          → ite o (some c) (lookup text_discrete k m.books) ≡ some b
          → Mirrors (venues k) b
      by_key k b (yes q) f = let same : c ≡ b = cc in rw q at (rw same at n)
      by_key k b (no q) f = h.mirrors k b f

  -- A `books` message whose entries are faithful to the venue of its symbol: afterwards every book of
  -- the manager, of that symbol and of the others, mirrors its venue, also where the message is
  -- refused.
  pub ingest_books-AllMirror :
      (venues : String → Venue d) (message : OkxBooksMessage) (m : OkxManager d)
      → IsGoodFor venues message.instrument_id message
      → AllMirror venues m
      → AllMirror venues (ingest_books crc32 message m).1
  unfolding ingest_books ingest_books_of
  ingest_books-AllMirror venues message m g h = by_symbol message.instrument_id g
    where
      of_book :
          (symbol : String)
          → All (IsGood d (venues symbol) message.action) message.entries
          → AllMirror venues (ingest_books_of crc32 (some symbol) message m).1
      of_book symbol g' = elim (Option-cases (lookup text_discrete symbol m.books)) [
        | inl e ↦ rw (e, ingest_books_of) h
        | inr (b, e) ↦
            rw (e, ingest_books_of)
              (assign-AllMirror venues symbol _ m
                (ingest_entries-Mirrors (venues symbol) message.action message.entries b g'
                  (h.mirrors symbol b e)).1
                h)
      ]

      by_symbol :
          (o : Option String)
          → IsGoodFor venues o message
          → AllMirror venues (ingest_books_of crc32 o message m).1
      by_symbol none g' = h
      by_symbol (some symbol) g' = of_book symbol g'
