-- ===== src/OrderBook/Okx/Manager.antt =====
-- orderbook/okx.py: `OkxOrderBookManager`, a `books` and a `books5` book for each configured symbol.
use Prim.Native.String.{String}
use cvf.Prelude.{ℕ, Bool, Option, none, some, List, [], ◌∷◌}
use cvf.Outcome.{Result, ok, raise, value_error, ◌>>=◌}
use cvf.Exec.{Exec, pure, ◌>>=◌ as ◌>>=ₑ◌}
use cvf.Dict.{Dict, lookup, assign, text_discrete}
use cvf.Decimals.{Decimals}
use cvf.OrderBook.Base.{BookApplyResult}
use cvf.OrderBook.Okx.{OkxBookData, Action, ContractSpecification, OkxBook, init, ingest}
use cvf.OrderBook.Okx.Books5.{
  OkxBooks5Data, Books5Book, init as init_books5, ingest as ingest_books5_data,
}

-- `OkxBooksMessage`, its argument's `instId` apart from the other fields.
pub record OkxBooksMessage : Type 0 where
  pub instrument_id : Option String
  pub action : Action
  pub entries : List OkxBookData

module _ (d : Decimals) where
  pub record OkxManager : Type 0 where
    pub books : Dict String (OkxBook d)
    pub books5 : Dict String (Books5Book d)

module _ {d : Decimals} where
  unfoldable pub init_books :
      Bool → Dict String (ContractSpecification d) → Result (Dict String (OkxBook d))
  init_books validate [] = ok []
  init_books validate ((symbol, specification) ∷ specifications) =
      init specification validate >>= λ b.
      init_books validate specifications >>= λ rest. ok ((symbol, b) ∷ rest)

  unfoldable pub init_all_books5 :
      Dict String (ContractSpecification d) → Result (Dict String (Books5Book d))
  init_all_books5 [] = ok []
  init_all_books5 ((symbol, specification) ∷ specifications) = init_books5 specification >>= λ b.
      init_all_books5 specifications >>= λ rest. ok ((symbol, b) ∷ rest)

  unfoldable pub init_manager : Bool → Dict String (ContractSpecification d) → Result (OkxManager d)
  unfolding init_books init_all_books5
  init_manager validate specifications = init_books validate specifications >>= λ books.
      init_all_books5 specifications >>= λ books5. ok (record { books = books; books5 = books5 })

  -- The list that `ingest_books` builds: the entries in order, up to one that raises.
  unfoldable pub ingest_entries :
      (String → ℕ) → Action → List OkxBookData → Exec (OkxBook d) (List BookApplyResult)
  ingest_entries crc32 action [] = pure []
  ingest_entries crc32 action (entry ∷ entries) = ingest crc32 action entry >>=ₑ λ r.
      ingest_entries crc32 action entries >>=ₑ λ rs. pure (r ∷ rs)

  -- A missing key is a `KeyError`, turned into a `ValueError`. The book is shared with the dictionary.
  unfoldable pub ingest_books_of :
      (String → ℕ) → Option String → OkxBooksMessage → Exec (OkxManager d) (List BookApplyResult)
  unfolding ingest_entries
  ingest_books_of crc32 none message m = (raise value_error, m)
  ingest_books_of crc32 (some symbol) message m = elim (lookup text_discrete symbol m.books) [
    | none ↦ (raise value_error, m)
    | some b ↦
        let (r, b') = ingest_entries crc32 message.action message.entries b in
        (r, record m { books = assign text_discrete symbol b' m.books })
  ]

  unfoldable pub ingest_books :
      (String → ℕ) → OkxBooksMessage → Exec (OkxManager d) (List BookApplyResult)
  unfolding ingest_books_of
  ingest_books crc32 message = ingest_books_of crc32 message.instrument_id message

  unfoldable pub ingest_one_books5 : OkxBooks5Data → Exec (OkxManager d) BookApplyResult
  ingest_one_books5 entry m = elim (lookup text_discrete entry.instrument_id m.books5) [
    | none ↦ (raise value_error, m)
    | some b ↦
        let (r, b') = ingest_books5_data entry b in
        (r, record m { books5 = assign text_discrete entry.instrument_id b' m.books5 })
  ]

  unfoldable pub ingest_books5 : List OkxBooks5Data → Exec (OkxManager d) (List BookApplyResult)
  unfolding ingest_one_books5
  ingest_books5 [] = pure []
  ingest_books5 (entry ∷ entries) =
      ingest_one_books5 entry >>=ₑ λ r. ingest_books5 entries >>=ₑ λ rs. pure (r ∷ rs)
