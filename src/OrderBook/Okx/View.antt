-- ===== src/OrderBook/Okx/View.antt =====
-- orderbook/okx.py: the `view` methods of both books, which differ in their constant `channel` alone.

use cvf.Prelude.{ℕ, Option, List, [], ◌∷◌, ℤ}
use cvf.Outcome.{Result, ok, ◌>>=◌, ◌>>◌}
use cvf.Decimals.{Decimals}
use cvf.OrderBook.Base.{BookStatus}
use cvf.OrderBook.Views.{
  OrderBookLevel, order_book_level, BookView, check_depth, to_depth, sort_items,
}
use cvf.OrderBook.Binance.Operations.{is_live}
use cvf.OrderBook.Okx.{
  RawLevel, RawSide, values, higher, lower, ContractSpecification, contracts_to_base, OkxBook,
}
use cvf.OrderBook.Okx.Books5.{Books5Book}

module _ {d : Decimals} where
  unfoldable pub normalized_level : ContractSpecification d → RawLevel d → Result (OrderBookLevel d)
  normalized_level specification level =
      order_book_level d level.price (contracts_to_base d specification level.quantity_contracts)

  unfoldable pub normalized_levels :
      ContractSpecification d → List (RawLevel d) → Result (List (OrderBookLevel d))
  unfolding normalized_level
  normalized_levels specification [] = ok []
  normalized_levels specification (level ∷ levels) = normalized_level specification level >>= λ l.
      normalized_levels specification levels >>= λ rest. ok (l ∷ rest)

  unfoldable pub view_of :
      Option ℤ
      → ContractSpecification d
      → BookStatus
      → ℕ
      → Option ℤ
      → RawSide d
      → RawSide d
      → Result (BookView d)
  unfolding normalized_levels
  view_of depth specification status generation sequence_id bid_side ask_side =
      check_depth depth
      >> (normalized_levels specification
            (to_depth depth (sort_items (higher d) (values d bid_side)))
          >>= λ bids.
              normalized_levels specification
                (to_depth depth (sort_items (lower d) (values d ask_side)))
              >>= λ asks. ok (record {
                symbol = specification.canonical_symbol;
                generation = generation;
                sequence_id = sequence_id;
                synchronized = is_live status;
                bids = bids;
                asks = asks;
              }))

  unfoldable pub books_view : Option ℤ → OkxBook d → Result (BookView d)
  unfolding view_of
  books_view depth b =
      view_of depth b.specification b.status b.generation b.sequence_id b.bids b.asks

  unfoldable pub books5_view : Option ℤ → Books5Book d → Result (BookView d)
  unfolding view_of
  books5_view depth b =
      view_of depth b.specification b.status b.generation b.sequence_id b.bids b.asks
