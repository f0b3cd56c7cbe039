-- ===== src/OrderBook/Binance/View.antt =====
-- orderbook/binance.py: `view`, and `BinanceOrderBookManager`.

use cvf.Prelude.{◌≡◌, refl, sym, ◌⊎◌, Bool, true, Option, none, ℤ, inl, inr}
use cvf.Outcome.{bind_ok, ok_injective, Result, ok, ◌>>=◌, ◌>>◌}
use cvf.Dict.{lookup}
use cvf.Decimals.{Decimals}
use cvf.OrderBook.Views.{
  BookView, order_book_levels, check_depth, to_depth, sort_items, IsOrdered, sort_items-IsOrdered,
  lookup-sort_items, pairs, order_book_levels-pairs,
}
use cvf.OrderBook.Binance.{Book}
use cvf.OrderBook.Binance.Operations.{is_live}

module _ (d : Decimals) where
  -- The prices of a dictionary's items are all different, so that a tuple comparison ends with them.
  unfoldable pub higher : d.Value × d.Value → d.Value × d.Value → Bool
  higher x y = d.le y.0 x.0

  unfoldable pub lower : d.Value × d.Value → d.Value × d.Value → Bool
  lower x y = d.le x.0 y.0

  unfoldable pub view : Option ℤ → Book d → Result (BookView d)
  unfolding higher lower is_live
  view depth b =
      check_depth depth
      >> (order_book_levels d (to_depth depth (sort_items higher b.bids)) >>= λ bids.
          order_book_levels d (to_depth depth (sort_items lower b.asks)) >>= λ asks. ok (record {
            symbol = b.canonical_symbol;
            generation = b.generation;
            sequence_id = b.sequence_id;
            synchronized = is_live b.status;
            bids = bids;
            asks = asks;
          }))

module _ (d : Decimals) where
  le_refl : (a b : d.Value) → a ≡ b → d.le a b ≡ true
  le_refl a b e = rw e (by_total (d.le_total b b))
    where
      by_total : {c : Bool} → (c ≡ true) ⊎ (c ≡ true) → c ≡ true
      by_total (inl h) = h
      by_total (inr h) = h

  -- A full view that is given lists the bids from the highest price and the asks from the lowest, each
  -- price with the quantity that the book holds at it and no other price, and is synchronized
  -- exactly if the book is live.
  pub view-pairs :
      (b : Book d) (w : BookView d)
      → view d none b ≡ ok w
      → IsOrdered (higher d) (pairs d w.bids)
        × IsOrdered (lower d) (pairs d w.asks)
        × ((price : d.Value)
            → lookup d.discrete price (pairs d w.bids) ≡ lookup d.discrete price b.bids)
        × ((price : d.Value)
            → lookup d.discrete price (pairs d w.asks) ≡ lookup d.discrete price b.asks)
        × (w.synchronized ≡ is_live b.status)
        × (w.sequence_id ≡ b.sequence_id)
  unfolding view check_depth to_depth higher lower
  view-pairs b w e =
      let (bids, read_bids, e') =
        bind_ok (order_book_levels d (sort_items (higher d) b.bids)) _ w e in
      let (asks, read_asks, e'') =
        bind_ok (order_book_levels d (sort_items (lower d) b.asks)) _ w e' in
      rw (sym (ok_injective e'')) (
        rw (order_book_levels-pairs d _ bids read_bids) (
          rw (order_book_levels-pairs d _ asks read_asks) (
            sort_items-IsOrdered (higher d) (λ x y. d.le_total y.0 x.0)
                (λ x y z h k. d.le_trans z.0 y.0 x.0 k h) b.bids,
            sort_items-IsOrdered (lower d) (λ x y. d.le_total x.0 y.0)
                (λ x y z h k. d.le_trans x.0 y.0 z.0 h k) b.asks,
            (λ price.
                lookup-sort_items d.discrete (higher d) (λ x y q. le_refl y.0 x.0 (sym q)) price
                  b.bids),
            (λ price.
                lookup-sort_items d.discrete (lower d) (λ x y q. le_refl x.0 y.0 q) price b.asks),
            refl,
            refl,
          )))
