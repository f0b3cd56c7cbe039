-- ===== src/Features/Book/Examples.antt =====
-- Concrete events and a concrete book of the features.
use Prim.Native.Nat.{◌-◌}
use cvf.Prelude.{ℕ, ◌+◌, false, none, some, [], ◌∷◌, pos}
use cvf.OrderBook.Views.{OrderBookLevel}
use cvf.OrderBook.Examples.{numbers}
use cvf.Features.Lineage.{empty}
use cvf.Features.Book.{number, Int10, Arithmetic, OrderBookSnapshot, OrderBookUpdate, Book, Digests}

abbrev pub sums : Arithmetic ℕ
sums = record {
  nought = 0;
  plus = λ m n. m + n;
  minus = λ m n. m - n;
  negate = λ n. n;
  is_negative = λ n. false;
}

-- Every event has the digest one.
abbrev pub ones : Digests numbers
ones = record {
  hex = record { length_of = λ s. 64; int16 = λ s. some (pos 1) };
  source_digest = λ t event. "1";
}

abbrev pub no_text : Int10
no_text s = none

abbrev pub level : ℕ → ℕ → OrderBookLevel numbers
level p q = record { price = p; quantity = q }

abbrev pub new_book : Book numbers
new_book = record {
  pending_capacity = 1;
  pending = [];
  bids = [];
  asks = [];
  generation = 0;
  epoch = 0;
  sequence_id = none;
  synchronized = false;
  synchronized_since = none;
  last_change = none;
  lineage = empty;
}

abbrev pub snapshot7 : OrderBookSnapshot numbers
snapshot7 = record {
  exchange_timestamp = 50;
  sequence_id = some (number (pos 7));
  generation = 1;
  bids = level 100 2 ∷ [];
  asks = level 102 2 ∷ [];
}

abbrev pub update8 : OrderBookUpdate numbers
update8 = record {
  exchange_timestamp = 60;
  sequence_id = some (number (pos 8));
  previous_sequence_id = some (number (pos 7));
  generation = 1;
  bids = level 101 1 ∷ [];
  asks = [];
}
