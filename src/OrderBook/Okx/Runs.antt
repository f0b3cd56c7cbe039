-- ===== src/OrderBook/Okx/Runs.antt =====
-- Tests of the OKX books, and their theorems at concrete inputs.
use Prim.Native.String.{len}
use native.Mathlib.Decide.{ℕ_discrete}
use mathlib.Core.Logic.{ite}
use cvf.Prelude.{
  ◌-◌, ◌^◌, ◌≡◌, ◌≢◌, refl, Option, List, true, false, none, some, [], ◌∷◌, pos, negsuc, ltb_ℤ,
  if◌then◌else◌,
}
use cvf.Outcome.{ok}
use cvf.Dict.{text_discrete, lookup, assign, pop}
use cvf.Exchanges.Symbols.{okx}
use cvf.OrderBook.Base.{live, buffering, resync_required, BookApplyResult, snapshot_applied}
use cvf.OrderBook.Examples.{numbers}
use mathlib.Core.List.{Permᴰ}
use cvf.OrderBook.Views.{insert_sorted, sort_items, IsOrdered}
use cvf.OrderBook.Okx.{
  RawLevel, RawSide, OkxBookData, snapshot, update, signed_crc32, join, fill_raw_side, raw_side,
  apply_raw_level, apply_raw_side, higher, lower, values, interleave, checksum_from_sides,
  calculate_okx_checksum, ContractSpecification, OkxBook, is_okx, init, result, invalidate,
  begin_resync, checksum_valid, checksum_failure, accept_if_valid, replace_bids, replace_asks,
  apply_bids, apply_asks, ingest_snapshot, apply_update, ingest_update, ingest,
}
use cvf.OrderBook.Okx.Manager.{OkxBooksMessage, OkxManager, ingest_books}
use cvf.OrderBook.Okx.Managed.{AllMirror, ingest_books-AllMirror}
use cvf.OrderBook.Okx.Checked.{ingest-checksum}
use cvf.OrderBook.Okx.Checksum.{rows, level_texts, checksum_from_sides-rows}
use cvf.OrderBook.Okx.Mirror.{Venue, raw_level, IsFaithful, Mirrors, At, from_id, ingest-Mirrors}

opened : Unit {0}
unfolding lookup assign pop insert_sorted sort_items signed_crc32 join fill_raw_side raw_side
    apply_raw_level apply_raw_side higher lower values interleave checksum_from_sides
    calculate_okx_checksum is_okx init result invalidate begin_resync checksum_valid
    checksum_failure accept_if_valid replace_bids replace_asks apply_bids apply_asks ingest_snapshot
    apply_update ingest_update ingest ℕ_discrete
opened = tt

abbrev specification : ContractSpecification numbers
specification = record {
  exchange = okx;
  canonical_symbol = "BTC-USDT-PERP";
  venue_symbol = "BTC-USDT-SWAP";
  contract_value = 2;
  contract_multiplier = 1;
}

abbrev snapshot_10 : OkxBookData
snapshot_10 = record {
  bids = ("100", "1", "0", "4") ∷ [];
  asks = ("2", "1", "0", "1") ∷ [];
  checksum = pos 9;
  sequence_id = pos 10;
  previous_sequence_id = negsuc 0;
}

abbrev update_12 : OkxBookData
update_12 = record {
  bids = ("100", "2", "0", "4") ∷ [];
  asks = [];
  checksum = pos 9;
  sequence_id = pos 12;
  previous_sequence_id = pos 10;
}

abbrev empty_book : OkxBook numbers
empty_book = record {
  specification = specification;
  validate_nonzero_checksum = true;
  status = buffering;
  generation = 0;
  sequence_id = none;
  bids = [];
  asks = [];
}

abbrev live_book : OkxBook numbers
live_book = record empty_book {
  status = live;
  sequence_id = some (pos 10);
  bids = (100, raw_level numbers "100" "1" 100 1) ∷ [];
  asks = (2, raw_level numbers "2" "1" 2 1) ∷ [];
}

constructed : init specification true ≡ ok empty_book
unfolding opened
constructed = refl

-- The length of the text stands for its checksum.
taken : (ingest len snapshot snapshot_10 empty_book).1 ≡ live_book
unfolding opened
taken = refl

wrong_checksum :
    (ingest len snapshot (record snapshot_10 { checksum = pos 8 }) empty_book).1
    ≡ record empty_book { status = resync_required; generation = 1 }
unfolding opened
wrong_checksum = refl

top_bit : signed_crc32 (λ s. 2 ^ 32 - 1) "" ≡ negsuc 0
unfolding opened
top_bit = refl

abbrev applied : BookApplyResult
applied = record {
  transition = snapshot_applied;
  status = live;
  generation = 0;
  sequence_id = some (pos 10);
  buffered_events = 0;
  needs_snapshot = false;
}

returned : (ingest len snapshot snapshot_10 empty_book).0 ≡ ok applied
unfolding opened
returned = refl

stays_live : (ingest len snapshot snapshot_10 empty_book).1.status ≡ live
unfolding opened
stays_live = refl

ingest-checksum_example :
    ((ingest len snapshot snapshot_10 empty_book).1.sequence_id ≡ some (pos 10))
    × ((ingest len snapshot snapshot_10 empty_book).1.validate_nonzero_checksum ≡ true
        → pos 9 ≢ pos 0
        → checksum_from_sides numbers len
            (ingest len snapshot snapshot_10 empty_book).1.bids
            (ingest len snapshot snapshot_10 empty_book).1.asks
          ≡ pos 9)
ingest-checksum_example =
    ingest-checksum len snapshot snapshot_10 empty_book applied returned stays_live

-- One bid, whose quantity changes at id 12, and one ask.
abbrev venue : Venue numbers
venue = record {
  bids = λ n price.
      ite (ℕ_discrete 100 price)
        (some (
          if ltb_ℤ n (pos 12)
          then raw_level numbers "100" "1" 100 1
          else raw_level numbers "100" "2" 100 2))
        none;
  asks = λ n price. ite (ℕ_discrete 2 price) (some (raw_level numbers "2" "1" 2 1)) none;
}

last_counts :
    {P A : Type 0} (o : Dec P) (x y : A)
    → ite o (some y) (ite o (some x) none) ≡ ite o (some y) none
last_counts (yes p) x y = refl
last_counts (no n) x y = refl

update_12-IsFaithful : IsFaithful numbers venue update_12
update_12-IsFaithful = record {
  bids = record {
    read = raw_level numbers "100" "2" 100 2 ∷ [];
    reads = (refl, refl, refl, tt);
    leads = λ price. last_counts (ℕ_discrete 100 price) _ _;
  };
  asks = record { read = []; reads = tt; leads = λ price. refl };
}

live_book-At : At numbers venue (pos 10) live_book
unfolding lookup
live_book-At = ((λ price. refl), (λ price. refl))

live_book-Mirrors : Mirrors venue live_book
live_book-Mirrors = from_id venue (pos 10) live_book live_book-At refl

ingest-Mirrors_example :
    ((r : BookApplyResult) × ((ingest len update update_12 live_book).0 ≡ ok r))
    × Mirrors venue (ingest len update update_12 live_book).1
ingest-Mirrors_example =
    ingest-Mirrors venue len update update_12 live_book update_12-IsFaithful live_book-Mirrors

abbrev two_books : OkxManager numbers
two_books = record {
  books = ("BTC-USDT-SWAP", live_book) ∷ ("ETH-USDT-SWAP", empty_book) ∷ [];
  books5 = [];
}

abbrev update_message : OkxBooksMessage
update_message = record {
  instrument_id = some "BTC-USDT-SWAP";
  action = update;
  entries = update_12 ∷ [];
}

empty_book-Mirrors : Mirrors venue empty_book
empty_book-Mirrors s q = absurd (cc)

ite_cases :
    {P : Type 0} (a b : OkxBook numbers) (o : Option (OkxBook numbers)) (p : Dec P)
    → Mirrors venue a
    → (o ≡ some b → Mirrors venue b)
    → ite p (some a) o ≡ some b
    → Mirrors venue b
ite_cases a b o (yes q) h k e = let same : a ≡ b = cc in rw same at h
ite_cases a b o (no q) h k e = k e

two_books-AllMirror : AllMirror len (λ symbol. venue) two_books
unfolding lookup
two_books-AllMirror = record {
  mirrors = λ k b. ite_cases live_book b _ (text_discrete "BTC-USDT-SWAP" k) live_book-Mirrors (
      ite_cases empty_book b none (text_discrete "ETH-USDT-SWAP" k) empty_book-Mirrors
        (λ e. absurd (cc)));
}

ingest_books-AllMirror_example :
    AllMirror len (λ symbol. venue) (ingest_books len update_message two_books).1
ingest_books-AllMirror_example =
    ingest_books-AllMirror len (λ symbol. venue) update_message two_books (update_12-IsFaithful, tt)
      two_books-AllMirror

abbrev bid_side : RawSide numbers
bid_side = (90, raw_level numbers "90" "3" 90 3) ∷ (100, raw_level numbers "100" "1" 100 1) ∷ []

abbrev ask_side : RawSide numbers
ask_side = (102, raw_level numbers "102" "1" 102 1) ∷ []

two_rows :
    rows 25
      (raw_level numbers "100" "1" 100 1 ∷ raw_level numbers "90" "3" 90 3 ∷ [])
      (raw_level numbers "102" "1" 102 1 ∷ [])
    ≡ "100" ∷ "1" ∷ "102" ∷ "1" ∷ "90" ∷ "3" ∷ []
unfolding rows level_texts
two_rows = refl

checksum_from_sides-rows_example :
    (bid_column : List (RawLevel numbers)) × (ask_column : List (RawLevel numbers)) × Permᴰ
      (values numbers bid_side)
      bid_column
    × Permᴰ (values numbers ask_side) ask_column
    × IsOrdered (λ x y. numbers.le y.price x.price) bid_column
    × IsOrdered (λ x y. numbers.le x.price y.price) ask_column
    × (checksum_from_sides numbers len bid_side ask_side
        ≡ signed_crc32 len (join (rows 25 bid_column ask_column)))
checksum_from_sides-rows_example = checksum_from_sides-rows len bid_side ask_side
