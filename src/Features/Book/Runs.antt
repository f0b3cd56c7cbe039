-- ===== src/Features/Book/Runs.antt =====
-- Tests of the book of the features, and its theorems at concrete inputs.

use native.Mathlib.Decide.{ℕ_discrete}
use cvf.Prelude.{◌≡◌, refl, true, some, [], ◌∷◌, pos, max, arith}
use cvf.Outcome.{ok}
use cvf.Dict.{lookup, assign, pop}
use cvf.OrderBook.Sides.{apply_level}
use cvf.OrderBook.Views.{sort_items, insert_sorted}
use cvf.OrderBook.Examples.{numbers}
use cvf.Features.Lineage.{
  SourceLineage, empty, uint256, is_set, bounds_of, init_counted, HexTexts, from_value, from_digest,
  listed, total_of, add_other, add_others, least_from, greatest_from, closed, close_total, combine,
}
use cvf.Features.Lineage as Lineage
use cvf.Features.Book.{
  buffered_for_snapshot, book_invalidated, sequence, BookEvent, a_snapshot, an_update, Book, reset,
  event_time, record_combined, record_source, from_source, record_lineage, apply_side, is_empty,
  highest, lowest, is_crossed, desynchronize, apply_levels, quantity_or_zero, deltas, sum_from,
  positives, negatives, measure_change,
}
use cvf.Features.Book.Examples.{sums, ones, no_text, level, new_book, snapshot7, update8}
use cvf.Features.Book.Updates.{
  or_sequence, pending_key, not_after, is_after, both_known, differs, since, levels_side, buffer,
  apply_in_sequence, before_pending, drain_pending, finish_snapshot, install, accept_snapshot,
  apply_snapshot, finish_update, accept_update, update_synchronized, apply_update,
}
use cvf.Features.Book.Sound.{IsSound, off-IsSound, Fits}
use cvf.Features.Book.Events.{take_event, take_event-IsSound}
use cvf.Features.Book.Generations.{take_event-generation}
use cvf.Features.Book.Prices.{Apart, take_event-Apart}

feature_book_opened : Unit {0}
unfolding lookup assign pop apply_level sort_items insert_sorted uint256 is_set bounds_of
    init_counted from_value from_digest listed total_of add_other add_others least_from
    greatest_from closed close_total combine Lineage.init sequence reset event_time record_combined
    record_source from_source record_lineage apply_side is_empty highest lowest is_crossed
    desynchronize apply_levels quantity_or_zero deltas sum_from positives negatives measure_change
    or_sequence pending_key not_after is_after both_known differs since levels_side buffer
    apply_in_sequence before_pending drain_pending finish_snapshot install accept_snapshot
    apply_snapshot finish_update accept_update update_synchronized apply_update take_event
    ℕ_discrete
feature_book_opened = tt

abbrev take : BookEvent numbers → Book numbers → Book numbers
take event b = (take_event numbers sums ones no_text event b).1

-- The update is buffered, then applied on top of the snapshot.
abbrev buffered_book : Book numbers
buffered_book = take (an_update update8) new_book

buffered_status :
    (take_event numbers sums ones no_text (an_update update8) new_book).0 ≡ ok buffered_for_snapshot
unfolding feature_book_opened
buffered_status = refl

joined : (take (a_snapshot snapshot7) buffered_book).bids ≡ (100, 2) ∷ (101, 1) ∷ []
unfolding feature_book_opened
joined = refl

joined_synchronized : (take (a_snapshot snapshot7) buffered_book).synchronized ≡ true
unfolding feature_book_opened
joined_synchronized = refl

joined_sequence : (take (a_snapshot snapshot7) buffered_book).sequence_id ≡ some (pos 8)
unfolding feature_book_opened
joined_sequence = refl

-- A bid at the ask locks the book.
locked :
    (take_event numbers sums ones no_text
      (an_update (record update8 { bids = level 102 1 ∷ [] }))
      (take (a_snapshot snapshot7) new_book)).0
    ≡ ok book_invalidated
unfolding feature_book_opened
locked = refl

new_book-IsSound : IsSound numbers new_book
new_book-IsSound = off-IsSound numbers new_book refl refl (omega arith) tt (omega arith)

take_event-IsSound_example : IsSound numbers (take (an_update update8) new_book)
take_event-IsSound_example =
    take_event-IsSound numbers sums ones no_text (an_update update8) new_book new_book-IsSound

take_event-Apart_example :
    Fits numbers
      (take (a_snapshot snapshot7) buffered_book).bids
      (take (a_snapshot snapshot7) buffered_book).asks
    × Apart numbers
        (take (a_snapshot snapshot7) buffered_book).bids
        (take (a_snapshot snapshot7) buffered_book).asks
take_event-Apart_example =
    take_event-Apart numbers sums ones no_text (a_snapshot snapshot7) buffered_book
      take_event-IsSound_example joined_synchronized

take_event-generation_example : (take (a_snapshot snapshot7) new_book).generation ≡ max 0 1
take_event-generation_example =
    take_event-generation numbers sums ones no_text (a_snapshot snapshot7) new_book
