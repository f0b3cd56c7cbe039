-- ===== src/Lib.antt =====
-- Verification of CVF, a collector and feature pipeline for the market data of two venues of
-- perpetual futures (Binance and OKX). The program receives the venues' messages, drops repeated ones,
-- keeps local order books, publishes normalized events to consumers, and computes features over
-- event-time windows at the ticks of a decision clock. This library models the parts that keep state.
--
-- Parts and files; the paths on the left are below src/cvf/.
--   clock/scheduler.py          Clock/Scheduler.antt: `DecisionScheduler`, one function per method. The
--                               loop of `advance_to` runs on fuel, which `advance_to` itself sets; the
--                               children count multiples of the intervals (Multiples), cut intervals
--                               (Boundaries, Splits) and treat `has_due_tick` (Due).
--   clock/replay.py             Clock/Replay.antt: `ReplayClock`.
--   exchanges/deduplication.py  Exchanges/Deduplication.antt: `BoundedTTLDeduplicator`, its `OrderedDict`
--                               as a list of entries, oldest first. The children relate it to the
--                               list of the identities seen (Entries, Keys, Memory, Retention).
--   exchanges/session.py        Exchanges/Backoff.antt: `BackoffPolicy`, in exact numbers.
--   exchanges/symbols.py        Exchanges/Symbols.antt, with `validate_canonical_symbol` of
--                               utils/validation.py.
--   features/rolling.py         Features/Rolling.antt: `BoundedTimeWindow`, its updates, and
--                               Features/Rolling/Queries.antt, its queries; Kept has the invariant,
--                               Statuses the tests of `append`.
--   features/runtime.py         Features/Timeline.antt: `ReceiveTimeFeatureDriver`, its heap as the list in
--                               which it gives its items out, the event bus and the runtime as
--                               `Sinks` over a state of any kind. The outer loop runs on fuel, an event
--                               each. Timeline/Spec.antt is the timeline that it promises; Ordered,
--                               Ticks, Publishing, Flushing, Advancing, Calls and Finishing lead from
--                               the heap over the loops to the methods, Delivered to their sequences.
--   features/lineage.py         Features/Lineage.antt: `SourceLineage` and `combine`; Lineage/Xor.antt
--                               has the laws of exclusive or, Merging and Combining the commitment.
--   features/state.py           Features/Book.antt and Features/Book/Updates.antt:
--                               `FeatureOrderBookState`. Sound, Sync and Events keep its invariant,
--                               Prices reads the test for a crossed book. Features/Store.antt and
--                               Features/Store/Ingest.antt: `ingest` on one `VenueSymbolState`;
--                               Created.antt and Market.antt there: `MarketStateStore`, the reasons of
--                               its answers apart. Held, BookHeld, StateHeld, MarketHeld and Calls have
--                               its invariant, Counts its counters. A state reads the health of its exchange in the store.
--   features/pipeline.py        Features/Store/Pipeline.antt.
--   orderbook/base.py           OrderBook/Base.antt, and OrderBook/Views.antt for what the views share.
--   orderbook/binance.py        OrderBook/Sides.antt (`_snapshot_side`, `_apply_side`),
--                               OrderBook/Binance.antt (state, resets, `_apply_update`),
--                               OrderBook/Binance/Activation.antt (`_try_activate_snapshot`),
--                               OrderBook/Binance/Operations.antt (`__init__`, `_buffer_update`,
--                               `ingest`, `install_snapshot`), and View.antt and Manager.antt there.
--                               Family.antt says what the manager's books should be, Isolated that they
--                               are.
--   orderbook/okx.py            OrderBook/Okx.antt (sides, checksum, `OkxLocalOrderBook`), and
--                               Books5.antt, View.antt and Manager.antt below it; Checksum.antt is on
--                               the text of `_checksum_from_sides`.
--   monitoring/health.py        Monitoring/Health.antt (`_StreamState` and the methods that change it) and
--                               Monitoring/Health/Status.antt (the status in `snapshot`), and
--                               Monitoring/Health/Registry.antt (`StreamKey`, the dictionary of streams)
--                               and Monitoring/Health/Reports.antt (its constructor and events);
--                               Streams.antt there has the methods on the dictionary.
--   normalization/common.py     Decimals.antt: `decimal_from_text`.
--
-- The books take the payload types of normalization/ and give `BookApplyResult`s to the connectors;
-- the scheduler, the deduplicator and the windows are called by the sessions and the feature runtime,
-- of which the timeline driver is modelled. A call of the driver is told whether its caller is cancelled
-- while it runs: the transition then runs to its end, as `await_task_completion` of
-- utils/async_lifecycle.py has it, and the caller gets the `CancelledError`. The theorems on what the
-- sinks see are on calls that are not cancelled; a cancelled one ends in the same state.
--
-- How the code is modelled. A pure method that may raise is a function into `Result` (Outcome.antt). A
-- method that changes its object is an `Exec` (Exec.antt): it takes the object and gives a result and
-- the object after it, also where it raises, so that a change made before an exception is seen. A
-- `dict` is an association list in insertion order (Dict.antt). A timestamp is a count of microseconds
-- since the epoch, or naive, which the code rejects (Time.antt), and is taken to lie well
-- before the last instant of `datetime`, past which Python raises `OverflowError`; an `int` that may be
-- negative is a ℤ of Prelude/Int.antt. Loops over lists are structural recursion.
--
-- Parameters, for code outside the repository: Python's `Decimal` is the record `Decimals`, with an
-- order on finite values and the text constructor; `str.upper`, `str.strip` and the pattern of
-- canonical symbols are the record `Texts`; `zlib.crc32` is a function on texts; `int` of a text,
-- the length of one and the SHA-256 of a source are functions too; `random.uniform` is a function; `float`
-- is the record `Floats`, with no law assumed.
--
-- A venue in the theorems on the books is a function from update ids to the two sides of its book. An
-- update is faithful if its levels, read in order, lead from the venue's side at each id that it covers
-- to the side at its last id; a snapshot is true if its levels are the venue's sides at its id.
--
-- Not modelled: the texts of exceptions and of `reason`; network, files and Parquet; the event bus,
-- replay, and the feature engines; floating-point statistics; configuration and the
-- command line.
pub mod Prelude
pub mod Outcome
pub mod Exec
pub mod Dict
pub mod Decimals
pub mod Time
pub mod Clock
pub mod Exchanges
pub mod Features
pub mod Monitoring
pub mod OrderBook
