-- ===== src/OrderBook.antt =====
-- orderbook/: the local order-book state machines of the two venues.
pub mod Base
pub mod Sides
pub mod Examples
pub mod Views
pub mod Binance
pub mod Okx
