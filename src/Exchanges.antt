-- ===== src/Exchanges.antt =====
-- exchanges/: the deduplicator and the reconnection backoff of live sessions, and the symbol mapping.
pub mod Deduplication
pub mod Symbols
pub mod Backoff
