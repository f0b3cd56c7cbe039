-- ===== src/Monitoring.antt =====
-- monitoring/: the health of the market-data streams.
pub mod Health
