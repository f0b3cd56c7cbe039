-- ===== src/Clock.antt =====
-- clock/: the deterministic decision scheduler and the replay clock.
pub mod Scheduler
pub mod Replay
