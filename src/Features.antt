-- ===== src/Features.antt =====
-- features/: the bounded event-time windows.
pub mod Book
pub mod Lineage
pub mod Rolling
pub mod Store
pub mod Timeline
