-- ===== src/Events.antt =====
-- Package events (internal/events).
pub mod Bus
