-- ===== src/Metering.antt =====
-- Package metering (internal/metering).
pub mod Ladder
pub mod Memory
pub mod Reports
