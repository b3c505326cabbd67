-- ===== src/Domain.antt =====
-- internal/domain: the billing rules, without state of their own.
pub mod Traffic
pub mod Money
pub mod Order
pub mod Quota
pub mod Reset
pub mod Period
pub mod Plan
