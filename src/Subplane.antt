-- ===== src/Subplane.antt =====
-- Package subplane (internal/subplane): what a client can parse and which nodes it is offered.
pub mod Client
pub mod Detect
pub mod Capability
pub mod Ir
