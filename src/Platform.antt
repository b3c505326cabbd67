-- ===== src/Platform.antt =====
-- internal/platform: the credentials that no response shows, and how a response is written.
pub mod Secret
pub mod Httpx
