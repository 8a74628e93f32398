-- ===== src/Stalwart.antt =====
-- The client of the mail server Stalwart: account ids and filter scripts (internal/stalwart).
pub mod PrincipalId
pub mod Sieve
pub mod Reader
pub mod Scripts
