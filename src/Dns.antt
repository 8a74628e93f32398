-- ===== src/Dns.antt =====
-- The validation of DNS records in API requests (internal/api/request/dns_validation.go).
pub mod Hostname
pub mod Labels
pub mod Content
pub mod Record
pub mod Priority
pub mod Accepts
