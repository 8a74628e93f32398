-- ===== src/Agent.antt =====
-- The node agent (internal/agent).
pub mod Shell
pub mod TenantUla
pub mod Wanted
pub mod Written
pub mod Runs
pub mod Routes
pub mod Egress
pub mod Applied
pub mod Confined
pub mod Sound
pub mod Services
