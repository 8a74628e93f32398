-- ===== src/Incident.antt =====
-- The incident service (internal/core/incident.go) and the claim of an incident, over the tables of
-- migrations/core/00041_incidents.sql.
pub mod Tables
pub mod Service
pub mod Closing
pub mod Dedupe
pub mod Growing
pub mod Succeeds
pub mod Claim
