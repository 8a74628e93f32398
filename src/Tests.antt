-- ===== src/Tests.antt =====
-- The theorems at concrete inputs.
mod Environment
mod Provisioning
mod Lifecycles
mod Zones
mod Networks
mod Incidents
mod Keys
mod Overrides
mod Mail
mod Turns
mod Queue
mod Claims
mod Untouched
