-- ===== src/Zone.antt =====
-- DNS zones: what the activities on the core database and on PowerDNS's database do to them, and
-- the workflows of a zone's records, run on both databases.
pub mod Stores
pub mod PowerDns
pub mod Auto
pub mod Email
pub mod Retroactive
pub mod Hostnames
pub mod Override
pub mod Records
pub mod Runs
pub mod Served
pub mod Prescribed
pub mod Restored
pub mod Rows
pub mod Find
pub mod Custom
pub mod Deleting
pub mod Overridden
pub mod Dropping
pub mod Refines
pub mod Keeps
pub mod Untouched
pub mod Platform
