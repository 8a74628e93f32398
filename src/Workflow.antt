-- ===== src/Workflow.antt =====
-- The Temporal workflows (internal/workflow): what they run on, their helpers, and the life cycles
-- of databases, Valkey, S3, e-mail, SSH keys, WireGuard peers, backups and cron jobs.
pub mod Temporal
pub mod Helpers
pub mod Database
pub mod Guards
pub mod Lifecycle
pub mod Valkey
pub mod ValkeyUser
pub mod Migration
pub mod Reach
pub mod Provisioning
pub mod CronJob
pub mod Backup
pub mod SshKey
pub mod WireGuardPeer
pub mod Email
pub mod S3
pub mod Nodes
pub mod FanOut
