-- ===== src/Investigation.antt =====
-- The agent that investigates incidents (internal/activity/agent.go,
-- internal/workflow/incident_agent.go).
pub mod Hints
pub mod Turns
pub mod Supervision
pub mod Queue
pub mod Grouping
pub mod Followers
pub mod Terminal
pub mod Outcomes
