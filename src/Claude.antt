-- ===== src/Claude.antt =====
-- src/agent_keepalive/providers/claude.py: the sources of a Claude session, its job file and the
-- output of discovery, and the status that they give.
pub mod Ids
pub mod Status
pub mod Jobs
pub mod Discovery
pub mod Observe
pub mod Provider
pub mod Resolve
