-- ===== src/Supervisor.antt =====
-- src/agent_keepalive/claude_supervisor.py: one process that discovers the sessions of several
-- config roots and keeps a record of each. Log lines are left out, and a config root is its
-- resolved path. `World` is what one tick is told from outside.
pub mod State
pub mod Records
pub mod Session
pub mod Root
pub mod Tick
pub mod Lifecycle
pub mod Removal
pub mod Shown
pub mod Roots
pub mod Stop
pub mod Grace
pub mod Published
pub mod Frame
