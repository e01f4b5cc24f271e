-- ===== src/Tools.antt =====
-- The agent's tools: pkg/agent/tools. A tool's function is a function of its input.
mod Tests
pub mod Todo
pub mod Exec
pub mod Subagent
pub mod Spawn
pub mod General
pub mod Grep
pub mod Files
