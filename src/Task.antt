-- ===== src/Task.antt =====
-- The task and orchestration domain: packages/task-orchestration and packages/task-store-sqlite.
pub mod Model
pub mod Transitions
pub mod Errors
pub mod Environment
pub mod Requests
pub mod Store
pub mod Readiness
pub mod Steps
pub mod Commands
pub mod Command
pub mod Queries
pub mod Progress
pub mod Guards
pub mod Samples
mod Examples
