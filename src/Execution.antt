-- ===== src/Execution.antt =====
-- packages/execution-runtime.
mod Examples
pub mod Approvals
pub mod Runtime
