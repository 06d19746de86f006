-- ===== src/Task/Guards.antt =====
-- When the commands of packages/task-orchestration/src/services.ts succeed, and what they write.
pub mod Starting
mod Examples
pub mod Ready
pub mod Versions
pub mod Offers
pub mod Ending
pub mod Completing
pub mod Binding
pub mod Waking
pub mod Creating
