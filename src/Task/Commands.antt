-- ===== src/Task/Commands.antt =====
-- The commands of packages/task-orchestration/src/services.ts (`commands` of `createTaskServices`),
-- each as the transaction that `command` runs.
pub mod Groups
pub mod Create
pub mod Bind
pub mod Lifecycle
pub mod Nodes
pub mod Complete
pub mod Reopen
pub mod Messages
pub mod Documents
