-- ===== src/Host.antt =====
-- packages/platform-host: what drives the Tasks.
mod Examples
pub mod Coordinator
pub mod Observer
