-- ===== src/Platform.antt =====
-- packages/platform-cli: the order in which modules are installed.
pub mod Version
mod Examples
pub mod Graph
