-- ===== src/Console.antt =====
-- The web console, console/src.
pub mod History
pub mod Projection
pub mod BindGuard
pub mod Tmux
pub mod TerminalAttach
pub mod SessionLifecycle
pub mod Config
pub mod Events
pub mod McpClient
pub mod Json
pub mod HistoryHub
pub mod HttpApp
