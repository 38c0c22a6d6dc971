-- ===== src/Runtime.antt =====
-- The MCP server's own program, src/.
pub mod Errors
pub mod Input
pub mod TmuxBackend
pub mod Tools
pub mod Observation
