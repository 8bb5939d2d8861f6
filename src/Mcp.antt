-- ===== src/Mcp.antt =====
-- The MCP server (mcp/src): its limits, its configuration and its HTTP boundary.
pub mod OutputSafety
pub mod Limits
pub mod Config
pub mod HttpServer
