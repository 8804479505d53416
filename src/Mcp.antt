-- ===== src/Mcp.antt =====
-- internal/mcp: the client of an MCP server.
pub mod Client
