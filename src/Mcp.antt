-- ===== src/Mcp.antt =====
-- src/depthfusion/mcp: who may call which tool and how often, and what a session has called.
pub mod ToolAccess
pub mod RateLimit
pub mod SessionActivity
