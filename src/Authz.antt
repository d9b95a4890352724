-- ===== src/Authz.antt =====
-- src/depthfusion/authz and src/depthfusion/mcp/authz.py: who may do what with which record.
pub mod Classification
pub mod Roles
pub mod Principals
pub mod Snapshot
pub mod DecisionCache
pub mod Engine
pub mod Export
pub mod Labels
