-- ===== src/Tests.antt =====
-- Sample data, and each property applied to it.
pub mod Samples
mod AccessCases
mod BusCases
mod CacheCases
mod PolicyCases
mod DeviceCases
mod ServiceCases
mod TokenCases
mod GraphCases
mod StorageCases
mod TextCases
mod SyncCases
mod PathCases
mod CheckpointCases
mod FusionCases
mod FabricCases
