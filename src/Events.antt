-- ===== src/Events.antt =====
-- src/depthfusion/core/event_store.py and the checkpoint queries of src/depthfusion/api/query.py:
-- the paths whose diffs a checkpoint may hold, the checkpoints, and the events of the fabric.
pub mod Paths
pub mod Capture
pub mod Records
pub mod Checkpoints
pub mod History
pub mod Fabric
pub mod Saving
