-- ===== src/Offline.antt =====
-- src/depthfusion/cache: what a device may keep and use while it is offline, and for how long.
pub mod Lease
pub mod Purge
pub mod Admission
pub mod Manager
pub mod Prefetch
pub mod Signals
