-- ===== src/Ingest.antt =====
-- src/depthfusion/ingest: how a document becomes chunks.
pub mod Chunking
