-- ===== src/Chunk.antt =====
-- Text chunks: internal/chunk.
pub mod Splitter
