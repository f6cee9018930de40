-- ===== src/Server.antt =====
-- The HTTP handlers: internal/server.
pub mod Pagination
pub mod Documents
pub mod Detail
pub mod Progress
pub mod Upload
pub mod KnowledgeBases
