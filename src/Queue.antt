-- ===== src/Queue.antt =====
-- The job queue: internal/queue. The types are in `Queue.Types`, their names are passed on.
pub mod Types
pub mod Stage
pub mod Dispatch
pub mod StepFunctions
unfoldable pub use Types.*
