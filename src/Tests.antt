-- ===== src/Tests.antt =====
-- Runs of the model at concrete inputs, and examples of its theorems.
pub mod World
pub mod Handlers
pub mod Jobs
pub mod Rows
pub mod Pages
pub mod Uploads
pub mod Knowledge
pub mod Entities
pub mod Pipelines
pub mod Workers
pub mod Links
