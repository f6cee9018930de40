-- ===== src/Worker.antt =====
-- The handlers of stateless jobs, internal/worker/handler.go, and which of their errors are worth a
-- retry, internal/worker/retryable.go.
pub mod Steps
pub mod Edges
pub mod Canonicalization
use dumpster.Prelude.{ℕ, String, Option, none, some, List}
use dumpster.Prelude.Tests.{if◌then◌else◌}
use dumpster.Queue.Types.{Uuid, JobType}
use dumpster.Pipeline.{Error, is_document_missing, mark}

-- `queue.Job`, as far as a handler reads it.
pub record Job : Type 0 where
  pub job_type : JobType
  pub document_id : Uuid
  pub user_id : Uuid

-- `Handler`
pub record Handler (W : Type 0) : Type 0 where
  pub handle : Job → W → Option Error × W
  pub on_failed : Job → W → W

-- `retryable`
unfoldable pub retryable : (String → Option (List ℕ)) → Error → Error
retryable sql_state e = if is_document_missing e then e else mark sql_state e
