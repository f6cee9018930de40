-- ===== src/Worker/Steps.antt =====
-- The two steps of a stateless job: internal/worker/lambda/steps.go. The event is decoded before it gets
-- here, and logging is left out.
pub mod Recorded
use dumpster.Prelude.{ℕ, String, Bool, true, false, Option, none, some, List}
use dumpster.Prelude.Tests.{if◌then◌else◌}
use dumpster.Prelude.Map.{Map, lookup}
use dumpster.Queue.Types.{Uuid, JobType, job_type_eq}
use dumpster.JobStatus
use dumpster.JobStatus.{Key}
use dumpster.JobStatus.Contract.{Store}
use dumpster.Pipeline.{
  Error, status, foreign, wrapped, mark, superseded, is_job_missing, for_lambda, StepError,
}
use dumpster.Worker.{Job, Handler}

-- `Input`
pub record Input : Type 0 where
  pub job_type : JobType
  pub document_id : Uuid
  pub user_id : Uuid
  pub attempt : ℕ
  pub error : Option StepError

-- `key`
abbrev pub key_of : Input → Key
key_of i = record { user_id = i.user_id; document_id = i.document_id; job_type = i.job_type }

-- `job`
abbrev pub job_of : Input → Job
job_of i = record { job_type = i.job_type; document_id = i.document_id; user_id = i.user_id }

-- `ev.Step`
pub data Step : Type 0 where
  step_run step_record_failure : Step
  step_other : String → Step

-- `StepHandler`, with what pipeline makes of errors.
pub record StepHandler (W : Type 0) : Type 0 where
  pub handlers : Map JobType (Handler W)
  pub status : Store W
  pub sql_state : String → Option (List ℕ)
  pub reason : Option StepError → String

module _ {W : Type 0} (s : StepHandler W) where
  -- `fmt.Errorf("…: %w", pipeline.Transient(err))`
  abbrev pub retried : JobStatus.Error → Error
  retried e = wrapped (mark s.sql_state (status e))

  abbrev pub after_succeeded : Option JobStatus.Error × W → Option Error × W
  after_succeeded (none, w) = (none, w)
  after_succeeded (some e, w) = if superseded (status e) then (none, w) else (some (retried e), w)

  abbrev pub after_handle : Input → Bool → Option Error × W → Option Error × W
  after_handle i tracked (some e, w) = (some (wrapped e), w)
  after_handle i tracked (none, w) =
      let marked = after_succeeded (s.status.mark_succeeded (key_of i) i.attempt w) in
      if tracked then marked else (none, w)

  abbrev pub after_processing : Handler W → Input → Option JobStatus.Error × W → Option Error × W
  after_processing h i (none, w) = after_handle i true (h.handle (job_of i) w)
  after_processing h i (some e, w) =
      let untracked = after_handle i false (h.handle (job_of i) w) in
      if superseded (status e)
      then (none, w)
      else if is_job_missing (status e)
      then untracked
      else (some (retried e), w)

  -- `run`
  unfoldable pub run : Handler W → Input → W → Option Error × W
  run h i w = after_processing h i (s.status.mark_processing (key_of i) i.attempt w)

  abbrev pub after_failed : Handler W → Input → Option JobStatus.Error × W → Option Error × W
  after_failed h i (none, w) = (none, h.on_failed (job_of i) w)
  after_failed h i (some e, w) =
      if superseded (status e)
      then (none, w)
      else if is_job_missing (status e)
      then (none, h.on_failed (job_of i) w)
      else (some (retried e), w)

  -- `recordFailure`
  unfoldable pub record_failure : Handler W → Input → W → Option Error × W
  record_failure h i w =
      after_failed h i (s.status.mark_failed (key_of i) i.attempt (s.reason i.error) w)

  abbrev for_service : Option Error × W → Option Error × W
  for_service (e, w) = (for_lambda e, w)

  abbrev dispatched : Step → Input → Option (Handler W) → W → Option Error × W
  dispatched step i none w = (some (foreign "no handler registered for job type"), w)
  dispatched step_run i (some h) w = for_service (run h i w)
  dispatched step_record_failure i (some h) w = for_service (record_failure h i w)
  dispatched (step_other name) i (some h) w = (some (foreign "unknown step"), w)

  -- `HandleStep`
  unfoldable pub handle_step : Step → Input → W → Option Error × W
  handle_step step i w = dispatched step i (lookup i.job_type s.handlers) w
