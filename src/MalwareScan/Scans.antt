-- ===== src/MalwareScan/Scans.antt =====
-- The upload side of malware scanning: internal/malwarescan/scans.go.
pub mod Begun
use dumpster.Prelude.{ℕ, String, not, Option, none, some}
use dumpster.Prelude.Tests.{if◌then◌else◌}
use dumpster.Queue.Types.{Uuid}
use dumpster.JobStatus
use dumpster.JobStatus.{Record, Enqueued, failed, status_beq}
use dumpster.JobStatus.Contract.{Store, Result, ok, err}
use dumpster.Document.{Document}
use dumpster.MalwareScan.{scan_key_of}

abbrev pub reason_begin_failed : String
reason_begin_failed = "The malware scan couldn't start. Upload the file again."

-- `ErrExecutionAlreadyExists`, or another error of Step Functions.
pub data StartError : Type 0 where
  already_exists : StartError
  other : String → StartError

-- The errors that `Begin` returns, with what they wrap.
pub data BeginError : Type 0 where
  record_pending : JobStatus.Error → BeginError
  start_timeout : StartError → Option JobStatus.Error → BeginError

-- `Scans`. `start_execution` is `StartExecution` of the timeout state machine under the document's
-- execution name, with the document and its user as input.
pub record Scans (W : Type 0) : Type 0 where
  pub status : Store W
  pub start_execution : Uuid → Uuid → W → Option StartError × W

-- What `Rejection` returns: not rejected, rejected for a reason, or an error.
pub data Rejection : Type 0 where
  not_rejected : Rejection
  rejected : String → Rejection
  unknown : JobStatus.Error → Rejection

module _ {W : Type 0} (s : Scans W) where
  mark_started : StartError → Option JobStatus.Error × W → Option BeginError × W
  mark_started e (x, w) = (some (start_timeout e x), w)

  after_execution : Document → ℕ → Option StartError × W → Option BeginError × W
  unfolding mark_started
  after_execution doc attempt (none, w) = (none, w)
  after_execution doc attempt (some already_exists, w) = (none, w)
  after_execution doc attempt (some e, w) =
      mark_started e
        (s.status.mark_failed (scan_key_of doc.user_id doc.id) attempt reason_begin_failed w)

  after_pending : Document → Result Enqueued × W → Option BeginError × W
  unfolding after_execution
  after_pending doc (err e, w) = (some (record_pending e), w)
  after_pending doc (ok q, w) =
      after_execution doc q.attempt (s.start_execution doc.id doc.user_id w)

  -- `Scans.Begin`
  unfoldable pub begin : Document → W → Option BeginError × W
  unfolding after_pending
  begin doc w = after_pending doc (s.status.enqueue (scan_key_of doc.user_id doc.id) w)

  rejection_of : Result Record → Rejection
  rejection_of (err JobStatus.not_found) = not_rejected
  rejection_of (err e) = unknown e
  rejection_of (ok rec) =
      if not (status_beq rec.status failed) then not_rejected else rejected rec.last_error

  -- `Scans.Rejection`
  unfoldable pub rejection : Uuid → Uuid → W → Rejection
  unfolding rejection_of
  rejection user document w = rejection_of (s.status.get (scan_key_of user document) w)
