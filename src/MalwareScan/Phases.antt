-- ===== src/MalwareScan/Phases.antt =====
-- When a malware scan's record admits a clean result or a rejection (internal/malwarescan).
use dumpster.Prelude.{ℕ, String, ◌≡◌, ◌≢◌, ◌⊎◌, inr, Bool, false, Option, none, some, List, arith}
use dumpster.Queue.Types.{Uuid, JobRun}
use dumpster.MalwareScan.{Deps, scan_key, scan_attempt}
use dumpster.Document.{Document}
use dumpster.JobStatus
use dumpster.JobStatus.{
  Key, Record, Error, active, succeeded, failed, transition, not_found, not_active,
  attempt_superseded, invalid_transition,
}
use dumpster.Document
use dumpster.Ingest

-- The scan can no longer be reported clean, and can no longer be rejected.
abbrev pub Barred : Option Record → Type 0
Barred none = Unit
Barred (some r) = (r.attempt ≢ scan_attempt) ⊎ ((active r.status ≡ false) × (r.status ≢ succeeded))

abbrev pub Kept : Option Record → Type 0
Kept none = ⊥
Kept (some r) = (r.attempt ≢ scan_attempt) ⊎ ((active r.status ≡ false) × (r.status ≢ failed))

pub Barred-refuses :
    (r : Record) → Barred (some r) → (transition r scan_attempt succeeded "" "").failure ≢ none
unfolding transition
Barred-refuses r b = ground (arith, JobStatus.status_beq_iff r.status succeeded)

pub Kept-refuses :
    (r : Record) (reason : String)
    → Kept (some r)
    → ((transition r scan_attempt failed "" reason).failure
        ≡ some (attempt_superseded scan_attempt r.attempt))
      ⊎ ((transition r scan_attempt failed "" reason).failure ≡ some (not_active r.status failed))
unfolding transition
Kept-refuses r reason k = ground (arith, JobStatus.status_beq_iff r.status failed)

pub succeeded-Kept :
    (r : Record)
    → (transition r scan_attempt succeeded "" "").failure ≡ none
    → Kept (some (transition r scan_attempt succeeded "" "").next)
unfolding transition
succeeded-Kept r h = inr (ground (arith, JobStatus.status_beq_iff r.status succeeded))

pub failed-Barred :
    (r : Record) (reason : String)
    → (transition r scan_attempt failed "" reason).failure ≡ none
    → Barred (some (transition r scan_attempt failed "" reason).next)
unfolding transition
failed-Barred r reason h = inr (ground (arith, JobStatus.status_beq_iff r.status failed))

pub transition-ne-not_found :
    (r : Record) (n : ℕ) (to : JobStatus.Status) (phase reason : String)
    → (transition r n to phase reason).failure ≢ some not_found
unfolding transition
transition-ne-not_found r n to phase reason = ground arith

-- The collaborators are separate: `runs` is the processing started and `files` the stored files. Only
-- the publisher starts processing, only `Delete` removes files, and neither writes a scan's record.
pub record IsSeparate {E W : Type 0} (d : Deps E W) (view : W → Key → Option Record) : Type 0 where
  pub runs : W → List JobRun
  pub files : W → String → Bool
  pub mark_succeeded_frame :
      (k : Key) (n : ℕ) (w : W)
      → (runs (d.status.mark_succeeded k n w).1 ≡ runs w)
        × (files (d.status.mark_succeeded k n w).1 ≡ files w)
  pub mark_failed_frame :
      (k : Key) (n : ℕ) (m : String) (w : W)
      → (runs (d.status.mark_failed k n m w).1 ≡ runs w)
        × (files (d.status.mark_failed k n m w).1 ≡ files w)
  pub delete_frame :
      (s3_key : String) (w : W) (doc : Document)
      → (runs (d.objects_delete s3_key w).1 ≡ runs w)
        × (view (d.objects_delete s3_key w).1 (scan_key doc) ≡ view w (scan_key doc))
  pub update_frame :
      (user id : Uuid) (s : Document.Status) (w : W) (doc : Document)
      → (runs (d.docs.update_status user id s w).1 ≡ runs w)
        × (files (d.docs.update_status user id s w).1 ≡ files w)
        × (view (d.docs.update_status user id s w).1 (scan_key doc) ≡ view w (scan_key doc))
  pub start_frame :
      (doc : Document) (w : W)
      → (files (Ingest.start d.publisher doc w).1 ≡ files w)
        × (view (Ingest.start d.publisher doc w).1 (scan_key doc) ≡ view w (scan_key doc))
