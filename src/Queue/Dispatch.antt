-- ===== src/Queue/Dispatch.antt =====
-- The event-driven publisher: internal/queue/dispatch/dispatch.go. It works on any status store and any
-- target, over one state `W` that holds both.
pub mod Outcome
pub mod Runs
use dumpster.Prelude.{ℕ, String, Bool, true, false, not, Option, none, some}
use dumpster.Prelude.Tests.{if◌then◌else◌}
use dumpster.Queue.Types.{
  Uuid, JobType, JobRun, document_indexing, entity_extraction, region_classification,
  edge_extraction, canonicalization,
}
use dumpster.JobStatus
use dumpster.JobStatus.{Key, Enqueued}
use dumpster.JobStatus.Contract.{Store, Result, ok, err}

-- `Target`; an error is its message.
pub record Target (W : Type 0) : Type 0 where
  pub dispatch : JobRun → W → Option String × W

-- What `publish` returns: the three errors it builds, with the errors they wrap.
pub data Error : Type 0 where
  record_failed : JobStatus.Error → Error
  dispatch_failed : String → Error
  dispatch_and_mark_failed : String → JobStatus.Error → Error

-- `Publisher`. `message` is `fmt.Errorf`'s text for a failed dispatch.
pub record Publisher (W : Type 0) : Type 0 where
  pub status : Store W
  pub target : Target W
  pub message : JobRun → String → String

abbrev pub run_of : JobType → Uuid → Uuid → ℕ → JobRun
run_of t document user attempt = record {
  job_type = t;
  document_id = document;
  user_id = user;
  attempt = attempt;
}

abbrev pub job_key : JobType → Uuid → Uuid → Key
job_key t document user = record { user_id = user; document_id = document; job_type = t }

module _ {W : Type 0} (p : Publisher W) where
  -- What follows a failed dispatch.
  after_mark : String → Option JobStatus.Error × W → Option Error × W
  after_mark e (none, w) = (some (dispatch_failed e), w)
  after_mark e (some x, w) = (some (dispatch_and_mark_failed e x), w)

  after_dispatch : JobRun → Key → Option String × W → Option Error × W
  after_dispatch run key (none, w) = (none, w)
  after_dispatch run key (some e, w) =
      after_mark e (p.status.mark_failed key run.attempt (p.message run e) w)

  after_enqueue : JobType → Uuid → Uuid → Result Enqueued × W → Option Error × W
  after_enqueue t document user (err e, w) = (some (record_failed e), w)
  after_enqueue t document user (ok res, w) =
      if not res.started
      then (none, w)
      else after_dispatch (run_of t document user res.attempt) (job_key t document user)
          (p.target.dispatch (run_of t document user res.attempt) w)

  -- `Publisher.publish`
  unfoldable pub publish : JobType → Uuid → Uuid → W → Option Error × W
  unfolding after_enqueue after_dispatch after_mark
  publish t document user w =
      after_enqueue t document user (p.status.enqueue (job_key t document user) w)

  -- The events carry a document and its user.
  unfoldable pub publish_document_uploaded : Uuid → Uuid → W → Option Error × W
  unfolding publish
  publish_document_uploaded = publish document_indexing

  unfoldable pub publish_entity_extraction : Uuid → Uuid → W → Option Error × W
  unfolding publish
  publish_entity_extraction = publish entity_extraction

  unfoldable pub publish_region_classification : Uuid → Uuid → W → Option Error × W
  unfolding publish
  publish_region_classification = publish region_classification

  unfoldable pub publish_edge_extraction : Uuid → Uuid → W → Option Error × W
  unfolding publish
  publish_edge_extraction = publish edge_extraction

  unfoldable pub publish_canonicalization : Uuid → Uuid → W → Option Error × W
  unfolding publish
  publish_canonicalization = publish canonicalization
