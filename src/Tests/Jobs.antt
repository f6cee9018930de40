-- ===== src/Tests/Jobs.antt =====
-- Examples of the theorems on the job store and the publisher.
use dumpster.Prelude.{◌≡◌, ◌↔◌, refl, false, none, List, [], ◌∷◌}
use dumpster.Prelude.Lists.{length}
use dumpster.Queue.Types.{document_indexing, entity_extraction}
use dumpster.Queue.Dispatch.{job_key, publish}
use dumpster.Queue.Dispatch.Outcome.{Left, next_run, publish-Left}
use dumpster.Queue.Dispatch.Runs.{Ran, publish-Ran}
use dumpster.JobStatus
use dumpster.JobStatus.{
  Key, Record, pending, processing, succeeded, failed, fresh, transition, active,
}
use dumpster.JobStatus.Lifecycle.{
  Accepts, IsValid, transition-Accepts_iff, transition_twice, transition-IsValid,
  enqueue-IsValid-none,
}
use dumpster.JobStatus.Contract.Attempts.{
  Call, enqueue, mark_failed, starts, starts-count_up, count_up, attempt_of,
}
use dumpster.JobStatus.Memory as Jobs
use dumpster.JobStatus.Memory.Refines.{store, store-IsAtomic}
use dumpster.Tests.World.{publisher, jobs-IsAtomic, publisher-IsLinked, empty}

abbrev key : Key
key = job_key document_indexing 5 7

abbrev other_key : Key
other_key = job_key entity_extraction 5 8

abbrev running : Record
running = fresh key 2

transition-Accepts_iff_example :
    ((transition running 2 failed "" "no space").failure ≡ none) ↔ Accepts running 2 failed
transition-Accepts_iff_example = transition-Accepts_iff running 2 failed "" "no space"

accepted : (transition running 2 succeeded "" "").failure ≡ none
unfolding transition fresh active JobStatus.is_target
accepted = refl

ended : active succeeded ≡ false
unfolding active
ended = refl

transition_twice_example :
    transition (transition running 2 succeeded "" "").next 2 succeeded "" "again"
    ≡ record { next = (transition running 2 succeeded "" "").next; changed = false; failure = none }
transition_twice_example = transition_twice running 2 succeeded "" "" "" "again" ended accepted

transition-IsValid_example :
    IsValid (transition (JobStatus.enqueue none key).0 1 failed "" "no space").next
transition-IsValid_example =
    transition-IsValid (JobStatus.enqueue none key).0 1 failed "" "no space"
      (enqueue-IsValid-none key)

-- A job that fails and is retried, with another tenant's calls in between.
abbrev calls : List Call
calls =
    enqueue key ∷ enqueue other_key ∷ mark_failed key 1 "no space" ∷ enqueue key ∷ enqueue key ∷ []

starts-count_up_example :
    starts store key Jobs.new calls
    ≡ count_up
        (attempt_of (store-IsAtomic.view Jobs.new key))
        (length (starts store key Jobs.new calls))
starts-count_up_example = starts-count_up store store-IsAtomic key Jobs.new calls

publish-Left_example :
    Left publisher jobs-IsAtomic publisher-IsLinked
      (next_run jobs-IsAtomic.view document_indexing 5 7 empty)
      (job_key document_indexing 5 7)
      (publish publisher document_indexing 5 7 empty)
publish-Left_example =
    publish-Left publisher jobs-IsAtomic publisher-IsLinked document_indexing 5 7 empty

publish-Ran_example :
    Ran publisher jobs-IsAtomic publisher-IsLinked document_indexing 5 7 empty
      (publish publisher document_indexing 5 7 empty)
publish-Ran_example =
    publish-Ran publisher jobs-IsAtomic publisher-IsLinked document_indexing 5 7 empty
