-- ===== src/Pipeline/DocIndex/Machine.antt =====
-- An execution of document indexing: the state machine of internal/pipeline/docindex/statemachine.asl.json
-- with the dispatch of its steps in internal/pipeline/docindex/docindex.go. The Batch job is a parameter.
-- Failures of the Lambda service itself are left out.

pub mod Steps
pub mod Invoked
pub mod Indexed
pub mod Ended
use dumpster.Prelude.{ℕ, zero, suc, String, Bool, true, false, Option, none, some, List, [], ◌∷◌}
use dumpster.Prelude.Tests.{if◌then◌else◌}
use dumpster.Pipeline.{Error, for_lambda, transient, StepError}
use dumpster.Pipeline.EmbedTail.{Outcome, done, failing}
use dumpster.Pipeline.DocIndex.{Deps, Prepared, Input, prepare, finalize, record_failure}

-- `ev.Step`
pub data Step : Type 0 where
  step_prepare step_finalize step_record_failure : Step

-- The name that the service gives an error is that of its outermost type.
abbrev pub is_named_transient : Error → Bool
is_named_transient (transient e) = true
is_named_transient e = false

-- What a step's invocation returns: `Prepare` alone has an output.
abbrev pub Answer : Type 0
Answer = Outcome (Option Prepared)

abbrev answer : Option Error → Answer
answer none = done none
answer (some e) = failing e

abbrev pub or_again {ℓ} : {W : Type ℓ} → Answer × W → Answer × W → Answer × W
or_again (done p, w) again = (done p, w)
or_again (failing e, w) again = if is_named_transient e then again else (failing e, w)

-- An execution reaches its end, its Fail state, or fails on its own.
pub data End : Type 0 where
  completed failed aborted : End

module _ {W : Type 0} (d : Deps W) where
  abbrev pub prepared : Outcome Prepared × W → Answer × W
  prepared (done p, w) = (done (some p), w)
  prepared (failing e, w) = (answer (for_lambda (some e)), w)

  abbrev pub stepped : Option Error × W → Answer × W
  stepped (e, w) = (answer (for_lambda e), w)

  -- `Handle`
  unfoldable pub handle : Step → Input → W → Answer × W
  handle step_prepare i w = prepared (prepare d i w)
  handle step_finalize i w = stepped (finalize d i w)
  handle step_record_failure i w = stepped (record_failure d i w)

  -- `Retry`: a transient failure is run again, `n` times at most.
  unfoldable pub retrying : ℕ → Step → Input → W → Answer × W
  retrying zero step i w = handle step i w
  retrying (suc n) step i w = let out = handle step i w in or_again out (retrying n step i out.1)

module _ {W : Type 0} (d : Deps W) (describe : Error → StepError)
    (embed : Prepared → W → Option StepError × W) where
  abbrev pub failed_on : Answer × W → End × W
  failed_on (done p, w) = (failed, w)
  failed_on (failing e, w) = (aborted, w)

  -- `RecordFailure`, with the caught error at `$.error`
  abbrev pub catch : Input → StepError → W → End × W
  catch i e w = failed_on (retrying d 6 step_record_failure (record i { error = some e }) w)

  abbrev pub finalized : Input → Answer × W → End × W
  finalized i (done p, w) = (completed, w)
  finalized i (failing e, w) = catch i (describe e) w

  abbrev pub embedded : Input → Option StepError × W → End × W
  embedded i (some e, w) = catch i e w
  embedded i (none, w) = finalized i (retrying d 3 step_finalize i w)

  -- `NeedsEmbedding`
  abbrev pub after_prepare : Input → Answer × W → End × W
  after_prepare i (failing e, w) = catch i (describe e) w
  after_prepare i (done none, w) = embedded i (none, w)
  after_prepare i (done (some p), w) =
      let j : Input = record i { prepare = some p } in
      if p.embed then embedded j (embed p w) else embedded j (none, w)

  unfoldable pub execute : Input → W → End × W
  execute i w = after_prepare i (retrying d 3 step_prepare i w)
