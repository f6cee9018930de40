-- ===== src/Queue/StepFunctions.antt =====
-- The Step Functions target: internal/queue/stepfunctions/stepfunctions.go. AWS is a parameter.
use Prim.Native.String.{◌++◌}
use dumpster.Prelude.{ℕ, String, Option, none, some, str_eq}
use dumpster.Prelude.Tests.{if◌then◌else◌}
use dumpster.Queue.Types.{
  Uuid, JobType, JobRun, document_indexing, entity_extraction, region_classification,
  edge_extraction, canonicalization,
}
use dumpster.Queue.Dispatch.{Target}

-- What `StartExecution` can return: `ErrExecutionAlreadyExists`, wrapped, or another error.
pub data StartError : Type 0 where
  already_exists : StartError
  failed : String → StartError

pub record Client (W : Type 0) : Type 0 where
  pub start_execution : String → String → String → W → Option StartError × W

pub record Config : Type 0 where
  pub document_indexing_arn : String
  pub entity_extraction_arn : String
  pub region_classification_arn : String
  pub edge_extraction_arn : String
  pub canonicalization_arn : String

-- The name of a machine, or the message of the error.
pub data Machine : Type 0 where
  arn : String → Machine
  missing : String → Machine

-- The `switch` of `stateMachineFor`; `default` is `none`.
unfoldable pub configured : Config → JobType → Option String
configured c document_indexing = some c.document_indexing_arn
configured c entity_extraction = some c.entity_extraction_arn
configured c region_classification = some c.region_classification_arn
configured c edge_extraction = some c.edge_extraction_arn
configured c canonicalization = some c.canonicalization_arn
configured c _ = none

-- `stateMachineFor`
unfoldable pub state_machine_for : Config → JobType → Machine
unfolding configured
state_machine_for c t = elim (configured c t) [
  | none ↦ missing "no state machine for job type"
  | some a ↦ if str_eq a "" then missing "state machine ARN is not configured" else arn a
]

-- How Go prints the parts of a name, and the JSON of the input: `fmt`, google/uuid and encoding/json.
pub record Format : Type 0 where
  pub job_type : JobType → String
  pub uuid : Uuid → String
  pub int : ℕ → String
  pub input : JobRun → String

unfoldable pub execution_name : Format → JobRun → String
execution_name f run =
    f.job_type run.job_type ++ ("-" ++ (f.uuid run.document_id ++ ("-" ++ f.int run.attempt)))

abbrev start_result : Option StartError → Option String
start_result none = none
start_result (some already_exists) = none
start_result (some (failed m)) = some m

abbrev started : {W : Type 0} → Option StartError × W → Option String × W
started (r, w) = (start_result r, w)

module _ {W : Type 0} (client : Client W) (c : Config) (f : Format) where
  -- `Dispatch`
  unfoldable pub dispatch : JobRun → W → Option String × W
  unfolding state_machine_for execution_name
  dispatch run w = elim (state_machine_for c run.job_type) [
    | missing m ↦ (some m, w)
    | arn a ↦ started (client.start_execution a (execution_name f run) (f.input run) w)
  ]

  abbrev pub target : Target W
  target = record { dispatch = dispatch }
