-- ===== src/Pipeline.antt =====
-- What the steps of the pipeline share: which failures are worth a retry, and the reason that a failed
-- run stores. internal/pipeline/pipeline.go.
pub mod EmbedTail
pub mod DocIndex
use Prim.Native.String.{◌++◌}
use dumpster.Prelude.{ℕ, String, Bool, true, false, ◌||◌, Option, none, some, List, [], ◌∷◌}
use dumpster.Prelude.Tests.{if◌then◌else◌, nat_beq, ltb}
use dumpster.Prelude.Lists.{length, take}
use dumpster.JobStatus
use dumpster.JobStatus.{attempt_superseded, not_active}
use dumpster.Document

-- An error with its chain: a sentinel of the status store or of the documents, an error of any other
-- code, one count where another was expected, an error that wraps another, and `*TransientError`.
pub data Error : Type 0 where
  status : JobStatus.Error → Error
  document : Document.Error → Error
  foreign : String → Error
  mismatch : ℕ → ℕ → Error
  wrapped transient : Error → Error

-- `IsTransient`
unfoldable pub is_transient : Error → Bool
is_transient (transient e) = true
is_transient (wrapped e) = is_transient e
is_transient e = false

-- `errors.Is(err, jobstatus.ErrAttemptSuperseded) || errors.Is(err, jobstatus.ErrNotActive)`
abbrev status_superseded : JobStatus.Error → Bool
status_superseded (attempt_superseded given current) = true
status_superseded (not_active from to) = true
status_superseded e = false

-- `Superseded` on an error that is not nil
unfoldable pub superseded : Error → Bool
superseded (status e) = status_superseded e
superseded (wrapped e) = superseded e
superseded (transient e) = superseded e
superseded e = false

-- `errors.Is(err, jobstatus.ErrNotFound)`
unfoldable pub is_job_missing : Error → Bool
is_job_missing (status JobStatus.not_found) = true
is_job_missing (wrapped e) = is_job_missing e
is_job_missing (transient e) = is_job_missing e
is_job_missing e = false

-- `errors.Is(err, document.ErrNotFound)`
unfoldable pub is_document_missing : Error → Bool
is_document_missing (document Document.not_found) = true
is_document_missing (wrapped e) = is_document_missing e
is_document_missing (transient e) = is_document_missing e
is_document_missing e = false

-- `ForLambda`
unfoldable pub for_lambda : Option Error → Option Error
for_lambda none = none
for_lambda (some e) = if is_transient e then some (transient e) else some e

abbrev same_class : List ℕ → ℕ → ℕ → Bool
same_class (a ∷ b ∷ rest) x y = if nat_beq a x then nat_beq b y else false
same_class code x y = false

-- the `switch` on `code[:2]`: "22", "23" and "42", by their bytes; a shorter code has no class
unfoldable pub deterministic_class : List ℕ → Bool
deterministic_class code = same_class code 50 50 || (same_class code 50 51 || same_class code 52 50)

-- `sql_state` gives the bytes of the SQLSTATE code that an error of a driver carries.
module _ (sql_state : String → Option (List ℕ)) where
  abbrev foreign_class : String → Bool
  foreign_class m = elim (sql_state m) [ none ↦ false | some code ↦ deterministic_class code ]

  -- `deterministicDBError`
  unfoldable pub deterministic_db_error : Error → Bool
  deterministic_db_error (status (JobStatus.other m)) = foreign_class m
  deterministic_db_error (document (Document.other m)) = foreign_class m
  deterministic_db_error (foreign m) = foreign_class m
  deterministic_db_error (wrapped e) = deterministic_db_error e
  deterministic_db_error (transient e) = deterministic_db_error e
  deterministic_db_error e = false

  -- `Transient` on an error that is not nil
  unfoldable pub mark : Error → Error
  mark e = if deterministic_db_error e then e else transient e

  -- `TransientUnless` with one deterministic error
  unfoldable pub mark_unless : (Error → Bool) → Error → Error
  mark_unless is_deterministic e = if is_deterministic e then e else mark e

abbrev pub max_reason_len : ℕ
max_reason_len = 2000

pub record StepError : Type 0 where
  pub error : String
  pub cause : String

-- `Reason`, which cuts at a byte: `bytes` and `text` turn a string into its bytes and back.
unfoldable pub reason : (String → List ℕ) → (List ℕ → String) → Option StepError → String
reason bytes text none = "unknown failure"
reason bytes text (some e) =
    let r = e.error ++ (": " ++ e.cause) in
    if ltb max_reason_len (length (bytes r)) then text (take max_reason_len (bytes r)) else r
