-- ===== src/Pipeline/EmbedTail.antt =====
-- The end of every ingestion: staging the texts for the embedding job, storing the embeddings, and
-- recording success or failure. internal/pipeline/embedtail/embedtail.go, over collaborators with one
-- state `W`.
pub mod Backfilled
pub mod Finalized
pub mod Failed
use Prim.Native.String.{◌++◌}
use dumpster.Prelude.{
  ℕ, String, Bool, true, false, not, ◌&&◌, Option, none, some, List, [], ◌∷◌, ◌++◌ as append,
}
use dumpster.Prelude.Tests.{if◌then◌else◌, nat_beq}
use dumpster.Prelude.Eq.{◌==◌, string_eq}
use dumpster.Prelude.Lists.{length}
use dumpster.Queue.Types.{Uuid, JobType}
use dumpster.JobStatus
use dumpster.JobStatus.{Key}
use dumpster.JobStatus.Contract.{Store}
use dumpster.Document
use dumpster.Document.{Document, status_beq, indexed, failed, ok, err}
use dumpster.Pipeline.{
  Error, status, document, mismatch, wrapped, mark, mark_unless, superseded, is_job_missing,
  is_document_missing, StepError,
}

-- A value or an error.
pub data Outcome {ℓ} (A : Type ℓ) : Type ℓ where
  done : A → Outcome A
  failing : Error → Outcome A

-- An embedding is the list of the bit patterns of its floats.
abbrev pub Embedding : Type 0
Embedding = List ℕ

-- The collaborators. `marshal` and `unmarshal` are the JSON of the job's request and response, and
-- `sql_state`, `reason` and `name` what pipeline and fmt make of errors and of a document with an attempt.
pub record Deps (W : Type 0) : Type 0 where
  pub docs : Document.Repository W
  pub status : Store W
  pub list_chunks : Uuid → Uuid → W → Outcome (List Uuid)
  pub update_embedding : Uuid → Uuid → Embedding → W → Option Error × W
  pub put : String → String → W → Option Error × W
  pub read : String → W → Outcome String
  pub remove : String → W → Option Error × W
  pub presigned_url : String → ℕ → W → Outcome String
  pub presigned_put_url : String → ℕ → W → Outcome String
  pub record_indexed : Option (ℕ → W → Option Error × W)
  pub marshal : List String → Outcome String
  pub unmarshal : String → Outcome (List Embedding)
  pub sql_state : String → Option (List ℕ)
  pub reason : Option StepError → String
  pub name : Uuid → ℕ → String
  pub presign_ttl : ℕ

pub record Run : Type 0 where
  pub job_type : JobType
  pub document_id : Uuid
  pub user_id : Uuid
  pub attempt : ℕ

-- `Key`
abbrev pub key_of : Run → Key
key_of run = record {
  user_id = run.user_id;
  document_id = run.document_id;
  job_type = run.job_type;
}

pub record Staged : Type 0 where
  pub chunk_count : ℕ
  pub job_name : String
  pub texts_url : String
  pub result_url : String
  pub input_key : String
  pub result_key : String

-- `if err != nil { return err }`, and else what follows
abbrev pub and_then {ℓ} :
    {W : Type ℓ} → Option Error × W → (W → Option Error × W) → Option Error × W
and_then (some e, w) next = (some e, w)
and_then (none, w) next = next w

module _ {W : Type 0} (d : Deps W) where
  -- `fmt.Errorf("…: %w", pipeline.Transient(err))`
  abbrev pub retried : Error → Error
  retried e = wrapped (mark d.sql_state e)

  abbrev retried? : Option Error × W → Option Error × W
  retried? (none, w) = (none, w)
  retried? (some e, w) = (some (retried e), w)

  abbrev with_urls : Staged → Outcome String → Outcome String → Outcome Staged
  with_urls s (failing e) r = failing (retried e)
  with_urls s (done t) (failing e) = failing (retried e)
  with_urls s (done t) (done u) = done (record s { texts_url = t; result_url = u })

  abbrev uploaded : Staged → Option Error × W → Outcome Staged × W
  uploaded s (some e, w) = (failing (retried e), w)
  uploaded s (none, w) = (
    with_urls s (d.presigned_url s.input_key d.presign_ttl w)
        (d.presigned_put_url s.result_key d.presign_ttl w),
    w,
  )

  -- The objects of one attempt.
  unfoldable pub staged_for : Run → List String → Staged
  staged_for run texts =
      let prefix = "batch-jobs/embeddings/" ++ d.name run.document_id run.attempt in
      record {
        chunk_count = length texts;
        job_name = "embedding-" ++ d.name run.document_id run.attempt;
        texts_url = "";
        result_url = "";
        input_key = prefix ++ "/input.json";
        result_key = prefix ++ "/result.json";
      }

  abbrev marshalled : Run → List String → Outcome String → W → Outcome Staged × W
  marshalled run texts (failing e) w = (failing (wrapped e), w)
  marshalled run texts (done body) w =
      let s = staged_for run texts in uploaded s (d.put s.input_key body w)

  -- `Stage`
  unfoldable pub stage : Run → List String → W → Outcome Staged × W
  stage run texts w = marshalled run texts (d.marshal texts) w

  -- the loop over the persisted chunks, whose `resp.Embeddings[i]` is there as the lengths agree
  unfoldable pub update_all : Uuid → List Uuid → List Embedding → W → Option Error × W
  update_all user (c ∷ cs) (v ∷ vs) w =
      and_then (retried? (d.update_embedding user c v w)) (λ w. update_all user cs vs w)
  update_all user cs vs w = (none, w)

  abbrev persisted : Run → List Embedding → Outcome (List Uuid) → W → Option Error × W
  persisted run vs (failing e) w = (some (retried e), w)
  persisted run vs (done cs) w =
      if not (nat_beq (length cs) (length vs))
      then (some (mismatch (length cs) (length vs)), w)
      else update_all run.user_id cs vs w

  abbrev decoded : Run → Staged → Outcome (List Embedding) → W → Option Error × W
  decoded run s (failing e) w = (some (wrapped e), w)
  decoded run s (done vs) w =
      if not (nat_beq (length vs) s.chunk_count)
      then (some (mismatch (length vs) s.chunk_count), w)
      else persisted run vs (d.list_chunks run.user_id run.document_id w) w

  abbrev received : Run → Staged → Outcome String → W → Option Error × W
  received run s (failing e) w = (some (retried e), w)
  received run s (done body) w = decoded run s (d.unmarshal body) w

  -- `backfill`
  unfoldable pub backfill : Run → Staged → W → Option Error × W
  backfill run s w = received run s (d.read s.result_key w) w

  -- a failure to record the stats is only logged
  abbrev counted : Option (ℕ → W → Option Error × W) → ℕ → W → Option Error × W
  counted none size w = (none, w)
  counted (some record_indexed) size w = (none, (record_indexed size w).1)

  abbrev marked : Document → Option Document.Error × W → Option Error × W
  marked doc (some e, w) = (some (retried (document e)), w)
  marked doc (none, w) = counted d.record_indexed doc.size_bytes w

  abbrev loaded : Run → Document.Result Document → W → Option Error × W
  loaded run (err e) w =
      (some (wrapped (mark_unless d.sql_state is_document_missing (document e))), w)
  loaded run (ok doc) w =
      if status_beq doc.status indexed
      then (none, w)
      else marked doc (d.docs.update_status run.user_id run.document_id indexed w)

  -- `markIndexed`
  unfoldable pub mark_indexed : Run → W → Option Error × W
  mark_indexed run w = loaded run (d.docs.get run.user_id run.document_id w) w

  -- the loop of `Delete`, which ignores errors
  unfoldable pub delete_keys : List String → W → W
  delete_keys [] w = w
  delete_keys (key ∷ keys) w = delete_keys keys (if key == "" then w else (d.remove key w).1)

  abbrev keys_of : Option Staged → List String → List String
  keys_of none extra = extra
  keys_of (some s) extra = s.input_key ∷ s.result_key ∷ extra

  -- `Delete`
  unfoldable pub delete : Option Staged → List String → W → W
  delete staged extra w = delete_keys (keys_of staged extra) w

  -- `err != nil && !pipeline.Superseded(err)` after `MarkSucceeded`
  abbrev succeeded : Option Staged → List String → Option JobStatus.Error × W → Option Error × W
  succeeded staged extra (none, w) = (none, delete staged extra w)
  succeeded staged extra (some e, w) =
      if superseded (status e)
      then (none, delete staged extra w)
      else (some (wrapped (mark_unless d.sql_state is_job_missing (status e))), w)

  abbrev backfilled : Run → Option Staged → W → Option Error × W
  backfilled run none w = (none, w)
  backfilled run (some s) w = backfill run s w

  -- `Finalize`
  unfoldable pub finalize : Run → Option Staged → Bool → List String → W → Option Error × W
  finalize run staged already_indexed extra w = and_then (backfilled run staged w) (λ w.
      and_then (if already_indexed then (none, w) else mark_indexed run w)
        (λ w. succeeded staged extra (d.status.mark_succeeded (key_of run) run.attempt w)))

  abbrev document_failed :
      Option Staged → List String → Option Document.Error × W → Option Error × W
  document_failed staged extra (none, w) = (none, delete staged extra w)
  document_failed staged extra (some e, w) =
      if is_document_missing (document e)
      then (none, delete staged extra w)
      else (some (retried (document e)), w)

  abbrev fail_document : Run → Option Staged → List String → W → Option Error × W
  fail_document run staged extra w =
      document_failed staged extra (d.docs.update_status run.user_id run.document_id failed w)

  abbrev attempt_failed :
      Run → Option Staged → List String → Option JobStatus.Error × W → Option Error × W
  attempt_failed run staged extra (none, w) = fail_document run staged extra w
  attempt_failed run staged extra (some e, w) =
      if superseded (status e)
      then (none, w)
      else if not (is_job_missing (status e))
      then (some (retried (status e)), w)
      else fail_document run staged extra w

  -- `RecordFailure`
  unfoldable pub record_failure :
      Run → Option StepError → Option Staged → List String → W → Option Error × W
  record_failure run step_error staged extra w =
      attempt_failed run staged extra
        (d.status.mark_failed (key_of run) run.attempt (d.reason step_error) w)
