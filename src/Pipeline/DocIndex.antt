-- ===== src/Pipeline/DocIndex.antt =====
-- The steps of document indexing: internal/pipeline/docindex/docindex.go, over collaborators with one
-- state `W`. Logging is left out, and an event is decoded before it gets here.
pub mod Machine
use dumpster.Prelude.{ℕ, String, Bool, true, false, Option, none, some, List, [], ◌∷◌, map}
use dumpster.Prelude.Tests.{if◌then◌else◌}
use dumpster.Queue.Types.{Uuid, Publisher, document_indexing}
use dumpster.JobStatus
use dumpster.Chunk.Splitter.{Chunk}
use dumpster.Document
use dumpster.Document.{Document, status_beq, indexed, processing, ok, err}
use dumpster.Pipeline.{
  Error, status, document, foreign, wrapped, mark, mark_unless, superseded, is_job_missing,
  is_document_missing, for_lambda, StepError,
}
use dumpster.Pipeline.EmbedTail
use dumpster.Pipeline.EmbedTail.{Run, Staged, Outcome, done, failing, key_of, retried}

-- A chunk as it is stored: what the splitter gave, and whose it is.
pub record Row : Type 0 where
  pub document_id : Uuid
  pub kb_id : Uuid
  pub user_id : Uuid
  pub chunk : Chunk

-- `tail` holds the collaborators that the tail has too; `text` turns a chunk's bytes into a string.
pub record Deps (W : Type 0) : Type 0 where
  pub tail : EmbedTail.Deps W
  pub read_upload : String → W → Outcome String
  pub split : String → List Chunk
  pub text : List ℕ → String
  pub delete_chunks : Uuid → Uuid → W → Option Error × W
  pub bulk_create : List Row → W → Option Error × W
  pub publisher : Publisher String W

pub record Prepared : Type 0 where
  pub stale : Bool
  pub already_indexed : Bool
  pub embed : Bool
  pub chunk_count : ℕ
  pub job_name : String
  pub texts_url : String
  pub result_url : String
  pub input_key : String
  pub result_key : String

-- `Prepared{}`
abbrev pub no_prepared : Prepared
no_prepared = record {
  stale = false;
  already_indexed = false;
  embed = false;
  chunk_count = 0;
  job_name = "";
  texts_url = "";
  result_url = "";
  input_key = "";
  result_key = "";
}

-- `Input`, whose job type no step reads.
pub record Input : Type 0 where
  pub document_id : Uuid
  pub user_id : Uuid
  pub attempt : ℕ
  pub prepare : Option Prepared
  pub error : Option StepError

-- `run`
abbrev pub run_of : Input → Run
run_of i = record {
  job_type = document_indexing;
  document_id = i.document_id;
  user_id = i.user_id;
  attempt = i.attempt;
}

abbrev pub staged_of : Prepared → Staged
staged_of p = record {
  chunk_count = p.chunk_count;
  job_name = p.job_name;
  texts_url = p.texts_url;
  result_url = p.result_url;
  input_key = p.input_key;
  result_key = p.result_key;
}

-- `staged`
unfoldable pub staged : Option Prepared → Option Staged
staged none = none
staged (some p) = if p.embed then some (staged_of p) else none

abbrev rows_of : Document → List Chunk → List Row
rows_of doc =
    map (λ c. record { document_id = doc.id; kb_id = doc.kb_id; user_id = doc.user_id; chunk = c })

module _ {W : Type 0} (d : Deps W) where
  -- an error is only logged
  abbrev publish_entity_extraction : Document → W → W
  publish_entity_extraction doc w = (d.publisher.publish_entity_extraction doc.id doc.user_id w).1

  abbrev pub with_staged : Outcome Staged × W → Outcome Prepared × W
  with_staged (failing e, w) = (failing (wrapped e), w)
  with_staged (done s, w) = (
    done (record no_prepared {
      embed = true;
      chunk_count = s.chunk_count;
      job_name = s.job_name;
      texts_url = s.texts_url;
      result_url = s.result_url;
      input_key = s.input_key;
      result_key = s.result_key;
    }),
    w,
  )

  abbrev pub after_create : Run → Document → List Chunk → Option Error × W → Outcome Prepared × W
  after_create run doc cs (some e, w) = (failing (retried d.tail e), w)
  after_create run doc cs (none, w) =
      with_staged
        (EmbedTail.stage d.tail run (map (λ c. d.text c.text) cs) (publish_entity_extraction doc w))

  abbrev pub after_clear : Run → Document → List Chunk → Option Error × W → Outcome Prepared × W
  after_clear run doc cs (some e, w) = (failing (retried d.tail e), w)
  after_clear run doc cs (none, w) = after_create run doc cs (d.bulk_create (rows_of doc cs) w)

  abbrev pub after_split : Run → Document → List Chunk → W → Outcome Prepared × W
  after_split run doc [] w = (done no_prepared, publish_entity_extraction doc w)
  after_split run doc (c ∷ cs) w =
      after_clear run doc (c ∷ cs) (d.delete_chunks run.user_id run.document_id w)

  abbrev pub after_read : Run → Document → Outcome String → W → Outcome Prepared × W
  after_read run doc (failing e) w = (failing (wrapped (retried d.tail e)), w)
  after_read run doc (done body) w = after_split run doc (d.split body) w

  abbrev pub after_update : Run → Document → Option Document.Error × W → Outcome Prepared × W
  after_update run doc (some e, w) = (failing (retried d.tail (document e)), w)
  after_update run doc (none, w) = after_read run doc (d.read_upload doc.s3_key w) w

  abbrev pub with_document : Run → Document.Result Document → W → Outcome Prepared × W
  with_document run (err e) w =
      (failing (wrapped (mark_unless d.tail.sql_state is_document_missing (document e))), w)
  with_document run (ok doc) w =
      if status_beq doc.status indexed
      then (done (record no_prepared { already_indexed = true }), w)
      else after_update run doc (d.tail.docs.update_status run.user_id run.document_id processing w)

  abbrev pub after_mark : Run → Option JobStatus.Error × W → Outcome Prepared × W
  after_mark run (some e, w) =
      if superseded (status e)
      then (done (record no_prepared { stale = true }), w)
      else (failing (wrapped (mark_unless d.tail.sql_state is_job_missing (status e))), w)
  after_mark run (none, w) = with_document run (d.tail.docs.get run.user_id run.document_id w) w

  -- `Prepare`
  unfoldable pub prepare : Input → W → Outcome Prepared × W
  prepare i w =
      after_mark (run_of i) (d.tail.status.mark_processing (key_of (run_of i)) i.attempt w)

  abbrev pub wrapped? : Option Error × W → Option Error × W
  wrapped? (none, w) = (none, w)
  wrapped? (some e, w) = (some (wrapped e), w)

  abbrev pub finalize_prepared : Input → Option Prepared → W → Option Error × W
  finalize_prepared i none w = (some (foreign "docindex: finalize: missing prepare result"), w)
  finalize_prepared i (some p) w =
      if p.stale
      then (none, w)
      else wrapped? (EmbedTail.finalize d.tail (run_of i) (staged (some p)) p.already_indexed [] w)

  -- `Finalize`
  unfoldable pub finalize : Input → W → Option Error × W
  finalize i w = finalize_prepared i i.prepare w

  -- `RecordFailure`
  unfoldable pub record_failure : Input → W → Option Error × W
  record_failure i w =
      wrapped? (EmbedTail.record_failure d.tail (run_of i) i.error (staged i.prepare) [] w)
