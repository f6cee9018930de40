-- ===== src/Server/Documents.antt =====
-- The document endpoints that change state: internal/server/dochandler.go. The collaborators are
-- parameters over one state `W`; a `nil` one is `none`. Logging and JSON are left out.
pub mod Guarded
pub mod Retries
pub mod Orphan
use dumpster.Prelude.{ℕ, String, Bool, true, false, not, Option, none, some, List, [], ◌∷◌}
use dumpster.Prelude.Tests.{if◌then◌else◌, nat_beq}
use dumpster.Prelude.Eq.{nat_eq}
use dumpster.Prelude.Map.{Map, lookup}
use dumpster.Queue.Types.{Uuid, JobStatus, Publisher}
use dumpster.JobStatus.Memory.{or_nil}
use dumpster.Document
use dumpster.Document.{Document, status_beq, pending, processing, indexed, failed, ok, err}
use dumpster.Ingest
use dumpster.MalwareScan.Scans.{Rejection, not_rejected, rejected, unknown}

-- `writeError`, `writeJSON` with its body, a bare `WriteHeader`, and a body of plain text.
pub data Response (A : Type 0) : Type 0 where
  error : ℕ → String → Response A
  json : ℕ → A → Response A
  header : ℕ → Response A
  text : String → Response A

-- `r` after `auth.UserIDFromContext` and `uuid.Parse` of the two path values.
pub record Request : Type 0 where
  pub user : Option Uuid
  pub kb_id : Option Uuid
  pub doc_id : Option Uuid

-- `docHandler`, as far as these endpoints use it. `jobs` gives `none` for an error.
pub record Handler (E W : Type 0) : Type 0 where
  pub docs : Document.Repository W
  pub objects_delete : String → W → Option String × W
  pub publisher : Publisher E W
  pub rejection : Uuid → Uuid → W → Rejection
  pub jobs : Option (Uuid → List Uuid → W → Option (Map Uuid (List JobStatus)))
  pub decrement : Option (Uuid → Uuid → W → Option String × W)
  pub record_delete : String → W → W

abbrev nonempty {ℓ} : {A : Type ℓ} → List A → Bool
nonempty [] = false
nonempty (x ∷ xs) = true

module _ {E W : Type 0} (h : Handler E W) where
  -- `writeDocError`
  doc_error : Document.Error → Response Document
  doc_error Document.not_found = error 404 "document not found"
  doc_error (Document.other m) = error 500 "internal error"

  in_kb :
      Uuid
      → (Document → W → Response Document × W)
      → Document.Result Document
      → W
      → Response Document × W
  unfolding doc_error
  in_kb kb next (err e) w = (doc_error e, w)
  in_kb kb next (ok doc) w =
      if not (nat_beq doc.kb_id kb) then (error 404 "document not found", w) else next doc w

  -- How every one of these handlers starts: `requireUserID`, `parseUUID` twice, `docRepo.Get`, and
  -- the check of the knowledge base.
  unfoldable pub with_document :
      Request → (Uuid → Uuid → Document → W → Response Document × W) → W → Response Document × W
  unfolding in_kb
  with_document r next w = elim r.user [
    | none ↦ (error 401 "unauthorized", w)
    | some user ↦ elim r.kb_id [
      | none ↦ (error 400 "invalid id", w)
      | some kb ↦ elim r.doc_id [
        | none ↦ (error 400 "invalid id", w)
        | some id ↦ in_kb kb (next user id) (h.docs.get user id w) w
      ]
    ]
  ]

  listed : Uuid → Option (Map Uuid (List JobStatus)) → Option Bool
  listed document none = none
  listed document (some active) = some (nonempty (or_nil (lookup document active)))

  -- `hasActiveJobForDocument`: `none` is an error.
  unfoldable pub has_active_job : Uuid → Uuid → W → Option Bool
  unfolding listed
  has_active_job user document w = elim h.jobs [
    | none ↦ some false
    | some active ↦ listed document (active user (document ∷ []) w)
  ]

  after_row : Option Document.Error × W → Response Document × W
  after_row (some e, w) =
      (error 500 "failed to delete document record", h.record_delete "failure" w)
  after_row (none, w) = (header 204, h.record_delete "success" w)

  after_object : Uuid → Uuid → Document → Option String × W → Response Document × W
  unfolding after_row
  after_object user id doc (some e, w) =
      (error 500 "failed to remove object", h.record_delete "failure" w)
  after_object user id doc (none, w) = after_row (h.docs.delete user id w)

  after_decrement : Uuid → Uuid → Document → Option String × W → Response Document × W
  unfolding after_object
  after_decrement user id doc (some e, w) =
      (error 500 "failed to update canonical entities", h.record_delete "failure" w)
  after_decrement user id doc (none, w) = after_object user id doc (h.objects_delete doc.s3_key w)

  -- `h.canonical.DecrementForDocument`, if there is a repository of canonical entities.
  pub decremented : Uuid → Uuid → W → Option String × W
  decremented user id w = elim h.decrement [ none ↦ (none, w) | some f ↦ f user id w ]

  delete_idle : Uuid → Uuid → Document → Option Bool → W → Response Document × W
  unfolding after_decrement decremented
  delete_idle user id doc none w =
      (error 500 "failed to check for an active background job", h.record_delete "failure" w)
  delete_idle user id doc (some true) w =
      (error 409 "document has an active background job and cannot be deleted yet", w)
  delete_idle user id doc (some false) w = after_decrement user id doc (decremented user id w)

  pub delete_document : Uuid → Uuid → Document → W → Response Document × W
  unfolding delete_idle
  delete_document user id doc w =
      if status_beq doc.status processing
      then (error 409 "document is being indexed and cannot be deleted yet", w)
      else delete_idle user id doc (has_active_job user id w) w

  -- `docHandler.delete`
  unfoldable pub delete : Request → W → Response Document × W
  unfolding delete_document
  delete r = with_document r delete_document

  reloaded : Document.Result Document → W → Response Document × W
  reloaded (err e) w = (error 500 "failed to load updated document", w)
  reloaded (ok doc) w = (json 200 doc, w)

  after_start : Uuid → Uuid → Document → Option E × W → Response Document × W
  unfolding reloaded
  after_start user id doc (some e, w) = (
    error 500 "failed to enqueue document for reprocessing",
    (h.docs.update_status user id failed w).1,
  )
  after_start user id doc (none, w) = reloaded (h.docs.get user id w) w

  after_reset : Uuid → Uuid → Document → Option Document.Error × W → Response Document × W
  unfolding after_start
  after_reset user id doc (some e, w) = (error 500 "failed to reset document status", w)
  after_reset user id doc (none, w) = after_start user id doc (Ingest.start h.publisher doc w)

  retry_unrejected : Uuid → Uuid → Document → Rejection → W → Response Document × W
  unfolding after_reset
  retry_unrejected user id doc (unknown e) w = (error 500 "failed to check the malware scan", w)
  retry_unrejected user id doc (rejected reason) w =
      (error 409 "this file was rejected by the malware scan and deleted; upload it again", w)
  retry_unrejected user id doc not_rejected w =
      after_reset user id doc (h.docs.update_status user id pending w)

  retry_idle : Uuid → Uuid → Document → Option Bool → W → Response Document × W
  unfolding retry_unrejected
  retry_idle user id doc none w = (error 500 "failed to check for an active background job", w)
  retry_idle user id doc (some true) w =
      (error 409 "document has an active background job and cannot be retried yet", w)
  retry_idle user id doc (some false) w = retry_unrejected user id doc (h.rejection user id w) w

  retry_document : Uuid → Uuid → Document → W → Response Document × W
  unfolding retry_idle
  retry_document user id doc w =
      if not (status_beq doc.status failed)
      then (error 409 "only a failed document can be retried", w)
      else retry_idle user id doc (has_active_job user id w) w

  -- `docHandler.retry`
  unfoldable pub retry : Request → W → Response Document × W
  unfolding retry_document
  retry r = with_document r retry_document

  published : Document → Option E × W → Response Document × W
  published doc (some e, w) = (error 500 "failed to enqueue entity extraction", w)
  published doc (none, w) = (json 200 doc, w)

  extract_idle : Uuid → Uuid → Document → Option Bool → W → Response Document × W
  unfolding published
  extract_idle user id doc none w = (error 500 "failed to check for an active background job", w)
  extract_idle user id doc (some true) w =
      (error 409 "document has an active background job and cannot be retried yet", w)
  extract_idle user id doc (some false) w =
      published doc (h.publisher.publish_entity_extraction doc.id user w)

  extract_document : Uuid → Uuid → Document → W → Response Document × W
  unfolding extract_idle
  extract_document user id doc w =
      if not (status_beq doc.status indexed)
      then (error 409 "only an indexed document has chunks to extract entities from", w)
      else extract_idle user id doc (has_active_job user id w) w

  -- `docHandler.retryEntityExtraction`
  unfoldable pub retry_entity_extraction : Request → W → Response Document × W
  unfolding extract_document
  retry_entity_extraction r = with_document r extract_document
