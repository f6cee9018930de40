-- ===== src/Tests/Handlers.antt =====
-- Examples of the theorems on the malware scan and the document endpoints.
use dumpster.Prelude.{
  String, none, ◌≡◌, ◌≢◌, ◌↔◌, Memᴰ, refl, ◌⊎◌, true, false, some, List, [], ◌∷◌,
}
use dumpster.Prelude.Tests.{if◌then◌else◌}
use dumpster.Prelude.Eq.{nat_eq}
use dumpster.Prelude.Map.{insert, lookup}
use dumpster.Queue.Stage.Path.{OffPath}
use dumpster.Queue.Types.{Uuid}
use dumpster.Document.{Document, failed, indexed, processing}
use dumpster.Document.Memory as Docs
use dumpster.MalwareScan.Exclusive.{Report, clean, reject, reports, reports_exclusive}
use dumpster.MalwareScan.Scans.{not_rejected}
use dumpster.Server.Documents.{
  Request, json, text, has_active_job, delete, retry, retry_entity_extraction,
}
use dumpster.Server.Documents.Guarded.{delete-guarded}
use dumpster.Server.Documents.Orphan.{delete-no_orphan}
use dumpster.Server.Documents.Retries.{Names, retry-guarded, retry_entity_extraction-guarded}
use dumpster.Queue.Types.{JobStatus, entity_extraction}
use dumpster.Queue.Stage.{stage_key_complete}
use dumpster.Ingest.{needs_region_classification}
use dumpster.Server.Progress.{progress_of}
use dumpster.Server.Progress.Complete.{active_of, progress_of-complete_iff}
use dumpster.Server.Detail.{Reader, Detail, get, content}
use dumpster.Server.Detail.Shown.{Owned, read-Owned}
use dumpster.Tests.World.{
  World, scanner, jobs-IsAtomic, scanner-IsSeparate, handler, docs-IsScoped, handler-IsApart,
  handler-IsStored, report, uploaded,
}

-- A clean scan that is followed by the timeout and by a late infected result.
abbrev several : List Report
several = clean ∷ reject "timed out" false ∷ reject "infected" true ∷ []

reports_exclusive_example :
    ((reports scanner report several uploaded).runs ≡ uploaded.runs)
    ⊎ ((reports scanner report several uploaded).files ≡ uploaded.files)
reports_exclusive_example =
    reports_exclusive scanner jobs-IsAtomic scanner-IsSeparate report several uploaded

stored : docs-IsScoped.row uploaded 5 ≡ some report
unfolding Docs.create insert lookup
stored = refl

-- The owner's request for `report`.
abbrev request : Request
request = record { user = some 7; kb_id = some 3; doc_id = some 5 }

-- `report` once its scan came back clean.
abbrev scanned : World
scanned = reports scanner report (clean ∷ []) uploaded

delete-guarded_example :
    (docs-IsScoped.row (delete handler request uploaded).1 5 ≡ some report)
    ⊎ ((request.user ≡ some report.user_id)
        × (request.kb_id ≡ some report.kb_id)
        × (request.doc_id ≡ some 5)
        × (report.status ≢ processing)
        × (has_active_job handler report.user_id 5 uploaded ≡ some false))
delete-guarded_example =
    delete-guarded handler docs-IsScoped handler-IsApart request uploaded 5 report stored

delete-no_orphan_example :
    (docs-IsScoped.row (delete handler request uploaded).1 5 ≡ some report)
    ⊎ ((delete handler request uploaded).1.files report.s3_key ≡ false)
delete-no_orphan_example =
    delete-no_orphan handler docs-IsScoped handler-IsApart handler-IsStored request uploaded 5
      report stored

retry-guarded_example :
    ((retry handler request uploaded).1 ≡ uploaded)
    ⊎ ((user id : Uuid) × (d : Document) × Names handler request uploaded user id d
        × (d.status ≡ failed)
        × (has_active_job handler user id uploaded ≡ some false)
        × (handler.rejection user id uploaded ≡ not_rejected))
retry-guarded_example = retry-guarded handler request uploaded

retry_entity_extraction-guarded_example :
    ((retry_entity_extraction handler request uploaded).1 ≡ uploaded)
    ⊎ ((user id : Uuid) × (d : Document) × Names handler request uploaded user id d
        × (d.status ≡ indexed)
        × (has_active_job handler user id uploaded ≡ some false))
retry_entity_extraction-guarded_example = retry_entity_extraction-guarded handler request uploaded

abbrev indexed_report : Document
indexed_report = record report { status = indexed }

-- Indexed, with its entities still being extracted.
abbrev extracting : List JobStatus
extracting =
    record { job_type = entity_extraction; phase = ""; status = "processing"; last_error = "" } ∷ []

progress_of-complete_iff_example :
    Memᴰ stage_key_complete (active_of (progress_of indexed_report extracting)) ↔ (
      (indexed_report.status ≡ indexed)
      × ((job : JobStatus)
          → Memᴰ job extracting
          → OffPath
              (needs_region_classification indexed_report.content_type)
              job.job_type
              job.phase))
progress_of-complete_iff_example = progress_of-complete_iff indexed_report extracting

-- A file that is there has one content, and no manifest is kept.
abbrev reader : Reader World
reader = record {
  manifest = none;
  objects_get = λ key w. if w.files key then some "a report" else none;
}

read-Owned_example :
    ((detail : Detail)
      → get handler reader request uploaded ≡ json 200 detail
      → Owned handler reader docs-IsScoped request uploaded detail.document)
    × ((body : String)
        → content handler reader request uploaded ≡ text body
        → (doc : Document) × Owned handler reader docs-IsScoped request uploaded doc
          × (reader.objects_get doc.s3_key uploaded ≡ some body))
read-Owned_example = read-Owned handler reader docs-IsScoped request uploaded
