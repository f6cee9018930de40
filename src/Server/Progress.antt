-- ===== src/Server/Progress.antt =====
-- What the document list shows of each document's ingestion: `list`, `enrichPage` and `rejectionReason`
-- of internal/server/dochandler.go.
pub mod Complete
use dumpster.Prelude.{ℕ, String, Bool, true, false, not, Option, none, some, List, [], ◌∷◌, map}
use dumpster.Prelude.Tests.{if◌then◌else◌}
use dumpster.Prelude.Eq.{nat_eq}
use dumpster.Prelude.Map.{Map, lookup}
use dumpster.Queue.Types.{Uuid, JobStatus}
use dumpster.Queue.Stage.{DisplayStage, stages_for_document, active_stage_keys, stage_key_complete}
use dumpster.JobStatus.Memory.{or_nil}
use dumpster.Document.{Document, status_beq, indexed, failed}
use dumpster.Ingest.{needs_region_classification}
use dumpster.Kb
use dumpster.MalwareScan.Scans.{Rejection, not_rejected, rejected, unknown}
use dumpster.Server.Documents.{Handler, Response, error, json}
use dumpster.Server.Pagination.{Page, paginate_docs}

-- `documentProgress`
pub record Progress : Type 0 where
  pub stages : List DisplayStage
  pub active_stages : List String

-- `docListItem`; a `nil` progress is `none`.
pub record Item : Type 0 where
  pub document : Document
  pub progress : Option Progress
  pub rejection_reason : String

-- The reason that `Rejection` returns, "" if there is none; its error is only logged.
reason_of : Rejection → String
reason_of not_rejected = ""
reason_of (rejected reason) = reason
reason_of (unknown e) = ""

-- The `switch` of `enrichPage` on the active stages.
abbrev pub shown_stages : Document → List String → List String
shown_stages d [] = if status_beq d.status indexed then stage_key_complete ∷ [] else []
shown_stages d (k ∷ ks) = k ∷ ks

-- The progress of a document with the given active jobs.
unfoldable pub progress_of : Document → List JobStatus → Option Progress
progress_of d jobs =
    if not (status_beq d.status failed)
    then some (record {
      stages = stages_for_document (needs_region_classification d.content_type);
      active_stages =
          shown_stages d (active_stage_keys (needs_region_classification d.content_type) jobs);
    })
    else none

module _ {E W : Type 0} (h : Handler E W) where
  -- `rejectionReason`
  unfoldable pub rejection_reason : Document → W → String
  unfolding reason_of
  rejection_reason d w =
      if not (status_beq d.status failed) then "" else reason_of (h.rejection d.user_id d.id w)

  -- An item where job progress is not available.
  abbrev plain_item : W → Document → Item
  plain_item w d = record { document = d; progress = none; rejection_reason = rejection_reason d w }

  -- An item, with `activeByDoc`.
  abbrev pub enriched_item : Map Uuid (List JobStatus) → W → Document → Item
  enriched_item active w d = record {
    document = d;
    progress = progress_of d (or_nil (lookup d.id active));
    rejection_reason = rejection_reason d w;
  }

  -- `activeByDoc`, which an error leaves `nil`.
  abbrev pub active_by_doc : Option (Map Uuid (List JobStatus)) → Map Uuid (List JobStatus)
  active_by_doc none = []
  active_by_doc (some active) = active

  -- `enrichPage`
  unfoldable pub enrich_page : Uuid → Page Document → W → Page Item
  enrich_page user page w = record {
    items = elim h.jobs [
      | none ↦ map (plain_item w) page.items
      | some active ↦
          map (enriched_item (active_by_doc (active user (map (λ d. d.id) page.items) w)) w)
            page.items
    ];
    next_cursor = page.next_cursor;
  }

  -- `writeKBError`
  kb_error : Kb.Error → Response (Page Item)
  kb_error Kb.not_found = error 404 "knowledge base not found"
  kb_error (Kb.other m) = error 500 "internal error"

module _ {E W : Type 0} (h : Handler E W) (kb_get : Uuid → Uuid → W → Option Kb.Error)
    (list_by_kb : Uuid → Uuid → W → Option (List Document)) where
  listed : Uuid → ℕ → Uuid → Option (List Document) → W → Response (Page Item)
  listed user limit after none w = error 500 "failed to list documents"
  listed user limit after (some docs) w =
      json 200 (enrich_page h user (paginate_docs docs limit after) w)

  -- `list`, on the authenticated user, the parsed ID, and what `parsePagination` returns. `kb_get` gives
  -- the error of `kbRepo.Get`, if any, and `list_by_kb` is `none` for an error.
  unfoldable pub list : Option Uuid → Option Uuid → ℕ → Uuid → W → Response (Page Item)
  unfolding kb_error listed
  list user kb limit after w = elim user [
    | none ↦ error 401 "unauthorized"
    | some u ↦ elim kb [
      | none ↦ error 400 "invalid id"
      | some k ↦ elim (kb_get u k w) [
        | some e ↦ kb_error h e
        | none ↦ listed u limit after (list_by_kb u k w) w
      ]
    ]
  ]
