-- ===== src/Ingest.antt =====
-- How an uploaded document's processing starts: internal/ingest/ingest.go.
use dumpster.Prelude.{String, Bool, Option, ◌||◌, str_eq}
use dumpster.Prelude.Tests.{if◌then◌else◌}
use dumpster.Queue.Types.{Publisher}
use dumpster.Document.{Document}

-- `NeedsRegionClassification`: the keys of `regionClassificationTypes`
unfoldable pub needs_region_classification : String → Bool
needs_region_classification t =
    str_eq t "application/pdf" || (str_eq t "image/png" || str_eq t "image/jpeg")

-- `Start`
unfoldable pub start : {E W : Type 0} → Publisher E W → Document → W → Option E × W
start p doc w =
    if needs_region_classification doc.content_type
    then p.publish_region_classification doc.id doc.user_id w
    else p.publish_document_uploaded doc.id doc.user_id w
