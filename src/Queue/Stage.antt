-- ===== src/Queue/Stage.antt =====
-- The stages that a user sees of a document's pipeline: internal/queue/stage.go.
pub mod Keys
pub mod Path
use dumpster.Prelude.{String, Bool, true, false, Option, none, some, List, [], ◌∷◌, str_eq}
use dumpster.Prelude.Tests.{if◌then◌else◌}
use dumpster.Prelude.Eq.{string_eq}
use dumpster.Prelude.Map.{Map, lookup, insert}
use dumpster.Queue.Types.{
  JobType, document_indexing, entity_extraction, edge_extraction, region_classification,
  canonicalization, malware_scan, other, JobStatus,
}

pub record DisplayStage : Type 0 where
  pub key : String
  pub label : String
  pub message : String

abbrev pub phase_embedding : String
phase_embedding = "embedding"

abbrev pub stage_key_complete : String
stage_key_complete = "complete"

abbrev pub stage_scanning : DisplayStage
stage_scanning = record {
  key = "scanning";
  label = "Scanning for malware";
  message = "Checking the file before anything else reads it.";
}

abbrev pub stage_analyzing : DisplayStage
stage_analyzing = record {
  key = "analyzing";
  label = "Analyzing document";
  message = "Identifying text, tables, and figures.";
}

abbrev pub stage_embedding : DisplayStage
stage_embedding = record {
  key = "embedding";
  label = "Preparing for search";
  message = "This document will be searchable once this step completes.";
}

abbrev pub stage_entities : DisplayStage
stage_entities = record {
  key = "entities";
  label = "Extracting entities";
  message = "Unlocks communities, themes, and multi-hop queries once complete.";
}

abbrev pub stage_complete : DisplayStage
stage_complete = record {
  key = stage_key_complete;
  label = "Fully indexed";
  message = "Indexed, searchable, and included in communities and themes.";
}

-- `StageFor`
unfoldable pub stage_for : JobType → String → DisplayStage
stage_for region_classification phase =
    if str_eq phase phase_embedding then stage_embedding else stage_analyzing
stage_for document_indexing phase = stage_embedding
stage_for entity_extraction phase = stage_entities
stage_for edge_extraction phase = stage_entities
stage_for canonicalization phase = stage_entities
stage_for malware_scan phase = stage_scanning
stage_for (other t) phase = record { key = "processing"; label = "Processing"; message = "" }

-- `StagesForDocument`
unfoldable pub stages_for_document : Bool → List DisplayStage
stages_for_document true =
    stage_scanning ∷ stage_analyzing ∷ stage_embedding ∷ stage_entities ∷ stage_complete ∷ []
stages_for_document false = stage_scanning ∷ stage_embedding ∷ stage_entities ∷ stage_complete ∷ []

-- The first loop of `ActiveStageKeys`: the keys present, as a `map[string]bool`.
unfoldable pub present_keys : List JobStatus → Map String Bool → Map String Bool
unfolding stage_for
present_keys [] m = m
present_keys (job ∷ jobs) m =
    present_keys jobs (insert (stage_for job.job_type job.phase).key true m)

-- A missing key reads as `false`.
unfoldable pub holds : Option Bool → Bool
holds none = false
holds (some b) = b

-- The second loop.
unfoldable pub keys_present : Map String Bool → List DisplayStage → List String
unfolding holds
keys_present m [] = []
keys_present m (s ∷ stages) =
    let rest = keys_present m stages in if holds (lookup s.key m) then s.key ∷ rest else rest

-- `ActiveStageKeys`
unfoldable pub active_stage_keys : Bool → List JobStatus → List String
unfolding present_keys keys_present
active_stage_keys has_region jobs =
    keys_present (present_keys jobs []) (stages_for_document has_region)
