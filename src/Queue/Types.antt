-- ===== src/Queue/Types.antt =====
-- Job types and the records handed between the pipeline's stages: internal/queue/queue.go.
use dumpster.Prelude.{Option, ℕ, String, ◌≡◌, ◌↔◌, Bool, true, false, str_eq, str_eq_iff, arith}
use dumpster.Prelude.Eq.{Eq}

-- `uuid.UUID` is a 128-bit value, compared bit by bit: the number with those bits.
abbrev pub Uuid : Type 0
Uuid = ℕ

-- Go's `JobType` is a string; `other` holds the strings that no constant names.
pub data JobType : Type 0 where
  document_indexing entity_extraction edge_extraction : JobType
  region_classification canonicalization malware_scan : JobType
  other : String → JobType

abbrev pub job_type_beq : JobType → JobType → Bool
job_type_beq document_indexing document_indexing = true
job_type_beq entity_extraction entity_extraction = true
job_type_beq edge_extraction edge_extraction = true
job_type_beq region_classification region_classification = true
job_type_beq canonicalization canonicalization = true
job_type_beq malware_scan malware_scan = true
job_type_beq (other a) (other b) = str_eq a b
job_type_beq _ _ = false

pub job_type_beq_iff : (a b : JobType) → (job_type_beq a b ≡ true) ↔ (a ≡ b)
job_type_beq_iff (other a) (other b) = ground (arith, str_eq_iff a b)
job_type_beq_iff _ _ = ground arith

instance abbrev pub job_type_eq : Eq JobType
job_type_eq = record { same = job_type_beq; same_iff = job_type_beq_iff }

-- One attempt at one job, as handed to whatever runs it.
pub record JobRun : Type 0 where
  pub job_type : JobType
  pub document_id : Uuid
  pub user_id : Uuid
  pub attempt : ℕ

-- One active job's state, for display.
pub record JobStatus : Type 0 where
  pub job_type : JobType
  pub phase : String
  pub status : String
  pub last_error : String

-- The `Publisher` interface: each event carries a document and its user. `E` is its type of errors.
pub record Publisher (E W : Type 0) : Type 0 where
  pub publish_document_uploaded : Uuid → Uuid → W → Option E × W
  pub publish_entity_extraction : Uuid → Uuid → W → Option E × W
  pub publish_edge_extraction : Uuid → Uuid → W → Option E × W
  pub publish_region_classification : Uuid → Uuid → W → Option E × W
  pub publish_canonicalization : Uuid → Uuid → W → Option E × W
