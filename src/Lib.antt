-- ===== src/Lib.antt =====
-- The ingestion core of dumpster: uploaded documents, their background jobs, the malware scan that
-- comes before them, the steps that index them, the entities that their mentions resolve to, and the
-- endpoints that act on them.
--
-- An upload records a document row and a pending malware scan. The scan's result, or its timeout, either
-- starts the document's processing or deletes its file. Processing is a chain of background jobs; each
-- has a status record, which is written by the rules of internal/jobstatus and handed to AWS Step
-- Functions by the publisher of internal/queue/dispatch. The endpoints read those records to show a
-- document's progress and to refuse a delete or a retry while a job runs.
--
-- The files, with the code that they model:
--   Prelude              shared names, Boolean tests, lists, maps as association lists, sorting
--   Queue/Types          internal/queue/queue.go
--   Queue/Stage          internal/queue/stage.go
--   Queue/Dispatch       internal/queue/dispatch/dispatch.go
--   Queue/StepFunctions  internal/queue/stepfunctions/stepfunctions.go
--   JobStatus            internal/jobstatus/jobstatus.go: Enqueue and Transition
--   JobStatus/Contract   what Writer and Getter there promise, as a record of laws
--   JobStatus/Memory     internal/jobstatus/memory/memory.go
--   Chunk/Splitter       internal/chunk/splitter.go
--   Document             internal/document/document.go, with the contract of Repository
--   Document/Memory      internal/document/memory/memory.go
--   Ingest               internal/ingest/ingest.go
--   MalwareScan          internal/malwarescan/malwarescan.go, and scans.go in MalwareScan/Scans
--   Kb                   internal/kb/kb.go and internal/kb/memory/memory.go
--   Entity               internal/entity/entity.go and internal/entity/memory/memory.go
--   Canonical            ResolveNew of internal/canonical/canonical.go
--   Canonical/Memory     internal/canonical/memory/memory.go
--   Canonical/Alias      internal/canonical/alias.go
--   Pipeline             internal/pipeline/pipeline.go
--   Pipeline/EmbedTail   internal/pipeline/embedtail/embedtail.go
--   Pipeline/DocIndex    internal/pipeline/docindex/docindex.go, and the state machine beside it in
--                        Pipeline/DocIndex/Machine
--   Worker               internal/worker/handler.go and internal/worker/retryable.go
--   Worker/Steps         internal/worker/lambda/steps.go
--   Worker/Edges         internal/worker/edgehandler.go
--   Worker/Canonicalization internal/worker/canonicalizationhandler.go
--   CrossLink            internal/crosslink/crosslink.go and internal/crosslink/memory/memory.go
--   GraphEdge            internal/graphedge/graphedge.go and internal/graphedge/memory/memory.go
--   Manifest             internal/manifest/manifest.go and internal/manifest/memory/memory.go
--   Server/Pagination    internal/server/pagination.go
--   Server/Documents     delete, retry and retryEntityExtraction of internal/server/dochandler.go
--   Server/Detail        get and content of the same file
--   Server/Upload        upload of the same file
--   Server/Progress      list, enrichPage and rejectionReason of the same file
--   Server/KnowledgeBases internal/server/kbhandler.go
--   RateLimit            internal/ratelimit/ratelimit.go and internal/ratelimit/memory/memory.go
--   Tests                a concrete world of in-memory stores, and examples of the theorems
--
-- How the code is read. A UUID is its 128-bit value. A Go string type with constants is a data type with
-- the constants and `other`. A Go map is an association list, whose order is that of the iteration; the
-- theorems hold for every such list. `(T, error)` is a `Result`, and an `error` alone an `Option` of the
-- package's errors. A collaborator is a record of its methods over a state `W`, and what its interface
-- documents is a record of laws (IsAtomic, IsScoped, IsLinked, IsSeparate, IsApart, IsStored, IsStorage)
-- that a theorem takes as a hypothesis; the in-memory stores are proved to keep the first two. Each
-- method of an in-memory store is one step, as its mutex makes it. A sequence of calls by any callers is
-- a list.
--
-- Loops are structural recursion. `Split` alone runs on fuel, one round for each byte of the text and one
-- more, since every round moves on by at least a byte. A client that follows the cursors of a listing
-- runs on fuel too: one page more than there are items.
--
-- Attempt numbers, sizes and times are natural numbers without an upper bound; negative window sizes of
-- the splitter and negative limits of the rate limiter are left out. `uuid.New`, `time.Now`, `uuid.Parse`,
-- AWS, the printing of numbers, JSON, Unicode's normalization and letters and the language models that judge
-- aliases and extract relations are
-- parameters or arguments. An execution of document indexing runs each step as often as the state machine
-- retries it, so it needs no fuel of its own. Not modelled: the Postgres stores, logging and telemetry, the
-- pipelines of entity extraction and region classification, retrieval, community detection and themes, sessions and
-- the command line programs.
pub mod Prelude
pub mod Queue
pub mod JobStatus
pub mod Chunk
pub mod Document
pub mod Ingest
pub mod MalwareScan
pub mod Kb
pub mod Entity
pub mod Canonical
pub mod Pipeline
pub mod Server
pub mod RateLimit
pub mod CrossLink
pub mod GraphEdge
pub mod Manifest
pub mod Worker
pub mod Tests
