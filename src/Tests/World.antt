-- ===== src/Tests/World.antt =====
-- A concrete world for the theorems about handlers: the in-memory stores, the runs handed over, and the
-- stored files.
use dumpster.Prelude.{
  ℕ, String, ◌≡◌, ◌≢◌, ◌⊎◌, refl, Bool, false, Option, none, some, List, [], ◌∷◌, ◌++◌, str_eq,
  str_eq_iff, inl, inr, ap,
}
use dumpster.Prelude.Tests.{if◌then◌else◌, Bool-cases}
use dumpster.Prelude.Eq.{nat_eq}
use dumpster.Prelude.Map.{lookup}
use dumpster.Queue.Types.{
  Uuid, JobRun, document_indexing, region_classification, entity_extraction, edge_extraction,
  canonicalization, Publisher,
}
use dumpster.Queue.Dispatch
use dumpster.Queue.Dispatch.{run_of}
use dumpster.Queue.Dispatch.Outcome.{IsLinked}
use dumpster.JobStatus.Contract
use dumpster.JobStatus.Contract.{IsAtomic}
use dumpster.JobStatus.Memory as Jobs
use dumpster.JobStatus.Memory.Refines.{store, store-IsAtomic}
use dumpster.Document
use dumpster.Document.{Document, pending, IsScoped, own, ok, err}
use dumpster.Document.Memory as Docs
use dumpster.Document.Memory.Scope.{
  get-found, get_by_s3_key-owned, update_status-frame, delete-frame,
}
use dumpster.Ingest
use dumpster.MalwareScan.{Deps, scan_key}
use dumpster.MalwareScan.Phases.{IsSeparate}
use dumpster.MalwareScan.Scans.{rejection, Scans}
use dumpster.Server.Documents.{Handler}
use dumpster.Server.Documents.Guarded.{IsApart}
use dumpster.Server.Documents.Orphan.{IsStored}

pub record World : Type 0 where
  pub jobs : Jobs.Store
  pub docs : Docs.Repository
  pub runs : List JobRun
  pub files : String → Bool

abbrev with_jobs {ℓ} : {A : Type ℓ} → World → A × Jobs.Store → A × World
with_jobs w (a, s) = (a, record w { jobs = s })

abbrev with_docs {ℓ} : {A : Type ℓ} → World → A × Docs.Repository → A × World
with_docs w (a, r) = (a, record w { docs = r })

-- The in-memory job store, as a part of the world.
abbrev pub jobs : Contract.Store World
jobs = record {
  get = λ k w. store.get k w.jobs;
  enqueue = λ k w. with_jobs w (store.enqueue k w.jobs);
  mark_processing = λ k n w. with_jobs w (store.mark_processing k n w.jobs);
  set_phase = λ k n p w. with_jobs w (store.set_phase k n p w.jobs);
  mark_succeeded = λ k n w. with_jobs w (store.mark_succeeded k n w.jobs);
  mark_failed = λ k n m w. with_jobs w (store.mark_failed k n m w.jobs);
}

abbrev atomic : IsAtomic store
atomic = store-IsAtomic

abbrev pub jobs-IsAtomic : IsAtomic jobs
jobs-IsAtomic = record {
  view = λ w. atomic.view w.jobs;
  get_lem = λ k w. atomic.get_lem k w.jobs;
  enqueue_lem = λ k w. atomic.enqueue_lem k w.jobs;
  mark_processing_lem = λ k n w. atomic.mark_processing_lem k n w.jobs;
  set_phase_lem = λ k n p w. atomic.set_phase_lem k n p w.jobs;
  mark_succeeded_lem = λ k n w. atomic.mark_succeeded_lem k n w.jobs;
  mark_failed_lem = λ k n m w. atomic.mark_failed_lem k n m w.jobs;
}

abbrev clock : Docs.Repository → ℕ
clock r = 0

abbrev pub docs : Document.Repository World
docs = record {
  get = λ u i w. Docs.get u i w.docs;
  get_by_s3_key = λ u k w. Docs.get_by_s3_key u k w.docs;
  update_status = λ u i s w. with_docs w (Docs.update_status (clock w.docs) u i s w.docs);
  delete = λ u i w. with_docs w (Docs.delete u i w.docs);
}

pub get_lem :
    (user id : Uuid) (w : World)
    → (docs.get user id w
        ≡ elim (own user (lookup id w.docs.rows)) [ none ↦ err Document.not_found | some d ↦ ok d ])
      ⊎ ((m : String) × (docs.get user id w ≡ err (Document.other m)))
unfolding Docs.get
get_lem user id w = inl (get-found user (lookup id w.docs.rows))

abbrev pub docs-IsScoped : IsScoped docs
docs-IsScoped = record {
  row = λ w i. lookup i w.docs.rows;
  get_lem = get_lem;
  get_by_s3_key_lem = λ u k w. get_by_s3_key-owned u k w.docs;
  update_status_frame = λ u i s w. update_status-frame clock u i s w.docs;
  delete_frame = λ u i w. delete-frame clock u i w.docs;
}

-- A target that takes every run.
abbrev pub hand_over : JobRun → World → Option String × World
hand_over run w = (none, record w { runs = w.runs ++ run ∷ [] })

abbrev pub publisher : Dispatch.Publisher World
publisher = record { status = jobs; target = record { dispatch = hand_over }; message = λ run m. m }

abbrev pub publisher-IsLinked : IsLinked publisher jobs-IsAtomic.view
publisher-IsLinked = record {
  runs = λ w. w.runs;
  target_view = λ run w k. refl;
  target_runs = λ run w. inl (refl, refl);
  enqueue_runs = λ k w. refl;
  mark_failed_runs = λ k n m w. refl;
}

-- A publisher that hands each run over at once.
abbrev pub direct : Publisher String World
direct = record {
  publish_document_uploaded = λ d u. hand_over (run_of document_indexing d u 1);
  publish_entity_extraction = λ d u. hand_over (run_of entity_extraction d u 1);
  publish_edge_extraction = λ d u. hand_over (run_of edge_extraction d u 1);
  publish_region_classification = λ d u. hand_over (run_of region_classification d u 1);
  publish_canonicalization = λ d u. hand_over (run_of canonicalization d u 1);
}

abbrev pub remove_file : String → World → Option String × World
remove_file key w = (none, record w { files = λ k. if str_eq k key then false else w.files k })

abbrev pub scanner : Deps String World
scanner = record { docs = docs; status = jobs; objects_delete = remove_file; publisher = direct }

-- What is left to a start: it hands one run over.
pub started_run : Document → JobRun
started_run d =
    run_of
      (if Ingest.needs_region_classification d.content_type
        then region_classification
        else document_indexing)
      d.id d.user_id 1

pub start-effect :
    (d : Document) (w : World)
    → (Ingest.start direct d w).1 ≡ record w { runs = w.runs ++ started_run d ∷ [] }
unfolding Ingest.start started_run
start-effect d w = elim (Bool-cases (Ingest.needs_region_classification d.content_type)) [
  | inl region ↦ rw region refl
  | inr plain ↦ rw plain refl
]

abbrev pub scanner-IsSeparate : IsSeparate scanner jobs-IsAtomic.view
scanner-IsSeparate = record {
  runs = λ w. w.runs;
  files = λ w. w.files;
  mark_succeeded_frame = λ k n w. (refl, refl);
  mark_failed_frame = λ k n m w. (refl, refl);
  delete_frame = λ key w d. (refl, refl);
  update_frame = λ u i s w d. (refl, refl, refl);
  start_frame = λ d w. (
    ap (λ (v : World). v.files) (start-effect d w),
    ap (λ (v : World). jobs-IsAtomic.view v (scan_key d)) (start-effect d w),
  );
}

abbrev pub scans : Scans World
scans = record { status = jobs; start_execution = λ d u w. (none, w) }

abbrev pub handler : Handler String World
handler = record {
  docs = docs;
  objects_delete = remove_file;
  publisher = direct;
  rejection = rejection scans;
  jobs = some (λ u ds w. some (Jobs.active_jobs_for_documents u ds w.jobs));
  decrement = none;
  record_delete = λ outcome w. w;
}

pub no_decrement : (f : Uuid → Uuid → World → Option String × World) → handler.decrement ≢ some f
no_decrement f e = cc

abbrev pub handler-IsApart : IsApart handler docs-IsScoped.row
handler-IsApart = record {
  objects_frame = λ key w. refl;
  start_frame = λ d w. ap (λ (v : World). docs-IsScoped.row v) (start-effect d w);
  decrement_frame = λ f e. absurd (no_decrement f e);
  record_frame = λ outcome w. refl;
}

pub removed : (key : String) (w : World) → (remove_file key w).1.files key ≡ false
removed key w = rw ((str_eq_iff key key).1 refl) refl

abbrev pub handler-IsStored : IsStored handler
handler-IsStored = record {
  files = λ w. w.files;
  gone = λ key w e. removed key w;
  delete_frame = λ u i w. refl;
  record_frame = λ outcome w. refl;
}

-- A document of user 7 in knowledge base 3, stored and ready to be scanned.
abbrev pub report : Document
report = record {
  id = 5;
  kb_id = 3;
  user_id = 7;
  filename = "report.txt";
  s3_key = "documents/7/3/5/report.txt";
  content_type = "text/plain";
  size_bytes = 12;
  status = pending;
  created_at = 1;
  updated_at = 1;
}

abbrev pub empty : World
empty = record { jobs = Jobs.new; docs = Docs.new; runs = []; files = λ key. false }

-- `report` uploaded: its row, its pending scan, and its file.
abbrev pub uploaded : World
uploaded = record {
  jobs = (Jobs.enqueue (scan_key report) Jobs.new).1;
  docs = (Docs.create 5 1 report Docs.new).1;
  runs = [];
  files = λ key. str_eq key report.s3_key;
}
