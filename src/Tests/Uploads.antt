-- ===== src/Tests/Uploads.antt =====
-- A concrete upload endpoint, an upload, and a scan that does not begin.
use dumpster.Prelude.{String, ◌≡◌, ◌⊎◌, refl, true, Option, none, some, [], ◌∷◌, str_eq}
use dumpster.Prelude.Tests.{if◌then◌else◌}
use dumpster.Document
use dumpster.Document.{Document, ok, err}
use dumpster.Document.Memory as Docs
use dumpster.JobStatus.Memory as Jobs
use dumpster.MalwareScan.{scan_key}
use dumpster.Server.Upload.{Form, file, Uploader, upload}
use dumpster.Server.Upload.Stored.{IsStorage, Accepted, upload-stored}
use dumpster.MalwareScan.Scans.{Scans, other, begin}
use dumpster.MalwareScan.Scans.Begun.{Settled, begin-Settled}
use dumpster.Tests.World.{jobs, jobs-IsAtomic, report, empty, World, docs, uploaded}

abbrev created : World → Document.Result Document × Docs.Repository → Option Document × World
created w (ok d, r) = (some d, record w { docs = r })
created w (err e, r) = (none, record w { docs = r })

-- Uploads of text files, each under a new ID, with up to twenty documents per user.
abbrev uploader : Uploader World
uploader = record {
  kb_get = λ u k w. none;
  list_by_user = λ u w. some (Docs.list_by_user_id u w.docs);
  create = λ d w. created w (Docs.create 6 1 d w.docs);
  begin = λ d w. (none, record w { jobs = (Jobs.enqueue (scan_key d) w.jobs).1 });
  put = λ key f t w. (none, record w { files = λ k. if str_eq k key then true else w.files k });
  docs = docs;
  record_upload = λ outcome w. w;
  max_docs = 20;
  base = λ name. name;
  extension = λ name. ".txt";
  show = λ id. "id";
}

no_failure : {e : String} → ¬ Path (Option String) none (some e)
no_failure h = cc

created-files :
    (w : World) (o : Document.Result Document × Docs.Repository) → (created w o).1.files ≡ w.files
created-files w (ok d, r) = refl
created-files w (err e, r) = refl

abbrev uploader-IsStorage : IsStorage uploader
uploader-IsStorage = record {
  files = λ w. w.files;
  create_frame = λ d w. created-files w (Docs.create 6 1 d w.docs);
  begin_frame = λ d w. refl;
  put_frame = λ key f t w e h. absurd (no_failure h);
  delete_frame = λ u i w. refl;
  update_frame = λ u i s w. refl;
  record_frame = λ outcome w. refl;
}

abbrev notes : Form
notes = file (record { filename = "notes.txt"; size = 2; body = 104 ∷ 105 ∷ [] })

upload-stored_example :
    ((upload uploader (some 7) (some 3) 11 notes uploaded).1.files ≡ uploaded.files)
    ⊎ Accepted uploader uploader-IsStorage (upload uploader (some 7) (some 3) 11 notes uploaded)
upload-stored_example =
    upload-stored uploader uploader-IsStorage (some 7) (some 3) 11 notes uploaded

-- A scan whose timeout Step Functions refuses to start.
abbrev throttled : Scans World
throttled = record { status = jobs; start_execution = λ d u w. (some (other "throttled"), w) }

begin-Settled_example :
    Settled throttled jobs-IsAtomic (λ d u w k. refl) report (begin throttled report empty)
begin-Settled_example = begin-Settled throttled jobs-IsAtomic (λ d u w k. refl) report empty
