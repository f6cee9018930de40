-- ===== src/MalwareScan.antt =====
-- Malware scan results and timeouts: internal/malwarescan/malwarescan.go. The collaborators are
-- parameters over one state `W`; the decoding of JSON events and logging are left out.
pub mod Scans
pub mod Phases
pub mod Clean
pub mod Reject
pub mod Exclusive
use Prim.Native.Char.{Char, code}
use Prim.Native.String
use Prim.Native.String.{◌++◌}
use dumpster.Prelude.{ℕ, String, Bool, true, false, not, Option, none, some, List, [], ◌∷◌, str_eq}
use dumpster.Prelude.Tests.{if◌then◌else◌, nat_beq}
use dumpster.Queue.Types.{Uuid, Publisher, malware_scan}
use dumpster.JobStatus
use dumpster.JobStatus.{Key, not_found, not_active}
use dumpster.JobStatus.Contract.{Store}
use dumpster.Document
use dumpster.Document.{Document, ok, err, failed}
use dumpster.Ingest

abbrev pub scan_attempt : ℕ
scan_attempt = 1

abbrev reason_timeout : String
reason_timeout =
    "The malware scan didn't complete in time, so the file was deleted. Upload it again."

-- `strings.Join(threats, ", ")`
join : List String → String
join [] = ""
join (t ∷ []) = t
join (t ∷ u ∷ ts) = t ++ (", " ++ join (u ∷ ts))

abbrev found_of : List String → String
found_of [] = "malware"
found_of (t ∷ ts) = join (t ∷ ts)

-- `reasonThreats`
unfoldable pub reason_threats : List String → String
unfolding join
reason_threats threats =
    "Malware detected (" ++ (found_of threats ++ "), so the file was deleted. Upload a clean copy.")

-- `reasonUnscannable`
unfoldable pub reason_unscannable : String → String
reason_unscannable status =
    "This file couldn't be scanned for malware (" ++ (status ++ "), so it was deleted.")

pub record Result : Type 0 where
  pub object_key : String
  pub status : String
  pub threats : List String

pub record TimeoutMessage : Type 0 where
  pub document_id : Uuid
  pub user_id : Uuid

-- The errors returned, with what they wrap.
pub data Error (E : Type 0) : Type 0 where
  find_document : Document.Error → Error E
  mark_clean : JobStatus.Error → Error E
  start_processing : E → Error E
  record_rejection : JobStatus.Error → Error E
  delete_file : String → Error E
  fail_document : Document.Error → Error E

-- `Deps`. Of the object store only `Delete` is used.
pub record Deps (E W : Type 0) : Type 0 where
  pub docs : Document.Repository W
  pub status : Store W
  pub objects_delete : String → W → Option String × W
  pub publisher : Publisher E W

-- The text before and after the first slash.
cut : String → Option (String × String)
cut String.[] = none
cut (String.◌∷◌ c s) =
    let rest = cut s in
    if nat_beq (code c) b'/'
    then some ("", s)
    else elim rest [ none ↦ none | some (a, b) ↦ some (String.◌∷◌ c a, b) ]

-- `userFromKey`, with `uuid.Parse` as a parameter: the first two of the three parts of
-- `strings.SplitN(key, "/", 3)`.
unfoldable pub user_from_key : (String → Option Uuid) → String → Option Uuid
unfolding cut
user_from_key parse key = elim (cut key) [
  | none ↦ none
  | some (root, rest) ↦ elim (cut rest) [
    | none ↦ none
    | some (user, path) ↦ if str_eq root "documents" then parse user else none
  ]
]

abbrev pub scan_key_of : Uuid → Uuid → Key
scan_key_of user document = record {
  user_id = user;
  document_id = document;
  job_type = malware_scan;
}

-- `scanKey`
abbrev pub scan_key : Document → Key
scan_key doc = scan_key_of doc.user_id doc.id

module _ {E W : Type 0} (d : Deps E W) where
  started : Option E × W → Option (Error E) × W
  started (none, w) = (none, w)
  started (some e, w) = (some (start_processing e), w)

  after_clean : Document → Option JobStatus.Error × W → Option (Error E) × W
  unfolding started
  after_clean doc (some not_found, w) = (none, w)
  after_clean doc (some (not_active s t), w) = (none, w)
  after_clean doc (some e, w) = (some (mark_clean e), w)
  after_clean doc (none, w) = started (Ingest.start d.publisher doc w)

  -- `clean`
  unfoldable pub clean : Document → W → Option (Error E) × W
  unfolding after_clean
  clean doc w = after_clean doc (d.status.mark_succeeded (scan_key doc) scan_attempt w)

  after_update : Option Document.Error × W → Option (Error E) × W
  after_update (none, w) = (none, w)
  after_update (some e, w) = (some (fail_document e), w)

  after_delete : Document → Option String × W → Option (Error E) × W
  unfolding after_update
  after_delete doc (some e, w) = (some (delete_file e), w)
  after_delete doc (none, w) = after_update (d.docs.update_status doc.user_id doc.id failed w)

  -- What `reject` does once the scan's failure is recorded, or has no record to be in.
  remove_file : Document → W → Option (Error E) × W
  unfolding after_delete
  remove_file doc w = after_delete doc (d.objects_delete doc.s3_key w)

  after_fail : Document → Bool → Option JobStatus.Error × W → Option (Error E) × W
  unfolding remove_file
  after_fail doc from_scan (some (not_active s t), w) = (none, w)
  after_fail doc from_scan (some not_found, w) =
      if not from_scan then (none, w) else remove_file doc w
  after_fail doc from_scan (some e, w) = (some (record_rejection e), w)
  after_fail doc from_scan (none, w) = remove_file doc w

  -- `reject`
  unfoldable pub reject : Document → String → Bool → W → Option (Error E) × W
  unfolding after_fail
  reject doc reason from_scan w =
      after_fail doc from_scan (d.status.mark_failed (scan_key doc) scan_attempt reason w)

  apply_status : Result → Document → W → Option (Error E) × W
  apply_status r doc w =
      if str_eq r.status "NO_THREATS_FOUND"
      then clean doc w
      else if str_eq r.status "THREATS_FOUND"
      then reject doc (reason_threats r.threats) true w
      else reject doc (reason_unscannable r.status) true w

  on_document :
      (Document → W → Option (Error E) × W) → Document.Result Document → W → Option (Error E) × W
  on_document f (err Document.not_found) w = (none, w)
  on_document f (err e) w = (some (find_document e), w)
  on_document f (ok doc) w = f doc w

  -- `HandleResult`
  unfoldable pub handle_result : (String → Option Uuid) → Result → W → Option (Error E) × W
  unfolding apply_status on_document
  handle_result parse r w = elim (user_from_key parse r.object_key) [
    | none ↦ (none, w)
    | some user ↦ on_document (apply_status r) (d.docs.get_by_s3_key user r.object_key w) w
  ]

  -- `HandleTimeout`
  unfoldable pub handle_timeout : TimeoutMessage → W → Option (Error E) × W
  unfolding on_document
  handle_timeout m w =
      on_document (λ doc. reject doc reason_timeout false) (d.docs.get m.user_id m.document_id w) w
