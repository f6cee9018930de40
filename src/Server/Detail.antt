-- ===== src/Server/Detail.antt =====
-- The endpoints that show one document and its content: get and content of
-- internal/server/dochandler.go.
pub mod Shown
use dumpster.Prelude.{ℕ, String, Bool, not, Option, none, some, List, [], ◌∷◌, ◌+◌}
use dumpster.Prelude.Tests.{if◌then◌else◌}
use dumpster.Prelude.Eq.{◌==◌, nat_eq}
use dumpster.Queue.Types.{Uuid}
use dumpster.Document
use dumpster.Document.{Document, ok, err}
use dumpster.Manifest.{Region, indexed, skipped, failed, other_status}
use dumpster.Server.Documents.{Response, error, json, text, Request, Handler}
use dumpster.Server.Progress.{rejection_reason}

-- `manifestSummary`
pub record Summary : Type 0 where
  pub indexed : ℕ
  pub skipped : ℕ
  pub failed : ℕ

-- `docDetailResponse`
pub record Detail : Type 0 where
  pub document : Document
  pub manifest_summary : Option Summary
  pub rejection_reason : String

-- the counting loop of `get`
unfoldable pub summarize : List Region → Summary
summarize [] = record { indexed = 0; skipped = 0; failed = 0 }
summarize (reg ∷ regs) =
    let rest = summarize regs in
    elim reg.status [
      | indexed ↦ record rest { indexed = rest.indexed + 1 }
      | skipped ↦ record rest { skipped = rest.skipped + 1 }
      | failed ↦ record rest { failed = rest.failed + 1 }
      | other_status s ↦ rest
    ]

abbrev pub summary_of : List Region → Option Summary
summary_of [] = none
summary_of (reg ∷ regs) = some (summarize (reg ∷ regs))

-- What these two endpoints use beside the handler's: the manifest, which may be missing and whose
-- error leaves no regions, and `objects.Get`, `none` for its error.
pub record Reader (W : Type 0) : Type 0 where
  pub manifest : Option (Uuid → Uuid → W → List Region)
  pub objects_get : String → W → Option String

module _ {E W : Type 0} (h : Handler E W) (rd : Reader W) where
  abbrev pub got :
      {A : Type 0} → Uuid → (Document → Response A) → Document.Result Document → Response A
  got kb next (err Document.not_found) = error 404 "document not found"
  got kb next (err (Document.other m)) = error 500 "internal error"
  got kb next (ok doc) = if not (doc.kb_id == kb) then error 404 "document not found" else next doc

  -- How both start: the user, the two IDs, the row, and the check of the knowledge base.
  unfoldable pub read_document :
      {A : Type 0} → Request → (Uuid → Uuid → Document → Response A) → W → Response A
  read_document r next w = elim r.user [
    | none ↦ error 401 "unauthorized"
    | some user ↦ elim r.kb_id [
      | none ↦ error 400 "invalid id"
      | some kb ↦ elim r.doc_id [
        | none ↦ error 400 "invalid id"
        | some id ↦ got kb (next user id) (h.docs.get user id w)
      ]
    ]
  ]

  abbrev pub detail_of : W → Uuid → Uuid → Document → Detail
  detail_of w user id doc = record {
    document = doc;
    manifest_summary = elim rd.manifest [ none ↦ none | some list ↦ summary_of (list user id w) ];
    rejection_reason = rejection_reason h doc w;
  }

  -- `get`
  unfoldable pub get : Request → W → Response Detail
  get r w = read_document r (λ user id doc. json 200 (detail_of w user id doc)) w

  abbrev pub served : Option String → Response Detail
  served none = error 500 "failed to load document content"
  served (some body) = text body

  -- `content`
  unfoldable pub content : Request → W → Response Detail
  content r w = read_document r (λ user id doc. served (rd.objects_get doc.s3_key w)) w
