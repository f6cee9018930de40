-- ===== src/Server/Upload.antt =====
-- The upload endpoint: `upload`, `abandonUpload` and `contentTypeFor` of internal/server/dochandler.go.
pub mod Stored
use Prim.Native.String.{◌++◌}
use dumpster.Prelude.{ℕ, String, Bool, ◌||◌, Option, none, some, List, [], ◌∷◌, str_eq}
use dumpster.Prelude.Tests.{if◌then◌else◌, leb}
use dumpster.Prelude.Eq.{string_eq}
use dumpster.Prelude.Map.{Map, lookup}
use dumpster.Prelude.Lists.{length}
use dumpster.Queue.Types.{Uuid}
use dumpster.Document
use dumpster.Document.{Document, pending, failed}
use dumpster.Kb
use dumpster.MalwareScan.Scans.{BeginError}
use dumpster.Server.Documents.{Response, error, json}

-- `allowedContentTypes`
abbrev pub allowed_content_types : Map String String
allowed_content_types =
    (".txt", "text/plain")
    ∷ (".md", "text/markdown")
    ∷ (".pdf", "application/pdf")
    ∷ (".png", "image/png")
    ∷ (".jpg", "image/jpeg")
    ∷ (".jpeg", "image/jpeg")
    ∷ []

-- The file of the form: its name as sent, its size, and its bytes.
pub record Upload : Type 0 where
  pub filename : String
  pub size : ℕ
  pub body : List ℕ

-- What `ParseMultipartForm` and `FormFile` give.
pub data Form : Type 0 where
  too_large : Form
  invalid : Form
  missing : Form
  file : Upload → Form

-- `docHandler`, as far as `upload` uses it. `kb_get` gives the error, if any; `list_by_user` and `create` give
-- `none` for an error. `base` is `path.Base`, `extension` is `path.Ext` in lower case, and `show` prints a
-- UUID. The limits are those of `registerDocRoutes`.
pub record Uploader (W : Type 0) : Type 0 where
  pub kb_get : Uuid → Uuid → W → Option Kb.Error
  pub list_by_user : Uuid → W → Option (List Document)
  pub create : Document → W → Option Document × W
  pub begin : Document → W → Option BeginError × W
  pub put : String → Upload → String → W → Option String × W
  pub docs : Document.Repository W
  pub record_upload : String → W → W
  pub max_docs : ℕ
  pub base : String → String
  pub extension : String → String
  pub show : Uuid → String

module _ {W : Type 0} (u : Uploader W) where
  -- `contentTypeFor`
  unfoldable pub content_type_for : String → Option String
  content_type_for filename = lookup (u.extension filename) allowed_content_types

  abbrev s3_key : Uuid → Uuid → Uuid → String → String
  s3_key user kb fresh filename =
      "documents/"
      ++ (u.show user ++ ("/" ++ (u.show kb ++ ("/" ++ (u.show fresh ++ ("/" ++ filename))))))

  -- The literal passed to `Create`: the fields that it leaves out are zero.
  abbrev new_document : Uuid → Uuid → String → String → String → ℕ → Document
  new_document user kb filename key content_type size = record {
    id = 0;
    kb_id = kb;
    user_id = user;
    filename = filename;
    s3_key = key;
    content_type = content_type;
    size_bytes = size;
    status = pending;
    created_at = 0;
    updated_at = 0;
  }

  after_removal : Document → Option Document.Error × W → W
  after_removal doc (none, w) = w
  after_removal doc (some e, w) = (u.docs.update_status doc.user_id doc.id failed w).1

  -- `abandonUpload`
  unfoldable pub abandon_upload : Document → W → W
  unfolding after_removal
  abandon_upload doc w =
      u.record_upload "failure" (after_removal doc (u.docs.delete doc.user_id doc.id w))

  after_put : Document → Option String × W → Response Document × W
  after_put doc (some e, w) = (error 500 "failed to store file", abandon_upload doc w)
  after_put doc (none, w) = (json 201 doc, u.record_upload "success" w)

  after_begin : String → Upload → String → Document → Option BeginError × W → Response Document × W
  unfolding after_put
  after_begin key f content_type doc (some e, w) =
      (error 500 "failed to start the malware scan", abandon_upload doc w)
  after_begin key f content_type doc (none, w) = after_put doc (u.put key f content_type w)

  after_create : String → Upload → String → Option Document × W → Response Document × W
  unfolding after_begin
  after_create key f content_type (none, w) =
      (error 500 "failed to create document record", u.record_upload "failure" w)
  after_create key f content_type (some doc, w) = after_begin key f content_type doc (u.begin doc w)

  typed : Uuid → Uuid → Uuid → Upload → Option String → W → Response Document × W
  unfolding after_create
  typed user kb fresh f none w =
      (error 422 "unsupported file type; accepted: .txt, .md, .pdf, .png, .jpg", w)
  typed user kb fresh f (some content_type) w =
      let filename = u.base f.filename in
      let key = s3_key user kb fresh filename in
      after_create key f content_type
        (u.create (new_document user kb filename key content_type f.size) w)

  parsed : Uuid → Uuid → Uuid → Form → W → Response Document × W
  unfolding typed
  parsed user kb fresh too_large w = (error 413 "file exceeds the byte limit", w)
  parsed user kb fresh invalid w = (error 400 "invalid multipart form", w)
  parsed user kb fresh missing w = (error 400 "missing file field", w)
  parsed user kb fresh (file f) w =
      let filename = u.base f.filename in
      if str_eq filename "." || str_eq filename ""
      then (error 400 "invalid filename", w)
      else typed user kb fresh f (content_type_for filename) w

  within_quota : Uuid → Uuid → Uuid → Form → Option (List Document) → W → Response Document × W
  unfolding parsed
  within_quota user kb fresh form none w = (error 500 "failed to check document quota", w)
  within_quota user kb fresh form (some existing) w =
      if leb u.max_docs (length existing)
      then (error 422 "session document limit reached", w)
      else parsed user kb fresh form w

  in_knowledge_base : Uuid → Uuid → Uuid → Form → Option Kb.Error → W → Response Document × W
  unfolding within_quota
  in_knowledge_base user kb fresh form (some Kb.not_found) w =
      (error 404 "knowledge base not found", w)
  in_knowledge_base user kb fresh form (some (Kb.other m)) w = (error 500 "internal error", w)
  in_knowledge_base user kb fresh form none w =
      within_quota user kb fresh form (u.list_by_user user w) w

  -- `upload`, on the authenticated user, the parsed ID of the knowledge base, and the `uuid.New()` of the
  -- key.
  unfoldable pub upload : Option Uuid → Option Uuid → Uuid → Form → W → Response Document × W
  unfolding in_knowledge_base
  upload none kb fresh form w = (error 401 "unauthorized", w)
  upload (some user) none fresh form w = (error 400 "invalid id", w)
  upload (some user) (some kb) fresh form w =
      in_knowledge_base user kb fresh form (u.kb_get user kb w) w
