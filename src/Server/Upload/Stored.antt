-- ===== src/Server/Upload/Stored.antt =====
-- When an upload stores a file: `upload` of internal/server/dochandler.go.
use dumpster.Prelude.{
  String, ◌≡◌, refl, ap, ◌∙◌, ◌⊎◌, inl, inr, Bool, ◌||◌, Option, none, some, List, str_eq,
}
use dumpster.Prelude.Tests.{leb, Bool-cases}
use dumpster.Prelude.Lists.{length}
use dumpster.Queue.Types.{Uuid}
use dumpster.Document
use dumpster.Document.{Document}
use dumpster.Kb
use dumpster.MalwareScan.Scans.{BeginError}
use dumpster.Server.Documents.{Response, json}
use dumpster.Server.Upload.{
  Upload, Form, file, too_large, invalid, missing, Uploader, upload, in_knowledge_base,
  within_quota, parsed, typed, after_create, after_begin, after_put, abandon_upload, after_removal,
  content_type_for,
}

-- Only `put` stores a file, and not where it fails.
pub record IsStorage {W : Type 0} (u : Uploader W) : Type 0 where
  pub files : W → String → Bool
  pub create_frame : (d : Document) (w : W) → files (u.create d w).1 ≡ files w
  pub begin_frame : (d : Document) (w : W) → files (u.begin d w).1 ≡ files w
  pub put_frame :
      (key : String) (f : Upload) (t : String) (w : W) (e : String)
      → (u.put key f t w).0 ≡ some e
      → files (u.put key f t w).1 ≡ files w
  pub delete_frame : (user id : Uuid) (w : W) → files (u.docs.delete user id w).1 ≡ files w
  pub update_frame :
      (user id : Uuid) (s : Document.Status) (w : W)
      → files (u.docs.update_status user id s w).1 ≡ files w
  pub record_frame : (outcome : String) (w : W) → files (u.record_upload outcome w) ≡ files w

module _ {W : Type 0} (u : Uploader W) (storage : IsStorage u) where
  open storage use {
    files, create_frame, begin_frame, put_frame, delete_frame, update_frame, record_frame,
  }

  -- The answer to an upload whose row and pending scan were recorded before its file was stored.
  abbrev pub Accepted : Response Document × W → Type 0
  Accepted o =
      (d x : Document) × (v v' z : W) × (key t : String) × (f : Upload) × (o.0 ≡ json 201 d)
      × (u.create x v ≡ (some d, v'))
      × (u.begin d v' ≡ (none, z))
      × (o.1 ≡ u.record_upload "success" (u.put key f t z).1)

  abbrev Outcome : W → Response Document × W → Type 0
  Outcome w o = (files o.1 ≡ files w) ⊎ Accepted o

  abandon-files : (d : Document) (w : W) → files (abandon_upload u d w) ≡ files w
  unfolding abandon_upload
  abandon-files d w =
      record_frame "failure" _
      ∙ removal (u.docs.delete d.user_id d.id w)
      ∙ delete_frame d.user_id d.id w
    where
      removal : (o : Option Document.Error × W) → files (after_removal u d o) ≡ files o.1
      removal (none, v) = refl
      removal (some e, v) = update_frame d.user_id d.id Document.failed v

  put-Outcome :
      (w : W) (d x : Document) (v v' z : W) (key t : String) (f : Upload) (o : Option String × W)
      → ((e : String) → o.0 ≡ some e → files o.1 ≡ files w)
      → u.create x v ≡ (some d, v')
      → u.begin d v' ≡ (none, z)
      → o.1 ≡ (u.put key f t z).1
      → Outcome w (after_put u d o)
  unfolding after_put
  put-Outcome w d x v v' z key t f (some e, y) kept made begun put =
      inl (abandon-files d y ∙ kept e refl)
  put-Outcome w d x v v' z key t f (none, y) kept made begun put =
      inr (d, x, v, v', z, key, t, f, refl, made, begun, ap (u.record_upload "success") put)

  begin-Outcome :
      (w : W) (key : String) (f : Upload) (t : String) (d x : Document) (v v' : W)
      (o : Option BeginError × W)
      → files o.1 ≡ files w
      → u.create x v ≡ (some d, v')
      → u.begin d v' ≡ o
      → Outcome w (after_begin u key f t d o)
  unfolding after_begin
  begin-Outcome w key f t d x v v' (some e, z) same made begun = inl (abandon-files d z ∙ same)
  begin-Outcome w key f t d x v v' (none, z) same made begun =
      put-Outcome w d x v v' z key t f (u.put key f t z) (λ e bad. put_frame key f t z e bad ∙ same)
        made begun refl

  create-Outcome :
      (w : W) (key : String) (f : Upload) (t : String) (x : Document) (v : W)
      (o : Option Document × W)
      → files o.1 ≡ files w
      → u.create x v ≡ o
      → Outcome w (after_create u key f t o)
  unfolding after_create
  create-Outcome w key f t x v (none, z) same made = inl (record_frame "failure" z ∙ same)
  create-Outcome w key f t x v (some d, z) same made =
      begin-Outcome w key f t d x v z (u.begin d z) (begin_frame d z ∙ same) made refl

  typed-Outcome :
      (user kb fresh : Uuid) (f : Upload) (t : Option String) (w : W)
      → Outcome w (typed u user kb fresh f t w)
  unfolding typed
  typed-Outcome user kb fresh f none w = inl refl
  typed-Outcome user kb fresh f (some t) w =
      create-Outcome w _ f t _ w (u.create _ w) (create_frame _ w) refl

  parsed-Outcome :
      (user kb fresh : Uuid) (form : Form) (w : W) → Outcome w (parsed u user kb fresh form w)
  unfolding parsed
  parsed-Outcome user kb fresh too_large w = inl refl
  parsed-Outcome user kb fresh invalid w = inl refl
  parsed-Outcome user kb fresh missing w = inl refl
  parsed-Outcome user kb fresh (file f) w =
      elim (Bool-cases (str_eq (u.base f.filename) "." || str_eq (u.base f.filename) "")) [
        | inl bad ↦ rw bad (inl refl)
        | inr good ↦
            rw good (typed-Outcome user kb fresh f (content_type_for u (u.base f.filename)) w)
      ]

  within_quota-Outcome :
      (user kb fresh : Uuid) (form : Form) (o : Option (List Document)) (w : W)
      → Outcome w (within_quota u user kb fresh form o w)
  unfolding within_quota
  within_quota-Outcome user kb fresh form none w = inl refl
  within_quota-Outcome user kb fresh form (some existing) w =
      elim (Bool-cases (leb u.max_docs (length existing))) [
        | inl full ↦ rw full (inl refl)
        | inr room ↦ rw room (parsed-Outcome user kb fresh form w)
      ]

  in_knowledge_base-Outcome :
      (user kb fresh : Uuid) (form : Form) (o : Option Kb.Error) (w : W)
      → Outcome w (in_knowledge_base u user kb fresh form o w)
  unfolding in_knowledge_base
  in_knowledge_base-Outcome user kb fresh form (some Kb.not_found) w = inl refl
  in_knowledge_base-Outcome user kb fresh form (some (Kb.other m)) w = inl refl
  in_knowledge_base-Outcome user kb fresh form none w =
      within_quota-Outcome user kb fresh form (u.list_by_user user w) w

  -- An upload stores no file, or answers 201 with a document whose row was created and whose
  -- malware scan was begun, without an error, in the states before the one in which the file was
  -- put. Only `put` stores files, and none where it fails (IsStorage).
  pub upload-stored :
      (user kb : Option Uuid) (fresh : Uuid) (form : Form) (w : W)
      → (files (upload u user kb fresh form w).1 ≡ files w)
        ⊎ Accepted (upload u user kb fresh form w)
  unfolding upload
  upload-stored none kb fresh form w = inl refl
  upload-stored (some user) none fresh form w = inl refl
  upload-stored (some user) (some kb) fresh form w =
      in_knowledge_base-Outcome user kb fresh form (u.kb_get user kb w) w
