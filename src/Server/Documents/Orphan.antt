-- ===== src/Server/Documents/Orphan.antt =====
-- What a delete request leaves in the object store: `delete` of internal/server/dochandler.go removes
-- the object before the row.
use dumpster.Prelude.{
  String, ◌≡◌, refl, sym, ap, subst, ◌∙◌, ◌⊎◌, inl, inr, Bool, true, false, Option, none, some,
}
use dumpster.Prelude.Tests.{nat_beq, nat_beq_iff, Bool-cases, some_eq}
use dumpster.Queue.Types.{Uuid}
use dumpster.Document
use dumpster.Document.{Document, status_beq, processing, IsScoped}
use dumpster.Server.Documents.{
  Request, Handler, has_active_job, delete, delete_document, delete_idle, decremented,
  after_decrement, after_object, after_row,
}
use dumpster.Server.Documents.Guarded.{
  IsApart, with_document-ind, get-row, delete_document-other, decremented-row,
}

-- A successful `Delete` removes the object, and removing a row or counting an outcome stores none.
pub record IsStored {E W : Type 0} (h : Handler E W) : Type 0 where
  pub files : W → String → Bool
  pub gone :
      (key : String) (w : W)
      → (h.objects_delete key w).0 ≡ none
      → files (h.objects_delete key w).1 key ≡ false
  pub delete_frame : (user id : Uuid) (w : W) → files (h.docs.delete user id w).1 ≡ files w
  pub record_frame : (outcome : String) (w : W) → files (h.record_delete outcome w) ≡ files w

module _ {E W : Type 0} (h : Handler E W) (scoped : IsScoped h.docs) (apart : IsApart h scoped.row)
    (stored : IsStored h) where
  open scoped use {row}
  open stored use {files, gone}

  after_row-files : (o : Option Document.Error × W) → files (after_row h o).1 ≡ files o.1
  unfolding after_row
  after_row-files (some e, w) = stored.record_frame "failure" w
  after_row-files (none, w) = stored.record_frame "success" w

  -- Either the row is still there, or its file is gone.
  abbrev Clean : Uuid → Document → W → Type 0
  Clean j d w = (row w j ≡ some d) ⊎ (files w d.s3_key ≡ false)

  after_object-Clean :
      (user id : Uuid) (d : Document) (o : Option String × W)
      → row o.1 id ≡ some d
      → (o.0 ≡ none → files o.1 d.s3_key ≡ false)
      → Clean id d (after_object h user id d o).1
  unfolding after_object
  after_object-Clean user id d (some e, w) at removed = inl (rw (apart.record_frame "failure" w) at)
  after_object-Clean user id d (none, w) at removed =
      inr (
        rw (after_row-files (h.docs.delete user id w), stored.delete_frame user id w)
          (removed refl))

  after_decrement-Clean :
      (user id : Uuid) (d : Document) (o : Option String × W)
      → row o.1 id ≡ some d
      → Clean id d (after_decrement h user id d o).1
  unfolding after_decrement
  after_decrement-Clean user id d (some e, w) at = inl (rw (apart.record_frame "failure" w) at)
  after_decrement-Clean user id d (none, w) at =
      after_object-Clean user id d (h.objects_delete d.s3_key w)
        (rw (apart.objects_frame d.s3_key w) at) (gone d.s3_key w)

  delete_document-Clean :
      (user id : Uuid) (d : Document) (w : W)
      → row w id ≡ some d
      → Clean id d (delete_document h user id d w).1
  unfolding delete_document delete_idle
  delete_document-Clean user id d w at = elim (Bool-cases (status_beq d.status processing)) [
    | inl busy ↦ inl (rw busy at)
    | inr free ↦ rw free (idle (has_active_job h user id w))
  ]
    where
      idle : (o : Option Bool) → Clean id d (delete_idle h user id d o w).1
      idle none = inl (rw (apart.record_frame "failure" w) at)
      idle (some true) = inl at
      idle (some false) =
          after_decrement-Clean user id d (decremented h user id w)
            (rw (decremented-row h scoped apart user id w) at)

  -- After a delete request each document's row is still there, or its file is gone: no file is
  -- left behind without its row. The repository is scoped to its users, the other collaborators
  -- write no rows, and a `Delete` that returns no error removes the object (IsStored).
  pub delete-no_orphan :
      (r : Request) (w : W) (j : Uuid) (d : Document)
      → row w j ≡ some d
      → (row (delete h r w).1 j ≡ some d) ⊎ (files (delete h r w).1 d.s3_key ≡ false)
  unfolding delete
  delete-no_orphan r w j d at =
      with_document-ind h (Clean j d) r (delete_document h) w (inl at) (λ user id doc eu ek ed got.
        elim (Bool-cases (nat_beq j id)) [
          | inr ne ↦ inl (
              delete_document-other h scoped apart user id doc w j d at
                (inl (λ e. cc (ne, (nat_beq_iff j id).1 e))))
          | inl same ↦
              let (at_id, owner) = get-row h.docs scoped user id w doc got in
              let here : j ≡ id = (nat_beq_iff j id).0 same in
              let this : doc ≡ d = some_eq (sym at_id ∙ ap (row w) (sym here) ∙ at) in
              let clean : Clean id d (delete_document h user id d w).1 =
                delete_document-Clean user id d w (sym (ap (row w) here) ∙ at) in
              subst (λ (x : Document). Clean j d (delete_document h user id x w).1) (sym this)
                (subst (λ (i : Uuid). Clean i d (delete_document h user id d w).1) (sym here) clean)
        ])
