-- ===== src/Server/Documents/Guarded.antt =====
-- What guards the document endpoints of internal/server/dochandler.go: whose document they may change,
-- and when.
use dumpster.Prelude.{
  String, ◌≡◌, ◌≢◌, refl, sym, ap, ◌∙◌, ◌⊎◌, inl, inr, Bool, true, false, Option, none, some, arith,
}
use dumpster.Prelude.Tests.{nat_beq, nat_beq_iff, Bool-cases, Option-cases, some_eq}
use dumpster.Queue.Types.{Uuid}
use dumpster.Document
use dumpster.Document.{
  Document, status_beq, status_beq_iff, pending, processing, indexed, failed, ok, err, own,
  IsScoped,
}
use dumpster.Ingest
use dumpster.Server.Documents.{
  Response, Request, Handler, with_document, has_active_job, in_kb, delete, delete_document,
  delete_idle, decremented, after_decrement, after_object, after_row,
}

-- The collaborators but the repository write no document row.
pub record IsApart {E W : Type 0} (h : Handler E W) (row : W → Uuid → Option Document)
    : Type 0 where
  pub objects_frame : (key : String) (w : W) → row (h.objects_delete key w).1 ≡ row w
  pub start_frame : (d : Document) (w : W) → row (Ingest.start h.publisher d w).1 ≡ row w
  pub decrement_frame :
      (f : Uuid → Uuid → W → Option String × W)
      → h.decrement ≡ some f
      → (user id : Uuid) (w : W) → row (f user id w).1 ≡ row w
  pub record_frame : (outcome : String) (w : W) → row (h.record_delete outcome w) ≡ row w

module _ {E W : Type 0} (h : Handler E W) where
  in_kb-ind :
      (P : W → Type 0) (kb : Uuid) (next : Document → W → Response Document × W)
      (o : Document.Result Document) (w : W)
      → P w
      → ((d : Document) → kb ≡ d.kb_id → o ≡ ok d → P (next d w).1)
      → P (in_kb h kb next o w).1
  unfolding in_kb
  in_kb-ind P kb next (err e) w still step = still
  in_kb-ind P kb next (ok d) w still step = elim (Bool-cases (nat_beq d.kb_id kb)) [
    | inl same ↦ rw same (step d (sym ((nat_beq_iff d.kb_id kb).0 same)) refl)
    | inr other ↦ rw other still
  ]

  -- A handler that starts with `with_document` has an effect only on a document that the request's user
  -- can get, in the request's knowledge base.
  pub with_document-ind :
      (P : W → Type 0) (r : Request) (next : Uuid → Uuid → Document → W → Response Document × W)
      (w : W)
      → P w
      → ((user id : Uuid) (d : Document)
          → r.user ≡ some user
          → r.kb_id ≡ some d.kb_id
          → r.doc_id ≡ some id
          → h.docs.get user id w ≡ ok d
          → P (next user id d w).1)
      → P (with_document h r next w).1
  unfolding with_document
  with_document-ind P r next w still step = elim (Option-cases r.user) [
    | inl nu ↦ rw (nu, with_document) still
    | inr (user, eu) ↦ elim (Option-cases r.kb_id) [
      | inl nk ↦ rw (eu, nk, with_document) still
      | inr (kb, ek) ↦ elim (Option-cases r.doc_id) [
        | inl nd ↦ rw (eu, ek, nd, with_document) still
        | inr (id, ed) ↦
            rw (eu, ek, ed, with_document)
              (in_kb-ind P kb (next user id) (h.docs.get user id w) w still
                (λ d k got. step user id d eu (ek ∙ ap some k) ed got))
      ]
    ]
  ]

module _ {W : Type 0} (docs : Document.Repository W) (scoped : IsScoped docs) where
  -- What a user gets is a row of theirs.
  pub get-row :
      (user id : Uuid) (w : W) (d : Document)
      → docs.get user id w ≡ ok d
      → (scoped.row w id ≡ some d) × (d.user_id ≡ user)
  get-row user id w d got = elim (scoped.get_lem user id w) [
    | inr (m, e) ↦ absurd (cc)
    | inl e ↦ owned (scoped.row w id) (sym e ∙ got)
  ]
    where
      owned :
          (o : Option Document)
          → Path
              (Document.Result Document)
              (elim (own user o) [ none ↦ err Document.not_found | some x ↦ ok x ])
              (ok d)
          → (o ≡ some d) × (d.user_id ≡ user)
      owned none e = absurd (cc)
      owned (some x) e = ground arith

module _ {E W : Type 0} (h : Handler E W) (scoped : IsScoped h.docs)
    (apart : IsApart h scoped.row) where
  open scoped use {row, update_status_frame, delete_frame}
  open apart use {objects_frame, start_frame, decrement_frame, record_frame}

  pub decremented-row : (user id : Uuid) (w : W) → row (decremented h user id w).1 ≡ row w
  unfolding decremented
  decremented-row user id w = elim (Option-cases h.decrement) [
    | inl gone ↦ rw (gone, decremented) refl
    | inr (f, e) ↦ rw (e, decremented) (decrement_frame f e user id w)
  ]

  after_row-row : (o : Option Document.Error × W) → row (after_row h o).1 ≡ row o.1
  unfolding after_row
  after_row-row (some e, w) = record_frame "failure" w
  after_row-row (none, w) = record_frame "success" w

  -- The row `j` is not the one that `user` names by `id`.
  abbrev IsOther : Uuid → Uuid → Uuid → Document → Type 0
  IsOther user id j d = (j ≢ id) ⊎ (d.user_id ≢ user)

  after_object-other :
      (user id : Uuid) (doc : Document) (o : Option String × W) (j : Uuid) (d : Document)
      → row o.1 j ≡ some d
      → IsOther user id j d
      → row (after_object h user id doc o).1 j ≡ some d
  unfolding after_object
  after_object-other user id doc (some e, w) j d at other = rw (record_frame "failure" w) at
  after_object-other user id doc (none, w) j d at other =
      rw (after_row-row (h.docs.delete user id w)) (delete_frame user id w j d at other)

  after_decrement-other :
      (user id : Uuid) (doc : Document) (o : Option String × W) (j : Uuid) (d : Document)
      → row o.1 j ≡ some d
      → IsOther user id j d
      → row (after_decrement h user id doc o).1 j ≡ some d
  unfolding after_decrement
  after_decrement-other user id doc (some e, w) j d at other = rw (record_frame "failure" w) at
  after_decrement-other user id doc (none, w) j d at other =
      after_object-other user id doc (h.objects_delete doc.s3_key w) j d
        (rw (objects_frame doc.s3_key w) at) other

  -- When `delete` goes on to remove the document that it got.
  abbrev MayDelete : Uuid → Uuid → Document → W → Type 0
  MayDelete user id doc w = (doc.status ≢ processing) × (has_active_job h user id w ≡ some false)

  delete_document-kept :
      (user id : Uuid) (doc : Document) (w : W) (j : Uuid) (d : Document)
      → row w j ≡ some d
      → (row (delete_document h user id doc w).1 j ≡ some d) ⊎ MayDelete user id doc w
  unfolding delete_document delete_idle
  delete_document-kept user id doc w j d at = elim (Bool-cases (status_beq doc.status processing)) [
    | inl busy ↦ inl (rw busy at)
    | inr free ↦ rw free (
        idle (has_active_job h user id w) refl
          (λ e. cc (free, (status_beq_iff doc.status processing).1 e)))
  ]
    where
      idle :
          (o : Option Bool)
          → has_active_job h user id w ≡ o
          → (doc.status ≢ processing)
          → (row (delete_idle h user id doc o w).1 j ≡ some d) ⊎ MayDelete user id doc w
      idle none e ne = inl (rw (record_frame "failure" w) at)
      idle (some true) e ne = inl at
      idle (some false) e ne = inr (ne, e)

  pub delete_document-other :
      (user id : Uuid) (doc : Document) (w : W) (j : Uuid) (d : Document)
      → row w j ≡ some d
      → IsOther user id j d
      → row (delete_document h user id doc w).1 j ≡ some d
  unfolding delete_document delete_idle
  delete_document-other user id doc w j d at other =
      elim (Bool-cases (status_beq doc.status processing)) [
        | inl busy ↦ rw busy at
        | inr free ↦ rw free (idle (has_active_job h user id w))
      ]
    where
      idle : (o : Option Bool) → row (delete_idle h user id doc o w).1 j ≡ some d
      idle none = rw (record_frame "failure" w) at
      idle (some true) = at
      idle (some false) =
          after_decrement-other user id doc (decremented h user id w) j d
            (rw (decremented-row user id w) at) other

  -- A document's row outlives a delete request, unless the request is its owner's and names it in
  -- its knowledge base, it is not being indexed, and the user has no active job for it. The
  -- repository is scoped to its users, and the other collaborators write no rows (IsApart).
  pub delete-guarded :
      (r : Request) (w : W) (j : Uuid) (d : Document)
      → row w j ≡ some d
      → (row (delete h r w).1 j ≡ some d)
        ⊎ ((r.user ≡ some d.user_id)
            × (r.kb_id ≡ some d.kb_id)
            × (r.doc_id ≡ some j)
            × (d.status ≢ processing)
            × (has_active_job h d.user_id j w ≡ some false))
  unfolding delete
  delete-guarded r w j d at =
      with_document-ind h
        (λ v.
          (row v j ≡ some d)
          ⊎ ((r.user ≡ some d.user_id)
              × (r.kb_id ≡ some d.kb_id)
              × (r.doc_id ≡ some j)
              × (d.status ≢ processing)
              × (has_active_job h d.user_id j w ≡ some false)))
        r (delete_document h) w (inl at)
        (λ user id doc eu ek ed got. elim (Bool-cases (nat_beq j id)) [
          | inr ne ↦ inl (
              delete_document-other user id doc w j d at
                (inl (λ e. cc (ne, (nat_beq_iff j id).1 e))))
          | inl same ↦
              let (at_id, owner) = get-row h.docs scoped user id w doc got in
              let this : doc ≡ d =
                some_eq (sym at_id ∙ ap (row w) (sym ((nat_beq_iff j id).0 same)) ∙ at) in
              elim (delete_document-kept user id doc w j d at) [
                | inl kept ↦ inl kept
                | inr (ne, idle) ↦
                    let here : id ≡ j = sym ((nat_beq_iff j id).0 same) in
                    let mine : user ≡ d.user_id =
                      sym owner ∙ ap (λ (x : Document). x.user_id) this in
                    inr (
                      eu ∙ ap some mine,
                      ek ∙ ap (λ (x : Document). some x.kb_id) this,
                      ed ∙ ap some here,
                      (λ e. ne (ap (λ (x : Document). x.status) this ∙ e)),
                      rw (← mine, ← here) idle,
                    )
              ]
        ])
