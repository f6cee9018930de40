-- ===== src/Server/Documents/Retries.antt =====
-- When the two retry endpoints of internal/server/dochandler.go do anything at all.
use dumpster.Prelude.{◌≡◌, refl, ◌⊎◌, inl, inr, Bool, true, false, Option, none, some}
use dumpster.Prelude.Tests.{Bool-cases}
use dumpster.Queue.Types.{Uuid}
use dumpster.Document.{Document, status_beq, status_beq_iff, indexed, failed, ok}
use dumpster.MalwareScan.Scans.{Rejection, not_rejected, rejected, unknown}
use dumpster.Server.Documents.{
  Request, Handler, has_active_job, retry, retry_entity_extraction, retry_document, retry_idle,
  retry_unrejected, extract_document, extract_idle,
}
use dumpster.Server.Documents.Guarded.{with_document-ind}

module _ {E W : Type 0} (h : Handler E W) where
  -- The document that a request names, as its user gets it.
  abbrev pub Names : Request → W → Uuid → Uuid → Document → Type 0
  Names r w user id d =
      (r.user ≡ some user)
      × (r.kb_id ≡ some d.kb_id)
      × (r.doc_id ≡ some id)
      × (h.docs.get user id w ≡ ok d)

  retry_idle-guarded :
      (user id : Uuid) (d : Document) (w : W) (o : Option Bool)
      → ((retry_idle h user id d o w).1 ≡ w)
        ⊎ ((o ≡ some false) × (h.rejection user id w ≡ not_rejected))
  unfolding retry_idle
  retry_idle-guarded user id d w none = inl refl
  retry_idle-guarded user id d w (some true) = inl refl
  retry_idle-guarded user id d w (some false) = unrejected (h.rejection user id w) refl
    where
      unrejected :
          (x : Rejection)
          → h.rejection user id w ≡ x
          → ((retry_unrejected h user id d x w).1 ≡ w)
            ⊎ ((Path (Option Bool) (some false) (some false))
                × (h.rejection user id w ≡ not_rejected))
      unrejected (unknown e) q = inl refl
      unrejected (rejected m) q = inl refl
      unrejected not_rejected q = inr (refl, q)

  retry_document-guarded :
      (user id : Uuid) (d : Document) (w : W)
      → ((retry_document h user id d w).1 ≡ w)
        ⊎ ((d.status ≡ failed)
            × (has_active_job h user id w ≡ some false)
            × (h.rejection user id w ≡ not_rejected))
  unfolding retry_document
  retry_document-guarded user id d w = elim (Bool-cases (status_beq d.status failed)) [
    | inr other ↦ inl (rw other refl)
    | inl bad ↦ rw bad (elim (retry_idle-guarded user id d w (has_active_job h user id w)) [
      | inl same ↦ inl same
      | inr (idle, clean) ↦ inr ((status_beq_iff d.status failed).0 bad, idle, clean)
    ])
  ]

  -- A retry changes nothing, unless it names a document that its user can get in its knowledge
  -- base, that document is failed, the user has no active job for it, and the malware scan did
  -- not reject its file.
  pub retry-guarded :
      (r : Request) (w : W)
      → ((retry h r w).1 ≡ w)
        ⊎ ((user id : Uuid) × (d : Document) × Names r w user id d
            × (d.status ≡ failed)
            × (has_active_job h user id w ≡ some false)
            × (h.rejection user id w ≡ not_rejected))
  unfolding retry
  retry-guarded r w =
      with_document-ind h
        (λ v.
          (v ≡ w)
          ⊎ ((user id : Uuid) × (d : Document) × Names r w user id d
              × (d.status ≡ failed)
              × (has_active_job h user id w ≡ some false)
              × (h.rejection user id w ≡ not_rejected)))
        r (retry_document h) w (inl refl)
        (λ user id d eu ek ed got. elim (retry_document-guarded user id d w) [
          | inl same ↦ inl same
          | inr (bad, idle, clean) ↦ inr (user, id, d, (eu, ek, ed, got), bad, idle, clean)
        ])

  extract_document-guarded :
      (user id : Uuid) (d : Document) (w : W)
      → ((extract_document h user id d w).1 ≡ w)
        ⊎ ((d.status ≡ indexed) × (has_active_job h user id w ≡ some false))
  unfolding extract_document extract_idle
  extract_document-guarded user id d w = elim (Bool-cases (status_beq d.status indexed)) [
    | inr other ↦ inl (rw other refl)
    | inl done ↦
        rw done (idle ((status_beq_iff d.status indexed).0 done) (has_active_job h user id w) refl)
  ]
    where
      idle :
          d.status ≡ indexed
          → (o : Option Bool) → has_active_job h user id w ≡ o
          → ((extract_idle h user id d o w).1 ≡ w)
            ⊎ ((d.status ≡ indexed) × (has_active_job h user id w ≡ some false))
      idle q none e = inl refl
      idle q (some true) e = inl refl
      idle q (some false) e = inr (q, e)

  -- A retry of the entity extraction changes nothing, unless it names a document that its user
  -- can get in its knowledge base, that document is indexed, and the user has no active job for
  -- it.
  pub retry_entity_extraction-guarded :
      (r : Request) (w : W)
      → ((retry_entity_extraction h r w).1 ≡ w)
        ⊎ ((user id : Uuid) × (d : Document) × Names r w user id d
            × (d.status ≡ indexed)
            × (has_active_job h user id w ≡ some false))
  unfolding retry_entity_extraction
  retry_entity_extraction-guarded r w =
      with_document-ind h
        (λ v.
          (v ≡ w)
          ⊎ ((user id : Uuid) × (d : Document) × Names r w user id d
              × (d.status ≡ indexed)
              × (has_active_job h user id w ≡ some false)))
        r (extract_document h) w (inl refl)
        (λ user id d eu ek ed got. elim (extract_document-guarded user id d w) [
          | inl same ↦ inl same
          | inr (done, idle) ↦ inr (user, id, d, (eu, ek, ed, got), done, idle)
        ])
