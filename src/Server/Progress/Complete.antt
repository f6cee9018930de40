-- ===== src/Server/Progress/Complete.antt =====
-- When a document is shown as fully indexed: `enrichPage` of internal/server/dochandler.go.
use dumpster.Prelude.{
  String, ◌≡◌, ◌↔◌, refl, inl, inr, Option, none, some, List, [], ◌∷◌, Memᴰ, arith,
}
use dumpster.Prelude.Tests.{Bool-cases}
use dumpster.Queue.Types.{JobStatus}
use dumpster.Queue.Stage.{active_stage_keys, stage_key_complete}
use dumpster.Queue.Stage.Keys.{active_stage_keys_not_complete}
use dumpster.Queue.Stage.Path.{OffPath, active_stage_keys-OffPath_iff}
use dumpster.Document.{Document, status_beq, status_beq_iff, indexed, failed}
use dumpster.Ingest.{needs_region_classification}
use dumpster.Server.Progress.{Progress, shown_stages, progress_of}

-- The stage keys that are shown as active for a document, none where no progress is shown.
abbrev pub active_of : Option Progress → List String
active_of none = []
active_of (some p) = p.active_stages

shown_stages-complete_iff :
    (d : Document) (keys : List String)
    → ¬ Memᴰ stage_key_complete keys
    → Memᴰ stage_key_complete (shown_stages d keys) ↔ ((d.status ≡ indexed) × (keys ≡ []))
shown_stages-complete_iff d [] ne = elim (Bool-cases (status_beq d.status indexed)) [
  | inl done ↦
      rw done ((λ m. ((status_beq_iff d.status indexed).0 done, refl)), (λ h. Memᴰ.head refl))
  | inr not_yet ↦
      rw not_yet
        ((λ m. elim m [ ]), (λ h. absurd (cc (not_yet, (status_beq_iff d.status indexed).1 h.0))))
]
shown_stages-complete_iff d (k ∷ ks) ne = ((λ m. absurd (ne m)), (λ h. absurd (cc (h.1))))

-- A document is shown at the final stage exactly if it is indexed and each of its active jobs is either of
-- a type that the queue does not know, or a region classification, in another phase than embedding, of
-- a document of a kind that is not classified. So it is shown there where it has no active job, and is
-- not while a job of its pipeline is active.
pub progress_of-complete_iff :
    (d : Document) (jobs : List JobStatus)
    → Memᴰ stage_key_complete (active_of (progress_of d jobs)) ↔ (
        (d.status ≡ indexed)
        × ((job : JobStatus)
            → Memᴰ job jobs
            → OffPath (needs_region_classification d.content_type) job.job_type job.phase))
unfolding progress_of
progress_of-complete_iff d jobs =
    let region = needs_region_classification d.content_type in
    let keys = active_stage_keys region jobs in
    let none_shown = active_stage_keys-OffPath_iff region jobs in
    elim (Bool-cases (status_beq d.status failed)) [
      | inr alive ↦ rw alive (
          let shown =
            shown_stages-complete_iff d keys (active_stage_keys_not_complete region jobs) in
          (
            λ m. let (done, empty) = shown.0 m in (done, none_shown.0 empty),
            λ (done, off). shown.1 (done, none_shown.1 off),
          ))
      | inl dead ↦ rw dead (
        (λ m. elim m [ ]),
        (λ h. absurd (ground (arith, h.0, status_beq_iff d.status failed, dead))),
      )
    ]
