-- ===== src/MalwareScan/Exclusive.antt =====
-- A scanned file is either processed or deleted, never both: internal/malwarescan/malwarescan.go over
-- any sequence of scan results and timeouts for one document.
use dumpster.MalwareScan.Phases.{Barred, Kept, IsSeparate}
use dumpster.MalwareScan.Clean.{clean-files, clean-step}
use dumpster.MalwareScan.Reject.{reject-runs, reject-step}
use dumpster.Prelude.{String, ◌≡◌, refl, subst, sym, ◌∙◌, ◌⊎◌, inl, inr, Bool, List, [], ◌∷◌}
use dumpster.JobStatus.Contract.{IsAtomic}
use dumpster.Document.{Document}
use dumpster.MalwareScan
use dumpster.MalwareScan.{Deps, scan_key}

-- One report on a document: a clean scan, or a rejection by a scan or a timeout.
pub data Report : Type 0 where
  clean : Report
  reject : String → Bool → Report

module _ {E W : Type 0} (d : Deps E W) where
  unfoldable pub report : Document → Report → W → W
  report doc clean w = (MalwareScan.clean d doc w).1
  report doc (reject reason from_scan) w = (MalwareScan.reject d doc reason from_scan w).1

  unfoldable pub reports : Document → List Report → W → W
  reports doc [] w = w
  reports doc (r ∷ rs) w = reports doc rs (report doc r w)

module _ {E W : Type 0} (d : Deps E W) (atomic : IsAtomic d.status)
    (apart : IsSeparate d atomic.view) where
  open atomic use {view, mark_succeeded_lem, mark_failed_lem}
  open apart use {
    runs, files, mark_succeeded_frame, mark_failed_frame, delete_frame, update_frame, start_frame,
  }

  report-Barred :
      (doc : Document) (r : Report) (w : W)
      → Barred (view w (scan_key doc))
      → (runs (report d doc r w) ≡ runs w) × Barred (view (report d doc r w) (scan_key doc))
  unfolding report
  report-Barred doc clean w b = elim (clean-step d atomic apart doc w) [
    | inl (same, stays) ↦ (same, subst Barred (sym stays) b)
    | inr (free, ends) ↦ absurd (free b)
  ]
  report-Barred doc (reject reason from_scan) w b =
      let quiet = reject-runs d atomic apart doc reason from_scan w in
      elim (reject-step d atomic apart doc reason from_scan w) [
        | inl (same, stays) ↦ (quiet, subst Barred (sym stays) b)
        | inr (free, ends) ↦ (quiet, ends)
      ]

  report-Kept :
      (doc : Document) (r : Report) (w : W)
      → Kept (view w (scan_key doc))
      → (files (report d doc r w) ≡ files w) × Kept (view (report d doc r w) (scan_key doc))
  unfolding report
  report-Kept doc clean w k =
      let quiet = clean-files d atomic apart doc w in
      elim (clean-step d atomic apart doc w) [
        | inl (same, stays) ↦ (quiet, subst Kept (sym stays) k)
        | inr (free, ends) ↦ (quiet, ends)
      ]
  report-Kept doc (reject reason from_scan) w k =
      elim (reject-step d atomic apart doc reason from_scan w) [
        | inl (same, stays) ↦ (same, subst Kept (sym stays) k)
        | inr (free, ends) ↦ absurd (free k)
      ]

  reports-runs :
      (doc : Document) (rs : List Report) (w : W)
      → Barred (view w (scan_key doc))
      → runs (reports d doc rs w) ≡ runs w
  unfolding reports
  reports-runs doc [] w b = refl
  reports-runs doc (r ∷ rs) w b =
      let (same, after) = report-Barred doc r w b in
      reports-runs doc rs (report d doc r w) after ∙ same

  reports-files :
      (doc : Document) (rs : List Report) (w : W)
      → Kept (view w (scan_key doc))
      → files (reports d doc rs w) ≡ files w
  unfolding reports
  reports-files doc [] w k = refl
  reports-files doc (r ∷ rs) w k =
      let (same, after) = report-Kept doc r w k in
      reports-files doc rs (report d doc r w) after ∙ same

  -- Whatever reports come in for a document, clean scans, rejections and timeouts, in whatever
  -- order and however often, they do not both start processing and delete files: the list of
  -- started runs or the stored files are as before. The status store keeps its contract, and the
  -- collaborators write nothing of each other's (IsSeparate).
  pub reports_exclusive :
      (doc : Document) (rs : List Report) (w : W)
      → (runs (reports d doc rs w) ≡ runs w) ⊎ (files (reports d doc rs w) ≡ files w)
  unfolding reports report
  reports_exclusive doc [] w = inl refl
  reports_exclusive doc (clean ∷ rs) w = elim (clean-step d atomic apart doc w) [
    | inl (same, stays) ↦ elim (reports_exclusive doc rs (MalwareScan.clean d doc w).1) [
      | inl r ↦ inl (r ∙ same)
      | inr f ↦ inr (f ∙ clean-files d atomic apart doc w)
    ]
    | inr (free, ends) ↦
        inr (
          reports-files doc rs (MalwareScan.clean d doc w).1 ends
          ∙ clean-files d atomic apart doc w)
  ]
  reports_exclusive doc (reject reason from_scan ∷ rs) w =
      elim (reject-step d atomic apart doc reason from_scan w) [
        | inl (same, stays) ↦
            elim (reports_exclusive doc rs (MalwareScan.reject d doc reason from_scan w).1) [
              | inl r ↦ inl (r ∙ reject-runs d atomic apart doc reason from_scan w)
              | inr f ↦ inr (f ∙ same)
            ]
        | inr (free, ends) ↦ inl (
            reports-runs doc rs (MalwareScan.reject d doc reason from_scan w).1 ends
            ∙ reject-runs d atomic apart doc reason from_scan w)
      ]
