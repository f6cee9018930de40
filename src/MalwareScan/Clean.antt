-- ===== src/MalwareScan/Clean.antt =====
-- `clean` of internal/malwarescan/malwarescan.go, over any collaborators that keep apart.
use dumpster.MalwareScan.Phases.{Barred, Kept, Barred-refuses, succeeded-Kept, IsSeparate}
use dumpster.Prelude.{◌≡◌, ◌≢◌, refl, subst, sym, ap, ◌∙◌, ◌⊎◌, inl, inr, Option, none, some}
use dumpster.Prelude.Tests.{Option-cases}
use dumpster.JobStatus.Lifecycle.{transition_refused}
use dumpster.JobStatus.Contract.{IsAtomic, MoveOutcome}
use dumpster.Queue.Dispatch.Outcome.{written}
use dumpster.JobStatus.{Error, succeeded, transition, not_found, not_active}
use dumpster.Document.{Document}
use dumpster.Ingest
use dumpster.MalwareScan.{Deps, scan_key, scan_attempt, clean, after_clean, started}

module _ {E W : Type 0} (d : Deps E W) (atomic : IsAtomic d.status)
    (apart : IsSeparate d atomic.view) where
  open atomic use {view, mark_succeeded_lem, mark_failed_lem}
  open apart use {
    runs, files, mark_succeeded_frame, mark_failed_frame, delete_frame, update_frame, start_frame,
  }

  started_same : (o : Option E × W) → (started d o).1 ≡ o.1
  unfolding started
  started_same (none, w) = refl
  started_same (some e, w) = refl

  -- What follows the record of a clean scan: on an error nothing happens, else processing starts.
  after_clean-state :
      (doc : Document) (o : Option Error × W)
      → ((o.0 ≢ none) × ((after_clean d doc o).1 ≡ o.1))
        ⊎ ((o.0 ≡ none) × ((after_clean d doc o).1 ≡ (Ingest.start d.publisher doc o.1).1))
  unfolding after_clean
  after_clean-state doc (none, w) = inr (refl, started_same (Ingest.start d.publisher doc w))
  after_clean-state doc (some not_found, w) = inl ((λ h. cc), refl)
  after_clean-state doc (some (not_active s t), w) = inl ((λ h. cc), refl)
  after_clean-state doc (some e, w) = inl ((λ h. cc), refl)

  pub clean-files : (doc : Document) (w : W) → files (clean d doc w).1 ≡ files w
  unfolding clean
  clean-files doc w =
      let o = d.status.mark_succeeded (scan_key doc) scan_attempt w in
      let kept = (mark_succeeded_frame (scan_key doc) scan_attempt w).1 in
      elim (after_clean-state doc o) [
        | inl (e, same) ↦ ap files same ∙ kept
        | inr (e, same) ↦ ap files same ∙ (start_frame doc o.1).0 ∙ kept
      ]

  clean-outcome :
      (doc : Document) (w : W) (o : Option Error × W)
      → MoveOutcome view (scan_key doc) scan_attempt succeeded "" "" w o
      → ((o.0 ≢ none) × (view o.1 (scan_key doc) ≡ view w (scan_key doc)))
        ⊎ (¬ Barred (view w (scan_key doc)) × Kept (view o.1 (scan_key doc)))
  clean-outcome doc w o (inl (r, there, e, h)) =
      let wrote = written view (scan_key doc) _ w o.1 h in
      elim (Option-cases (transition r scan_attempt succeeded "" "").failure) [
        | inl fine ↦ inr (
          (λ b. Barred-refuses r (subst Barred there b) fine),
          subst Kept (sym wrote) (succeeded-Kept r fine),
        )
        | inr (x, bad) ↦
            let same = (transition_refused r scan_attempt succeeded "" "" (λ n. cc (n, bad))).0 in
            inl ((λ n. cc (n, e, bad)), wrote ∙ ap some same ∙ sym there)
      ]
  clean-outcome doc w o (inr (inl (gone, e, h))) = inl ((λ n. cc), h (scan_key doc))
  clean-outcome doc w o (inr (inr (m, e, h))) = inl ((λ n. cc), h (scan_key doc))

  -- A clean result: the files stay; and processing starts only if the scan was not barred, and then the
  -- file is kept from then on.
  pub clean-step :
      (doc : Document) (w : W)
      → ((runs (clean d doc w).1 ≡ runs w)
          × (view (clean d doc w).1 (scan_key doc) ≡ view w (scan_key doc)))
        ⊎ (¬ Barred (view w (scan_key doc)) × Kept (view (clean d doc w).1 (scan_key doc)))
  unfolding clean
  clean-step doc w =
      let key = scan_key doc in
      let o = d.status.mark_succeeded key scan_attempt w in
      let kept = (mark_succeeded_frame key scan_attempt w).0 in
      elim (after_clean-state doc o) [
        | inl (e, same) ↦ elim (clean-outcome doc w o (mark_succeeded_lem key scan_attempt w)) [
          | inl (f, stays) ↦ inl (ap runs same ∙ kept, ap (λ (u : W). view u key) same ∙ stays)
          | inr (free, ends) ↦ inr (free, subst (λ u. Kept (view u key)) (sym same) ends)
        ]
        | inr (e, same) ↦ elim (clean-outcome doc w o (mark_succeeded_lem key scan_attempt w)) [
          | inl (f, stays) ↦ absurd (f e)
          | inr (free, ends) ↦ inr (
            free,
            subst Kept (sym (ap (λ (u : W). view u key) same ∙ (start_frame doc o.1).1)) ends,
          )
        ]
      ]
