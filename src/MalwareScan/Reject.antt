-- ===== src/MalwareScan/Reject.antt =====
-- `reject` of internal/malwarescan/malwarescan.go, over any collaborators that keep apart.
use dumpster.MalwareScan.Phases.{
  Barred, Kept, Kept-refuses, failed-Barred, transition-ne-not_found, IsSeparate,
}
use dumpster.Prelude.{
  String, ◌≡◌, ◌≢◌, refl, subst, sym, ap, ◌∙◌, ◌⊎◌, inl, inr, Bool, true, false, Option, none, some,
}
use dumpster.Prelude.Tests.{Option-cases}
use dumpster.JobStatus.Lifecycle.{transition_refused}
use dumpster.JobStatus.Contract.{IsAtomic, MoveOutcome}
use dumpster.Queue.Dispatch.Outcome.{written}
use dumpster.JobStatus.{Error, failed, transition, not_found, not_active}
use dumpster.Document
use dumpster.Document.{Document}
use dumpster.MalwareScan.{
  Deps, scan_key, scan_attempt, reject, after_fail, remove_file, after_delete, after_update,
}

module _ {E W : Type 0} (d : Deps E W) (atomic : IsAtomic d.status)
    (apart : IsSeparate d atomic.view) where
  open atomic use {view, mark_succeeded_lem, mark_failed_lem}
  open apart use {
    runs, files, mark_succeeded_frame, mark_failed_frame, delete_frame, update_frame, start_frame,
  }

  update-frame : (doc : Document) (o : Option Document.Error × W) → (after_update d o).1 ≡ o.1
  unfolding after_update
  update-frame doc (none, w) = refl
  update-frame doc (some e, w) = refl

  delete-frame :
      (doc : Document) (o : Option String × W)
      → (runs (after_delete d doc o).1 ≡ runs o.1)
        × (view (after_delete d doc o).1 (scan_key doc) ≡ view o.1 (scan_key doc))
  unfolding after_delete
  delete-frame doc (some e, w) = (refl, refl)
  delete-frame doc (none, w) =
      let o = d.docs.update_status doc.user_id doc.id Document.failed w in
      let f = update_frame doc.user_id doc.id Document.failed w doc in
      (
        ap runs (update-frame doc o) ∙ f.0,
        ap (λ (u : W). view u (scan_key doc)) (update-frame doc o) ∙ f.2,
      )

  remove-frame :
      (doc : Document) (w : W)
      → (runs (remove_file d doc w).1 ≡ runs w)
        × (view (remove_file d doc w).1 (scan_key doc) ≡ view w (scan_key doc))
  unfolding remove_file
  remove-frame doc w =
      let f = delete-frame doc (d.objects_delete doc.s3_key w) in
      let g = delete_frame doc.s3_key w doc in (f.0 ∙ g.0, f.1 ∙ g.1)

  -- What follows the record of a rejection.
  after_fail-state :
      (doc : Document) (from_scan : Bool) (o : Option Error × W)
      → ((o.0 ≡ none) × ((after_fail d doc from_scan o).1 ≡ (remove_file d doc o.1).1))
        ⊎ ((o.0 ≡ some not_found)
            × (((after_fail d doc from_scan o).1 ≡ o.1)
                ⊎ ((after_fail d doc from_scan o).1 ≡ (remove_file d doc o.1).1)))
        ⊎ ((o.0 ≢ none) × (o.0 ≢ some not_found) × ((after_fail d doc from_scan o).1 ≡ o.1))
  unfolding after_fail
  after_fail-state doc from_scan (none, w) = inl (refl, refl)
  after_fail-state doc true (some not_found, w) = inr (inl (refl, inr refl))
  after_fail-state doc false (some not_found, w) = inr (inl (refl, inl refl))
  after_fail-state doc from_scan (some (not_active s t), w) = inr (inr ((λ h. cc), (λ h. cc), refl))
  after_fail-state doc from_scan (some e, w) = inr (inr ((λ h. cc), (λ h. cc), refl))

  after_fail-view :
      (doc : Document) (from_scan : Bool) (o : Option Error × W)
      → view (after_fail d doc from_scan o).1 (scan_key doc) ≡ view o.1 (scan_key doc)
  after_fail-view doc from_scan o = elim (after_fail-state doc from_scan o) [
    | inl (e, same) ↦ ap (λ (u : W). view u (scan_key doc)) same ∙ (remove-frame doc o.1).1
    | inr (inl (e, inl same)) ↦ ap (λ (u : W). view u (scan_key doc)) same
    | inr (inl (e, inr same)) ↦
        ap (λ (u : W). view u (scan_key doc)) same ∙ (remove-frame doc o.1).1
    | inr (inr (e, f, same)) ↦ ap (λ (u : W). view u (scan_key doc)) same
  ]

  pub reject-runs :
      (doc : Document) (reason : String) (from_scan : Bool) (w : W)
      → runs (reject d doc reason from_scan w).1 ≡ runs w
  unfolding reject
  reject-runs doc reason from_scan w =
      let o = d.status.mark_failed (scan_key doc) scan_attempt reason w in
      let kept = (mark_failed_frame (scan_key doc) scan_attempt reason w).0 in
      elim (after_fail-state doc from_scan o) [
        | inl (e, same) ↦ ap runs same ∙ (remove-frame doc o.1).0 ∙ kept
        | inr (inl (e, inl same)) ↦ ap runs same ∙ kept
        | inr (inl (e, inr same)) ↦ ap runs same ∙ (remove-frame doc o.1).0 ∙ kept
        | inr (inr (e, f, same)) ↦ ap runs same ∙ kept
      ]

  reject-outcome :
      (doc : Document) (reason : String) (w : W) (o : Option Error × W)
      → MoveOutcome view (scan_key doc) scan_attempt failed "" reason w o
      → ((o.0 ≢ none) × (o.0 ≢ some not_found) × (view o.1 (scan_key doc) ≡ view w (scan_key doc)))
        ⊎ (¬ Kept (view w (scan_key doc)) × Barred (view o.1 (scan_key doc)))
  reject-outcome doc reason w o (inl (r, there, e, h)) =
      let wrote = written view (scan_key doc) _ w o.1 h in
      elim (Option-cases (transition r scan_attempt failed "" reason).failure) [
        | inl fine ↦ inr (
          (λ k. elim (Kept-refuses r reason (subst Kept there k)) [
            | inl x ↦ cc (x, fine)
            | inr x ↦ cc (x, fine)
          ]),
          subst Barred (sym wrote) (failed-Barred r reason fine),
        )
        | inr (x, bad) ↦
            let same = (transition_refused r scan_attempt failed "" reason (λ n. cc (n, bad))).0 in
            inl (
              (λ n. cc (n, e, bad)),
              (λ n. transition-ne-not_found r scan_attempt failed "" reason (sym e ∙ n)),
              wrote ∙ ap some same ∙ sym there,
            )
      ]
  reject-outcome doc reason w o (inr (inl (gone, e, h))) =
      inr ((λ k. subst Kept gone k), subst Barred (sym (h (scan_key doc) ∙ gone)) tt)
  reject-outcome doc reason w o (inr (inr (m, e, h))) =
      inl ((λ n. cc (n, e)), (λ n. cc (n, e)), h (scan_key doc))

  pub reject-step :
      (doc : Document) (reason : String) (from_scan : Bool) (w : W)
      → ((files (reject d doc reason from_scan w).1 ≡ files w)
          × (view (reject d doc reason from_scan w).1 (scan_key doc) ≡ view w (scan_key doc)))
        ⊎ (¬ Kept (view w (scan_key doc))
            × Barred (view (reject d doc reason from_scan w).1 (scan_key doc)))
  unfolding reject
  reject-step doc reason from_scan w =
      let key = scan_key doc in
      let o = d.status.mark_failed key scan_attempt reason w in
      let kept = (mark_failed_frame key scan_attempt reason w).1 in
      elim (reject-outcome doc reason w o (mark_failed_lem key scan_attempt reason w)) [
        | inl (e, f, stays) ↦ elim (after_fail-state doc from_scan o) [
          | inl (x, same) ↦ absurd (e x)
          | inr (inl (x, same)) ↦ absurd (f x)
          | inr (inr (x, y, same)) ↦
              inl (ap files same ∙ kept, ap (λ (u : W). view u key) same ∙ stays)
        ]
        | inr (free, ends) ↦ inr (free, subst Barred (sym (after_fail-view doc from_scan o)) ends)
      ]
