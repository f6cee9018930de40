-- ===== src/Queue/Dispatch/Runs.antt =====
-- Which runs a publish of internal/queue/dispatch/dispatch.go hands over.
use dumpster.Queue.Dispatch.Outcome.{IsLinked, next_run, ok_eq, enqueue-started, enqueue-idle}
use dumpster.Prelude.{
  ◌+◌, String, ◌≡◌, ◌≢◌, refl, sym, ap, ◌∙◌, ◌⊎◌, inl, inr, true, Option, none, some, List, [], ◌∷◌,
  ◌++◌,
}
use dumpster.Prelude.Tests.{Bool-cases}
use dumpster.Queue.Types.{Uuid, JobType, JobRun}
use dumpster.JobStatus
use dumpster.JobStatus.{Key, key_eq, Record, Enqueued, active, failed}
use dumpster.JobStatus.Contract.{Result, ok, err, IsAtomic, EnqueueOutcome}
use dumpster.JobStatus.Contract.Attempts.{attempt_of}
use dumpster.Queue.Dispatch.{
  Error, Publisher, run_of, job_key, after_mark, after_dispatch, after_enqueue, publish,
}

module _ {W : Type 0} (p : Publisher W) (atomic : IsAtomic p.status)
    (linked : IsLinked p atomic.view) (t : JobType) (document user : Uuid) where
  open atomic use {view, enqueue_lem}
  open linked use {runs, target_view, target_runs, enqueue_runs, mark_failed_runs}

  -- What a publish did to the list of runs.
  abbrev pub Ran : W → Option Error × W → Type 0
  Ran w (e, u) =
      ((e ≡ none) × (runs u ≡ runs w ++ next_run view t document user w ∷ []))
      ⊎ ((runs u ≡ runs w)
          × ((e ≢ none)
              ⊎ ((r : Record) × (view w (job_key t document user) ≡ some r)
                  × (active r.status ≡ true))))

  mark-runs :
      (m : String) (o : Option JobStatus.Error × W)
      → (runs (after_mark p m o).1 ≡ runs o.1) × ((after_mark p m o).0 ≢ none)
  unfolding after_mark
  mark-runs m (none, u) = (refl, λ h. cc)
  mark-runs m (some x, u) = (refl, λ h. cc)

  dispatch-Ran :
      (w v : W) (o : Option String × W)
      → runs v ≡ runs w
      → let run = next_run view t document user w in
        ((o.0 ≡ none) × (runs o.1 ≡ runs v ++ run ∷ []))
          ⊎ ((m : String) × (o.0 ≡ some m) × (runs o.1 ≡ runs v))
        → Ran w (after_dispatch p run (job_key t document user) o)
  unfolding after_dispatch
  dispatch-Ran w v (none, u) kept (inl (e, h)) =
      inl (refl, h ∙ ap (λ (l : List JobRun). l ++ next_run view t document user w ∷ []) kept)
  dispatch-Ran w v (none, u) kept (inr (m, e, h)) = absurd (cc)
  dispatch-Ran w v (some x, u) kept (inl (e, h)) = absurd (cc)
  dispatch-Ran w v (some x, u) kept (inr (m, e, h)) =
      let (same, bad) =
        mark-runs x (p.status.mark_failed (job_key t document user) _ (p.message _ x) u) in
      inr
        (same ∙ mark_failed_runs (job_key t document user) _ (p.message _ x) u ∙ h ∙ kept, inl bad)

  enqueue-Ran :
      (w : W) (o : Result Enqueued × W)
      → EnqueueOutcome view (job_key t document user) w o
      → runs o.1 ≡ runs w
      → Ran w (after_enqueue p t document user o)
  unfolding after_enqueue
  enqueue-Ran w (err x, u) h kept = inr (kept, inl (λ e. cc))
  enqueue-Ran w (ok q, u) (inr (x, e, h)) kept = absurd (cc)
  enqueue-Ran w (ok q, u) (inl (e, h)) kept =
      let key = job_key t document user in
      let n = attempt_of (view w key) + 1 in
      let same = ok_eq e in
      elim (Bool-cases q.started) [
        | inr idle ↦ rw idle (
            inr (
              kept,
              inr (
                  enqueue-idle (view w key) key
                    (ap (λ (x : Enqueued). x.started) (sym same) ∙ idle)),
            ))
        | inl begun ↦
            let (new, old) =
              enqueue-started (view w key) key
                (ap (λ (x : Enqueued). x.started) (sym same) ∙ begun) in
            let number : q.attempt ≡ n = ap (λ (x : Enqueued). x.attempt) same ∙ new in
            rw (begun, number)
              (dispatch-Ran w u (p.target.dispatch (run_of t document user n) u) kept
                (target_runs (run_of t document user n) u))
      ]

  -- A publish hands over the run of the job's next attempt and returns no error, or it hands over
  -- none; and where it returns no error without handing one over, the job was active before. The
  -- store keeps its contract, and the target writes no status and fails only without taking the
  -- run (IsLinked).
  pub publish-Ran : (w : W) → Ran w (publish p t document user w)
  unfolding publish
  publish-Ran w =
      enqueue-Ran w (p.status.enqueue (job_key t document user) w)
        (enqueue_lem (job_key t document user) w) (enqueue_runs (job_key t document user) w)
