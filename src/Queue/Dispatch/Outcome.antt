-- ===== src/Queue/Dispatch/Outcome.antt =====
-- What a publish of internal/queue/dispatch/dispatch.go leaves behind, over any store that keeps its
-- contract and any target that leaves the store alone.
use dumpster.Prelude.{
  ℕ, ◌+◌, String, ◌≡◌, refl, sym, ap, ◌∙◌, ◌⊎◌, inl, inr, true, false, Option, none, some, List, [],
  ◌∷◌, ◌++◌, arith,
}
use dumpster.Prelude.Tests.{Bool-cases, some_eq}
use dumpster.Prelude.Eq.{==_refl}
use dumpster.Queue.Types.{Uuid, JobType, JobRun}
use dumpster.JobStatus
use dumpster.JobStatus.{Key, key_eq, Record, Enqueued, active, failed}
use dumpster.JobStatus.Contract.{Result, ok, err, IsAtomic, EnqueueOutcome, MoveOutcome, Writes}
use dumpster.JobStatus.Contract.Attempts.{attempt_of}
use dumpster.Queue.Dispatch.{
  Error, dispatch_failed, Publisher, run_of, job_key, after_mark, after_dispatch, after_enqueue,
  publish,
}

-- The target hands a run over, which `runs` lists, or fails; it does not write the status store, and
-- the store does not start runs.
pub record IsLinked {W : Type 0} (p : Publisher W) (view : W → Key → Option Record) : Type 0 where
  pub runs : W → List JobRun
  pub target_view : (run : JobRun) (w : W) (k : Key) → view (p.target.dispatch run w).1 k ≡ view w k
  pub target_runs :
      (run : JobRun) (w : W)
      → (((p.target.dispatch run w).0 ≡ none)
          × (runs (p.target.dispatch run w).1 ≡ runs w ++ run ∷ []))
        ⊎ ((m : String) × ((p.target.dispatch run w).0 ≡ some m)
            × (runs (p.target.dispatch run w).1 ≡ runs w))
  pub enqueue_runs : (k : Key) (w : W) → runs (p.status.enqueue k w).1 ≡ runs w
  pub mark_failed_runs :
      (k : Key) (n : ℕ) (m : String) (w : W) → runs (p.status.mark_failed k n m w).1 ≡ runs w

-- The run of the job's next attempt.
abbrev pub next_run : {W : Type 0} → (W → Key → Option Record) → JobType → Uuid → Uuid → W → JobRun
next_run view t document user w =
    run_of t document user (attempt_of (view w (job_key t document user)) + 1)

pub written :
    {W : Type 0} (view : W → Key → Option Record) (key : Key) (r : Option Record) (s t : W)
    → Writes view key r s t
    → view t key ≡ r
written view key r s t h = rw (h key, ==_refl key) refl

pub ok_eq : {A : Type 0} {a b : A} → ok a ≡ ok b → a ≡ b
ok_eq h = cc

-- After `Enqueue` the record is active, and a started run is a pending record of that attempt.
pub enqueue-active :
    (cur : Option Record) (key : Key) → active (JobStatus.enqueue cur key).0.status ≡ true
unfolding JobStatus.enqueue JobStatus.fresh
enqueue-active none key = refl
enqueue-active (some r) key = ground arith

pub enqueue-started :
    (cur : Option Record) (key : Key)
    → (JobStatus.enqueue cur key).1.started ≡ true
    → ((JobStatus.enqueue cur key).1.attempt ≡ attempt_of cur + 1)
      × ((JobStatus.enqueue cur key).0.attempt ≡ (JobStatus.enqueue cur key).1.attempt)
unfolding JobStatus.enqueue JobStatus.fresh
enqueue-started none key h = (refl, refl)
enqueue-started (some r) key h = ground arith

-- A run is not started only where the record was active before.
pub enqueue-idle :
    (cur : Option Record) (key : Key)
    → (JobStatus.enqueue cur key).1.started ≡ false
    → (r : Record) × (cur ≡ some r) × (active r.status ≡ true)
unfolding JobStatus.enqueue JobStatus.fresh
enqueue-idle none key h = absurd (cc)
enqueue-idle (some r) key h = (r, refl, ground arith)

-- A current attempt that is active can be failed, with the reason given.
pub fail_current :
    (r : Record) (n : ℕ) (reason : String)
    → active r.status ≡ true
    → r.attempt ≡ n
    → ((JobStatus.transition r n failed "" reason).next.status ≡ failed)
      × ((JobStatus.transition r n failed "" reason).next.last_error ≡ reason)
      × ((JobStatus.transition r n failed "" reason).next.attempt ≡ n)
unfolding JobStatus.transition
fail_current r n reason a e = ground arith

module _ {W : Type 0} (p : Publisher W) (atomic : IsAtomic p.status)
    (linked : IsLinked p atomic.view) where
  open atomic use {view, enqueue_lem, mark_failed_lem}
  open linked use {runs, target_view, target_runs, enqueue_runs, mark_failed_runs}

  -- The record at `key` after the publish, by its result: active on success, failed with the dispatch's
  -- error as the reason where that was recorded.
  abbrev pub Left : JobRun → Key → Option Error × W → Type 0
  Left run key (none, w) = (r : Record) × (view w key ≡ some r) × (active r.status ≡ true)
  Left run key (some (dispatch_failed m), w) =
      (r : Record) × (view w key ≡ some r)
      × (r.status ≡ failed)
      × (r.last_error ≡ p.message run m)
      × (r.attempt ≡ run.attempt)
  Left run key (some _, w) = Unit

  mark-Left :
      (run : JobRun) (key : Key) (m : String) (w : W) (r : Record) (o : Option JobStatus.Error × W)
      → MoveOutcome view key run.attempt failed "" (p.message run m) w o
      → view w key ≡ some r
      → active r.status ≡ true
      → r.attempt ≡ run.attempt
      → Left run key (after_mark p m o)
  unfolding after_mark
  mark-Left run key m w r (none, t) (inl (q, there, e, h)) v a n =
      let same : q ≡ r = some_eq (sym there ∙ v) in
      let (f, l, k) =
        fail_current q run.attempt (p.message run m) (ap (λ (x : Record). active x.status) same ∙ a)
          (ap (λ (x : Record). x.attempt) same ∙ n) in
      (
        (JobStatus.transition q run.attempt failed "" (p.message run m)).next,
        written view key _ w t h,
        f,
        l,
        k,
      )
  mark-Left run key m w r (none, t) (inr (inl (gone, e, h))) v a n = absurd (cc)
  mark-Left run key m w r (none, t) (inr (inr (x, e, h))) v a n = absurd (cc)
  mark-Left run key m w r (some x, t) h v a n = tt

  dispatch-Left :
      (run : JobRun) (key : Key) (w : W) (r : Record) (o : Option String × W)
      → view o.1 key ≡ view w key
      → view w key ≡ some r
      → active r.status ≡ true
      → r.attempt ≡ run.attempt
      → Left run key (after_dispatch p run key o)
  unfolding after_dispatch
  dispatch-Left run key w r (none, t) kept v a n = (r, kept ∙ v, a)
  dispatch-Left run key w r (some m, t) kept v a n =
      mark-Left run key m t r (p.status.mark_failed key run.attempt (p.message run m) t)
        (mark_failed_lem key run.attempt (p.message run m) t) (kept ∙ v) a n

module _ {W : Type 0} (p : Publisher W) (atomic : IsAtomic p.status)
    (linked : IsLinked p atomic.view) (t : JobType) (document user : Uuid) where
  open atomic use {view, enqueue_lem}
  open linked use {runs, target_view, target_runs, enqueue_runs, mark_failed_runs}

  enqueue-Left :
      (w : W) (o : Result Enqueued × W)
      → EnqueueOutcome view (job_key t document user) w o
      → Left p atomic linked
          (next_run view t document user w)
          (job_key t document user)
          (after_enqueue p t document user o)
  unfolding after_enqueue
  enqueue-Left w (ok q, u) (inl (e, h)) =
      let key = job_key t document user in
      let n = attempt_of (view w key) + 1 in
      let same = ok_eq e in
      let there = written view key _ w u h in
      elim (Bool-cases q.started) [
        | inr idle ↦ rw idle (_, there, enqueue-active (view w key) key)
        | inl runs ↦
            let (new, old) =
              enqueue-started (view w key) key
                (ap (λ (x : Enqueued). x.started) (sym same) ∙ runs) in
            let number : q.attempt ≡ n = ap (λ (x : Enqueued). x.attempt) same ∙ new in
            rw (runs, number)
              (dispatch-Left p atomic linked (run_of t document user n) key u _
                (p.target.dispatch (run_of t document user n) u)
                (target_view (run_of t document user n) u key) there
                (enqueue-active (view w key) key) (old ∙ new))
      ]
  enqueue-Left w (err x, u) (inl (e, h)) = tt
  enqueue-Left w (ok q, u) (inr (x, e, h)) = absurd (cc)
  enqueue-Left w (err x, u) (inr (y, e, h)) = tt

  -- After a publish that returns no error the job is recorded as active, and after one whose
  -- dispatch failed and whose failure was recorded, its attempt is recorded as failed with that
  -- error. The store keeps its contract, and the target writes no status (IsLinked).
  pub publish-Left :
      (w : W)
      → Left p atomic linked
          (next_run view t document user w)
          (job_key t document user)
          (publish p t document user w)
  unfolding publish
  publish-Left w = enqueue-Left w _ (enqueue_lem (job_key t document user) w)
