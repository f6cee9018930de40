-- ===== src/MalwareScan/Scans/Begun.antt =====
-- What `Scans.Begin` of internal/malwarescan/scans.go leaves of an upload's scan record.
use dumpster.Prelude.{ℕ, ◌≡◌, refl, sym, ap, ◌∙◌, inl, inr, true, Option, none, some, arith}
use dumpster.Prelude.Tests.{some_eq}
use dumpster.Queue.Dispatch.Outcome.{written, ok_eq, enqueue-active, fail_current}
use dumpster.Queue.Types.{Uuid}
use dumpster.JobStatus
use dumpster.JobStatus.{Key, key_eq, Record, Enqueued, active, failed}
use dumpster.JobStatus.Contract.{Result, ok, err, IsAtomic, EnqueueOutcome, MoveOutcome}
use dumpster.Document.{Document}
use dumpster.MalwareScan.{scan_key}
use dumpster.MalwareScan.Scans.{
  Scans, StartError, already_exists, other, BeginError, start_timeout, begin, mark_started,
  after_execution, after_pending, reason_begin_failed,
}

-- The attempt that `Enqueue` reports is that of the record.
enqueue-attempt :
    (cur : Option Record) (key : Key)
    → (JobStatus.enqueue cur key).0.attempt ≡ (JobStatus.enqueue cur key).1.attempt
unfolding JobStatus.enqueue JobStatus.fresh
enqueue-attempt none key = refl
enqueue-attempt (some r) key = ground arith

module _ {W : Type 0} (s : Scans W) (atomic : IsAtomic s.status)
    (frame : (document user : Uuid) (w : W) (k : Key)
      → atomic.view (s.start_execution document user w).1 k ≡ atomic.view w k)
    (doc : Document) where
  open atomic use {view, enqueue_lem, mark_failed_lem}

  -- The scan's record afterwards, by the result: active, or failed where the timeout did not start and
  -- that was recorded.
  abbrev pub Settled : Option BeginError × W → Type 0
  Settled (none, w) = (r : Record) × (view w (scan_key doc) ≡ some r) × (active r.status ≡ true)
  Settled (some (start_timeout e none), w) =
      (r : Record) × (view w (scan_key doc) ≡ some r)
      × (r.status ≡ failed)
      × (r.last_error ≡ reason_begin_failed)
  Settled (some _, w) = Unit

  mark-Settled :
      (e : StartError) (n : ℕ) (w : W) (r : Record) (o : Option JobStatus.Error × W)
      → MoveOutcome view (scan_key doc) n failed "" reason_begin_failed w o
      → view w (scan_key doc) ≡ some r
      → active r.status ≡ true
      → r.attempt ≡ n
      → Settled (mark_started s e o)
  unfolding mark_started
  mark-Settled e n w r (some x, t) h v a m = tt
  mark-Settled e n w r (none, t) (inr (inl (gone, q, h))) v a m = absurd (cc)
  mark-Settled e n w r (none, t) (inr (inr (x, q, h))) v a m = absurd (cc)
  mark-Settled e n w r (none, t) (inl (x, there, q, h)) v a m =
      let same : x ≡ r = some_eq (sym there ∙ v) in
      let (f, l, k) =
        fail_current x n reason_begin_failed (ap (λ (y : Record). active y.status) same ∙ a)
          (ap (λ (y : Record). y.attempt) same ∙ m) in
      (_, written view (scan_key doc) _ w t h, f, l)

  execution-Settled :
      (n : ℕ) (w : W) (r : Record) (o : Option StartError × W)
      → view o.1 (scan_key doc) ≡ view w (scan_key doc)
      → view w (scan_key doc) ≡ some r
      → active r.status ≡ true
      → r.attempt ≡ n
      → Settled (after_execution s doc n o)
  unfolding after_execution
  execution-Settled n w r (none, t) kept v a m = (r, kept ∙ v, a)
  execution-Settled n w r (some already_exists, t) kept v a m = (r, kept ∙ v, a)
  execution-Settled n w r (some (other x), t) kept v a m =
      mark-Settled (other x) n t r (s.status.mark_failed (scan_key doc) n reason_begin_failed t)
        (mark_failed_lem (scan_key doc) n reason_begin_failed t) (kept ∙ v) a m

  pending-Settled :
      (w : W) (o : Result Enqueued × W)
      → EnqueueOutcome view (scan_key doc) w o
      → Settled (after_pending s doc o)
  unfolding after_pending
  pending-Settled w (err x, t) h = tt
  pending-Settled w (ok q, t) (inr (x, e, h)) = absurd (cc)
  pending-Settled w (ok q, t) (inl (e, h)) =
      let cur = view w (scan_key doc) in
      execution-Settled q.attempt t _ (s.start_execution doc.id doc.user_id t)
        (frame doc.id doc.user_id t (scan_key doc)) (written view (scan_key doc) _ w t h)
        (enqueue-active cur (scan_key doc))
        (enqueue-attempt cur (scan_key doc) ∙ ap (λ (x : Enqueued). x.attempt) (sym (ok_eq e)))

  -- A scan that `Begin` reports as begun is recorded as active, and one whose timeout could not
  -- be started is recorded as failed with the reason for the user, where that record could be
  -- written. The store keeps its contract, and starting a timeout writes no status.
  pub begin-Settled : (w : W) → Settled (begin s doc w)
  unfolding begin
  begin-Settled w =
      pending-Settled w (s.status.enqueue (scan_key doc) w) (enqueue_lem (scan_key doc) w)
