-- ===== src/Worker/Steps/Recorded.antt =====
-- What a run of a stateless job records, internal/worker/lambda/steps.go, over any status store that keeps
-- its contract.
use dumpster.Prelude.{
  ℕ, ◌≡◌, ◌≢◌, refl, sym, ap, ◌∙◌, subst, String, ◌⊎◌, inl, inr, true, Option, none, some, arith,
}
use dumpster.Prelude.Tests.{some_eq}
use dumpster.JobStatus
use dumpster.JobStatus.{
  Key, key_eq, Record, Moved, transition, processing, succeeded, status_beq_iff, Error,
}
use dumpster.JobStatus.Contract.{IsAtomic, Writes, MoveOutcome}
use dumpster.Queue.Dispatch.Outcome.{written}
use dumpster.Pipeline
use dumpster.Pipeline.{superseded, is_job_missing, status}
use dumpster.Worker.{Handler}
use dumpster.Worker.Steps.{
  Input, key_of, job_of, StepHandler, after_succeeded, after_handle, after_processing, run,
}

abbrev begun : Record → ℕ → Moved
begun r n = transition r n processing "" ""

abbrev ended : Record → ℕ → Moved
ended r n = transition r n succeeded "" ""

-- A record that may begin is then processing, in that attempt.
begun-next :
    (r : Record) (n : ℕ)
    → (begun r n).failure ≡ none
    → ((begun r n).next.attempt ≡ n) × ((begun r n).next.status ≡ processing)
unfolding transition
begun-next r n h = ground (arith, h, status_beq_iff r.status processing)

begun-superseded :
    (r : Record) (n : ℕ) (e : Error) → (begun r n).failure ≡ some e → superseded (status e) ≡ true
unfolding transition superseded
begun-superseded r n e h = ground (arith, h)

-- And a processing record of the attempt may succeed.
ended-next :
    (r : Record) (n : ℕ)
    → r.attempt ≡ n
    → r.status ≡ processing
    → ((ended r n).failure ≡ none)
      × ((ended r n).next.attempt ≡ n)
      × ((ended r n).next.status ≡ succeeded)
unfolding transition
ended-next r n same now = ground (arith, same, now)

module _ {W : Type 0} (s : StepHandler W) (h : Handler W) (atomic : IsAtomic s.status)
    (frame : (i : Input) (w : W)
      → atomic.view (h.handle (job_of i) w).1 (key_of i) ≡ atomic.view w (key_of i)) where
  open atomic use {view, mark_processing_lem, mark_succeeded_lem}

  -- The run's record refuses to begin: another attempt is the current one, or this one has ended.
  pub record Refused (i : Input) (w : W) : Type 0 where
    pub recorded : Record
    pub is_recorded : view w (key_of i) ≡ some recorded
    pub refuses : (begun recorded i.attempt).failure ≢ none

  -- The run's record says that its attempt succeeded.
  pub record Succeeded (i : Input) (w : W) : Type 0 where
    pub recorded : Record
    pub is_recorded : view w (key_of i) ≡ some recorded
    pub of_attempt : recorded.attempt ≡ i.attempt
    pub has_succeeded : recorded.status ≡ succeeded

  pub record Ran (i : Input) (w : W) (out : Option Pipeline.Error × W) : Type 0 where
    pub skipped : Refused i w → out.1 ≡ (s.status.mark_processing (key_of i) i.attempt w).1
    pub success : out.0 ≡ none → Refused i w ⊎ (view w (key_of i) ≡ none) ⊎ Succeeded i out.1

  abbrev Ends : Input → Option Pipeline.Error × W → Type 0
  Ends i out = out.0 ≡ none → Succeeded i out.1

  store_fails :
      (x : Error) (u : W) (m : String)
      → x ≡ JobStatus.other m
      → (after_succeeded s (some x, u)).0 ≢ none
  unfolding superseded
  store_fails x u m e =
      subst (λ (y : Error). (after_succeeded s (some y, u)).0 ≢ none) (sym e) (λ fine. cc)

  after_succeeded-Ends :
      (i : Input) (w : W) (r : Record) (o : Option Error × W)
      → view w (key_of i) ≡ some r
      → r.attempt ≡ i.attempt
      → r.status ≡ processing
      → MoveOutcome view (key_of i) i.attempt succeeded "" "" w o
      → Ends i (after_succeeded s o)
  after_succeeded-Ends i w r (none, u) here same now (inl (q, there, clear, writes)) fine =
      let e : q ≡ r = some_eq (sym there ∙ here) in
      let (free, attempt, state) = ended-next r i.attempt same now in
      record {
        recorded = (ended q i.attempt).next;
        is_recorded = written view (key_of i) _ w u writes;
        of_attempt = ap (λ (x : Record). (ended x i.attempt).next.attempt) e ∙ attempt;
        has_succeeded = ap (λ (x : Record). (ended x i.attempt).next.status) e ∙ state;
      }
  after_succeeded-Ends i w r (some x, u) here same now (inl (q, there, why, writes)) fine =
      let e : q ≡ r = some_eq (sym there ∙ here) in
      let free = (ended-next r i.attempt same now).0 in absurd (cc (why, free, e))
  after_succeeded-Ends i w r (none, u) here same now (inr (inl (absent, why, still))) fine =
      absurd (cc)
  after_succeeded-Ends i w r (some x, u) here same now (inr (inl (absent, why, still))) fine =
      absurd (cc)
  after_succeeded-Ends i w r (none, u) here same now (inr (inr (m, why, still))) fine = absurd (cc)
  after_succeeded-Ends i w r (some x, u) here same now (inr (inr (m, why, still))) fine =
      absurd (store_fails x u m (some_eq why) fine)

  after_handle-Ends :
      (i : Input) (w : W) (r : Record) (o : Option Pipeline.Error × W)
      → view o.1 (key_of i) ≡ some r
      → r.attempt ≡ i.attempt
      → r.status ≡ processing
      → Ends i (after_handle s i true o)
  after_handle-Ends i w r (some e, u) here same now fine = absurd (cc)
  after_handle-Ends i w r (none, u) here same now fine =
      after_succeeded-Ends i u r _ here same now (mark_succeeded_lem (key_of i) i.attempt u) fine

  still_refuses :
      (i : Input) (w : W) (r : Record)
      → view w (key_of i) ≡ some r
      → Refused i w
      → (begun r i.attempt).failure ≢ none
  still_refuses i w r here q e =
      q.refuses
        (ap (λ (x : Record). (begun x i.attempt).failure) (some_eq (sym q.is_recorded ∙ here)) ∙ e)

  -- What MarkProcessing returned decides the rest.
  after_processing-moved :
      (i : Input) (w : W) (r : Record) (o : Option Error × W)
      → o ≡ s.status.mark_processing (key_of i) i.attempt w
      → view w (key_of i) ≡ some r
      → o.0 ≡ (begun r i.attempt).failure
      → Writes view (key_of i) (some (begun r i.attempt).next) w o.1
      → Ran i w (after_processing s h i o)
  after_processing-moved i w r (some e, u) start here why writes =
      let gone = begun-superseded r i.attempt e (sym why) in
      rw gone (record {
        skipped = λ q. ap (λ (x : Option Error × W). x.1) start;
        success = λ fine.
            inl (record { recorded = r; is_recorded = here; refuses = λ free. cc (why, free) });
      })
  after_processing-moved i w r (none, u) start here why writes =
      let (same, now) = begun-next r i.attempt (sym why) in
      record {
        skipped = λ q. absurd (still_refuses i w r here q (sym why));
        success = λ fine. inr (
            inr (
              after_handle-Ends i w (begun r i.attempt).next (h.handle (job_of i) u)
                (frame i u ∙ written view (key_of i) _ w u writes) same now fine));
      }

  after_processing-untracked :
      (i : Input) (w : W) (o : Option Error × W)
      → view w (key_of i) ≡ none
      → Ran i w (after_processing s h i o)
  after_processing-untracked i w o absent = record {
    skipped = λ q. absurd (cc (absent, q.is_recorded));
    success = λ fine. inr (inl absent);
  }

  after_processing-store :
      (i : Input) (w : W) (m : String) (o : Option Error × W)
      → o ≡ s.status.mark_processing (key_of i) i.attempt w
      → o.0 ≡ some (JobStatus.other m)
      → Ran i w (after_processing s h i o)
  unfolding superseded is_job_missing
  after_processing-store i w m (none, u) start why = absurd (cc)
  after_processing-store i w m (some e, u) start why = rw (some_eq why) (record {
    skipped = λ q. ap (λ (x : Option Error × W). x.1) start;
    success = λ fine. absurd (cc);
  })

  -- A run whose record refuses to begin never calls the job's handler. A run that returns no error either
  -- met such a record, or has no record, or has a record that says that its attempt succeeded. The status
  -- store keeps its contract, and the handler leaves the record of its own job alone.
  pub run-Ran : (i : Input) (w : W) → Ran i w (run s h i w)
  unfolding run
  run-Ran i w = elim (mark_processing_lem (key_of i) i.attempt w) [
    | inl (r, here, why, writes) ↦ after_processing-moved i w r _ refl here why writes
    | inr (inl (absent, why, still)) ↦ after_processing-untracked i w _ absent
    | inr (inr (m, why, still)) ↦ after_processing-store i w m _ refl why
  ]
