-- ===== src/Pipeline/DocIndex/Machine/Ended.antt =====
-- How an execution of document indexing ends: internal/pipeline/docindex/statemachine.asl.json with
-- internal/pipeline/docindex/docindex.go, over collaborators that keep apart.
use dumpster.Prelude.{
  ◌≡◌, refl, sym, ap, ◌∙◌, subst, ◌⊎◌, inl, inr, Bool, true, false, Option, none, some, [],
}
use dumpster.Prelude.Tests.{if◌then◌else◌, some_eq}
use dumpster.JobStatus.Contract.{IsAtomic}
use dumpster.Document.{IsScoped, own}
use dumpster.Pipeline.{Error, StepError}
use dumpster.Pipeline.EmbedTail
use dumpster.Pipeline.EmbedTail.{Run, Staged, Outcome, done, failing, key_of, retried}
use dumpster.Pipeline.EmbedTail.Backfilled.{IsApart, IsIndexed}
use dumpster.Pipeline.EmbedTail.Failed.{IsSeparate, IsFailed, Refused, record_failure-Recorded}
use dumpster.Pipeline.DocIndex.{
  Deps, Prepared, Input, run_of, staged, prepare, finalize, record_failure,
}
use dumpster.Pipeline.DocIndex.Machine.{
  step_prepare, step_finalize, step_record_failure, Answer, End, completed, failed, aborted, handle,
  retrying, failed_on, catch, finalized, embedded, after_prepare, execute,
}
use dumpster.Pipeline.DocIndex.Machine.Steps.{
  Stale, PreparedAs, prepare-PreparedAs, prepared-done, stepped-done,
}
use dumpster.Pipeline.DocIndex.Machine.Invoked.{Invoked, retrying-last}
use dumpster.Pipeline.DocIndex.Machine.Indexed.{
  wrapped?-none, finalize-IsIndexed_prepared, retrying-IsIndexed,
}

module _ {W : Type 0} (d : Deps W) (scoped : IsScoped d.tail.docs) (atomic : IsAtomic d.tail.status)
    (apart : IsApart d.tail scoped.row) (separate : IsSeparate d.tail scoped.row atomic.view)
    (describe : Error → StepError) (embed : Prepared → W → Option StepError × W) (i : Input)
    (w : W) where
  open scoped use {row}

  -- What the last run of RecordFailure started from, where it recorded the failure and left the state `l`.
  pub record LastFailure (l : W) : Type 0 where
    pub input : Input
    pub before : W
    pub invoked : Invoked d describe embed i w step_record_failure input before
    pub of_run : run_of input ≡ run_of i
    pub returned : record_failure d input before ≡ (none, l)

  -- The run's record refused to fail when RecordFailure last met it, and no document's row was changed.
  pub record Overtaken (l : W) : Type 0 where
    pub last : LastFailure l
    pub refused : Refused d.tail scoped atomic separate (run_of i) last.input.error last.before
    pub same : row l ≡ row last.before

  -- The document was not there, or not the user's, when RecordFailure last ran.
  pub record Gone (l : W) : Type 0 where
    pub last : LastFailure l
    pub missing : own i.user_id (row last.before i.document_id) ≡ none

  -- A run of Prepare in this execution met a newer attempt, or one that has ended.
  pub record Superseded : Type 0 where
    pub before : W
    pub invoked : Invoked d describe embed i w step_prepare i before
    pub stale : Stale d scoped atomic apart separate i before

  -- RecordFailure, in its last run, failed itself.
  pub record Unrecorded (l : W) : Type 0 where
    pub input : Input
    pub before : W
    pub error : Error
    pub invoked : Invoked d describe embed i w step_record_failure input before
    pub fails : handle d step_record_failure input before ≡ (failing error, l)

  -- What an end says of the document.
  abbrev pub Ended : End × W → Type 0
  Ended (completed, l) = Superseded ⊎ IsIndexed (row l i.document_id)
  Ended (failed, l) = IsFailed (row l i.document_id) ⊎ Overtaken l ⊎ Gone l
  Ended (aborted, l) = Unrecorded l

  failed_on-Ended :
      (o : Answer × W)
      → ((p : Option Prepared) (t : W) → o ≡ (done p, t) → Ended (failed, t))
      → ((e : Error) (t : W) → o ≡ (failing e, t) → Ended (aborted, t))
      → Ended (failed_on d describe embed o)
  failed_on-Ended (done p, t) good bad = good p t refl
  failed_on-Ended (failing e, t) good bad = bad e t refl

  record_failure-Ended :
      (q : Option Prepared) (e : StepError) (u t : W)
      → Invoked d describe embed i w step_record_failure
          (record i { prepare = q; error = some e })
          u
      → record_failure d (record i { prepare = q; error = some e }) u ≡ (none, t)
      → Ended (failed, t)
  unfolding record_failure
  record_failure-Ended q e u t called h =
      let run = run_of i in
      let o = EmbedTail.record_failure d.tail run (some e) (staged q) [] u in
      let last : LastFailure t = record {
        input = record i { prepare = q; error = some e };
        before = u;
        invoked = called;
        of_run = refl;
        returned = h;
      } in
      let (fine, kept) =
        wrapped?-none d scoped atomic apart o (ap (λ (x : Option Error × W). x.0) h) in
      let after : o.1 ≡ t = ap (λ (x : Option Error × W). x.1) (sym kept ∙ h) in
      let r = record_failure-Recorded d.tail scoped atomic separate run (some e) (staged q) [] u in
      elim (r.success fine) [
        | inl refused ↦ inr (
            inl (record {
              last = last;
              refused = refused;
              same = ap row (sym after) ∙ r.refused refused;
            }))
        | inr ends ↦ elim ends.ended [
          | inl stands ↦ inl (subst (λ (x : W). IsFailed (row x i.document_id)) after stands)
          | inr gone ↦ inr (inr (record { last = last; missing = gone }))
        ]
      ]

  catch-Ended :
      (q : Option Prepared) (e : StepError) (u : W)
      → Invoked d describe embed i w step_record_failure
          (record i { prepare = q; error = some e })
          u
      → Ended (catch d describe embed (record i { prepare = q }) e u)
  unfolding handle
  catch-Ended q e u called =
      let j : Input = record i { prepare = q; error = some e } in
      let (v, later, last) = retrying-last d describe embed i w 6 step_record_failure j u called in
      failed_on-Ended (retrying d 6 step_record_failure j u)
        (λ p t h.
          record_failure-Ended q e v t later
            (stepped-done d (record_failure d j v) p t (sym last ∙ h)))
        (λ x t h. record {
          input = j;
          before = v;
          error = x;
          invoked = later;
          fails = sym last ∙ h;
        })

  finalized-Ended :
      (q : Option Prepared) (u : W) (o : Answer × W)
      → Invoked d describe embed i w step_finalize (record i { prepare = q }) u
      → handle d step_finalize (record i { prepare = q }) u ≡ o
      → ((p : Option Prepared) (t : W) → o ≡ (done p, t) → Ended (completed, t))
      → Ended (finalized d describe embed (record i { prepare = q }) o)
  finalized-Ended q u (done p, t) called h good = good p t refl
  finalized-Ended q u (failing e, t) called h good =
      catch-Ended q (describe e) t (Invoked.finalize_fails called h)

  -- What follows Prepare, with what it gave.
  embedded-Ended :
      (p : Prepared) (o : Option StepError × W)
      → ((e : StepError) (t : W)
          → o ≡ (some e, t)
          → Invoked d describe embed i w step_record_failure
              (record i { prepare = some p; error = some e })
              t)
      → ((t : W)
          → o ≡ (none, t)
          → Invoked d describe embed i w step_finalize (record i { prepare = some p }) t)
      → ((p.stale ≡ true) × Superseded)
        ⊎ ((p.embed ≡ false) × (p.already_indexed ≡ true) × IsIndexed (row o.1 i.document_id))
        ⊎ ((p.stale ≡ false) × (p.already_indexed ≡ false))
      → Ended (embedded d describe embed (record i { prepare = some p }) o)
  unfolding handle
  embedded-Ended p (some e, u) bad good kind = catch-Ended (some p) e u (bad e u refl)
  embedded-Ended p (none, u) bad good kind =
      let j : Input = record i { prepare = some p } in
      let (v, later, last) = retrying-last d describe embed i w 3 step_finalize j u (good u refl) in
      finalized-Ended (some p) v (retrying d 3 step_finalize j u) later (sym last) (λ q t h.
        elim kind [
          | inl (old, stale) ↦ inl stale
          | inr (inl (plain, already, here)) ↦ inr (
              subst (λ (x : Answer × W). IsIndexed (row x.1 i.document_id)) h
                (retrying-IsIndexed d scoped atomic apart i p 3 u plain already here))
          | inr (inr (current, pending)) ↦ inr (
              finalize-IsIndexed_prepared d scoped atomic apart i p v t current pending
                (stepped-done d (finalize d j v) q t (sym last ∙ h)))
        ])

  if-Ended :
      (b : Bool) (x y : End × W)
      → (b ≡ true → Ended x)
      → (b ≡ false → Ended y)
      → Ended (if b then x else y)
  if-Ended true x y h k = h refl
  if-Ended false x y h k = k refl

  -- What Prepare's last run, in `u`, gave.
  after_prepare-Ended :
      (u : W) (o : Answer × W)
      → Invoked d describe embed i w step_prepare i u
      → handle d step_prepare i u ≡ o
      → ((p : Option Prepared) (t : W)
          → o ≡ (done p, t)
          → (q : Prepared) × (p ≡ some q)
            × PreparedAs d scoped atomic apart separate i u (done q, t))
      → Ended (after_prepare d describe embed i o)
  after_prepare-Ended u (failing e, t) called h good =
      catch-Ended i.prepare (describe e) t (Invoked.prepare_fails called h)
  after_prepare-Ended u (done none, t) called h good =
      let (q, e, kind) = good none t refl in absurd (cc)
  after_prepare-Ended u (done (some p), t) called h good =
      let (q, e, kind) = good (some p) t refl in
      let as_given : PreparedAs d scoped atomic apart separate i u (done p, t) =
        subst (λ (x : Prepared). PreparedAs d scoped atomic apart separate i u (done x, t))
          (sym (some_eq e)) kind in
      if-Ended p.embed _ _
        (λ batch.
          embedded-Ended p (embed p t) (λ x v eq. Invoked.embed_fails called h batch eq)
            (λ v eq. Invoked.embeds called h batch eq)
            (moved (embed p t).1 as_given (λ plain. absurd (cc (batch, plain)))))
        (λ plain.
          embedded-Ended p (none, t) (λ x v eq. absurd (cc))
            (λ v eq.
              subst
                (λ (y : W).
                  Invoked d describe embed i w step_finalize (record i { prepare = some p }) y)
                (ap (λ (y : Option StepError × W). y.1) eq) (Invoked.passes called h plain))
            (moved t as_given (λ same. λ here. here)))
    where
      moved :
          (v : W)
          → PreparedAs d scoped atomic apart separate i u (done p, t)
          → (p.embed ≡ false → IsIndexed (row t i.document_id) → IsIndexed (row v i.document_id))
          → ((p.stale ≡ true) × Superseded)
            ⊎ ((p.embed ≡ false) × (p.already_indexed ≡ true) × IsIndexed (row v i.document_id))
            ⊎ ((p.stale ≡ false) × (p.already_indexed ≡ false))
      moved v (inl (old, stale)) keeps =
          inl (old, record { before = u; invoked = called; stale = stale })
      moved v (inr (inl (plain, already, here))) keeps =
          inr (inl (plain, already, keeps plain here))
      moved v (inr (inr fresh)) keeps = inr (inr fresh)

  -- However its steps, their retries and the embedding job turn out: an execution that completes leaves the
  -- document indexed, or in one of its runs of Prepare met an attempt that is not current or has ended.
  -- One that reaches its Fail state leaves the document failed, or the last of its runs of RecordFailure
  -- met a record that refuses to fail and changed no document, or a document that is gone. Any other ends
  -- with a run of RecordFailure that fails itself. The collaborators are separate and keep their contracts.
  pub execute-Ended : Ended (execute d describe embed i w)
  unfolding execute handle
  execute-Ended =
      let (u, called, last) =
        retrying-last d describe embed i w 3 step_prepare i w Invoked.starts in
      after_prepare-Ended u (retrying d 3 step_prepare i w) called (sym last) (λ p t h.
        let (q, e, same) = prepared-done d (prepare d i u) p t (sym last ∙ h) in
        (
          q,
          e,
          subst (PreparedAs d scoped atomic apart separate i u) same
              (prepare-PreparedAs d scoped atomic apart separate i u),
        ))
