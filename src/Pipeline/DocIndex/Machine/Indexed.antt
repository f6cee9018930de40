-- ===== src/Pipeline/DocIndex/Machine/Indexed.antt =====
-- When the steps of internal/pipeline/docindex/docindex.go leave a document indexed, in an execution of
-- the state machine.
use dumpster.Prelude.{
  ℕ, zero, suc, ◌≡◌, refl, sym, ap, ◌∙◌, subst, inl, inr, Bool, true, false, Option, none, some, [],
}
use dumpster.Prelude.Tests.{if◌then◌else◌, Bool-cases}
use dumpster.Queue.Types.{Uuid}
use dumpster.JobStatus.Contract.{IsAtomic}
use dumpster.Document.{Document, IsScoped}
use dumpster.Pipeline.{Error}
use dumpster.Pipeline.EmbedTail
use dumpster.Pipeline.EmbedTail.{Run, Staged, Outcome, done, failing, key_of, retried}
use dumpster.Pipeline.EmbedTail.Backfilled.{IsApart, IsIndexed}
use dumpster.Pipeline.EmbedTail.Finalized.{finalize-IsIndexed, finalize-Same}
use dumpster.Pipeline.DocIndex.{Deps, Prepared, Input, run_of, staged, wrapped?, finalize}
use dumpster.Pipeline.DocIndex.Machine.{step_finalize, handle, retrying}
use dumpster.Pipeline.DocIndex.Machine.Steps.{}
use dumpster.Pipeline.DocIndex.Machine.Invoked.{or_again-cases}

module _ {W : Type 0} (d : Deps W) (scoped : IsScoped d.tail.docs) (atomic : IsAtomic d.tail.status)
    (apart : IsApart d.tail scoped.row) where
  open scoped use {row}

  pub wrapped?-none :
      (o : Option Error × W) → (wrapped? d o).0 ≡ none → (o.0 ≡ none) × (wrapped? d o ≡ o)
  wrapped?-none (none, w) h = (refl, refl)
  wrapped?-none (some e, w) h = absurd (cc)

  wrapped?-world : (o : Option Error × W) → (wrapped? d o).1 ≡ o.1
  wrapped?-world (none, w) = refl
  wrapped?-world (some e, w) = refl

  -- Finalize without an error on what Prepare gave for a document that was not indexed.
  pub finalize-IsIndexed_prepared :
      (i : Input) (p : Prepared) (u t : W)
      → p.stale ≡ false
      → p.already_indexed ≡ false
      → finalize d (record i { prepare = some p }) u ≡ (none, t)
      → IsIndexed (row t i.document_id)
  unfolding finalize
  finalize-IsIndexed_prepared i p u t current pending h =
      let o = EmbedTail.finalize d.tail (run_of i) (staged (some p)) false [] u in
      let tail =
        λ (b : Bool). wrapped? d (EmbedTail.finalize d.tail (run_of i) (staged (some p)) b [] u) in
      let kept : tail p.already_indexed ≡ (none, t) =
        subst (λ (b : Bool). (if b then (none, u) else tail p.already_indexed) ≡ (none, t)) current
          h in
      let h' : wrapped? d o ≡ (none, t) = subst (λ (b : Bool). tail b ≡ (none, t)) pending kept in
      let (fine, same) = wrapped?-none o (ap (λ (x : Option Error × W). x.0) h') in
      let after : o.1 ≡ t = ap (λ (x : Option Error × W). x.1) (sym same ∙ h') in
      subst (λ (x : W). IsIndexed (row x i.document_id)) after
        (finalize-IsIndexed d.tail scoped apart (run_of i) (staged (some p)) [] u fine)

  -- A document that was indexed stays so while Finalize is run and run again.
  handle-IsIndexed :
      (i : Input) (p : Prepared) (u : W)
      → p.embed ≡ false
      → p.already_indexed ≡ true
      → IsIndexed (row u i.document_id)
      → IsIndexed (row (handle d step_finalize (record i { prepare = some p }) u).1 i.document_id)
  unfolding handle finalize staged
  handle-IsIndexed i p u plain already here = elim (Bool-cases p.stale) [
    | inl old ↦ rw old here
    | inr current ↦
        rw (current, plain, already)
          (let o = EmbedTail.finalize d.tail (run_of i) none true [] u in
            subst (λ (r : Uuid → Option Document). IsIndexed (r i.document_id))
              (sym (ap row (wrapped?-world o) ∙ finalize-Same d.tail scoped apart (run_of i) [] u))
              here)
  ]

  pub retrying-IsIndexed :
      (i : Input) (p : Prepared) (n : ℕ) (u : W)
      → p.embed ≡ false
      → p.already_indexed ≡ true
      → IsIndexed (row u i.document_id)
      → IsIndexed
          (row (retrying d n step_finalize (record i { prepare = some p }) u).1 i.document_id)
  unfolding retrying
  retrying-IsIndexed i p zero u plain already here = handle-IsIndexed i p u plain already here
  retrying-IsIndexed i p (suc n) u plain already here =
      let j : Input = record i { prepare = some p } in
      let out = handle d step_finalize j u in
      let now = handle-IsIndexed i p u plain already here in
      elim (or_again-cases out (retrying d n step_finalize j out.1)) [
        | inl first ↦ rw first now
        | inr (e, fails, retry, again) ↦ rw again (retrying-IsIndexed i p n out.1 plain already now)
      ]
