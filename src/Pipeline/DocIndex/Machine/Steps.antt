-- ===== src/Pipeline/DocIndex/Machine/Steps.antt =====
-- What the steps of document indexing return: internal/pipeline/docindex/statemachine.asl.json with
-- internal/pipeline/docindex/docindex.go, over collaborators that keep apart.
use dumpster.Prelude.{
  String, ◌≡◌, refl, sym, ap, ◌⊎◌, inl, inr, arith, true, false, Option, none, some, List, [], ◌∷◌,
}
use dumpster.Prelude.Tests.{Bool-cases}
use dumpster.Chunk.Splitter.{Chunk}
use dumpster.JobStatus
use dumpster.JobStatus.Contract.{IsAtomic}
use dumpster.Document
use dumpster.Document.{Document, IsScoped, own, indexed, status_beq, status_beq_iff, ok, err}
use dumpster.Pipeline.{Error, status, superseded, for_lambda, is_transient}
use dumpster.Pipeline.EmbedTail.{Run, Staged, Outcome, done, failing, key_of}
use dumpster.Pipeline.EmbedTail.Backfilled.{IsApart, IsIndexed}
use dumpster.Pipeline.EmbedTail.Finalized.{get-row}
use dumpster.Pipeline.EmbedTail.Failed.{IsSeparate}
use dumpster.Pipeline.DocIndex.{
  Deps, Prepared, Input, run_of, after_mark, with_document, with_staged, after_create, after_clear,
  after_split, after_read, after_update, prepare,
}
use dumpster.Pipeline.DocIndex.Machine.{Answer, answer, prepared, stepped}

answer_eq : {a b : Option Prepared} → Outcome.done a ≡ Outcome.done b → a ≡ b
answer_eq h = cc

answer-failing : (e : Error) (p : Option Prepared) → answer (for_lambda (some e)) ≡ done p → ⊥
unfolding for_lambda
answer-failing e p h = elim (Bool-cases (is_transient e)) [
  | inl marked ↦ absurd (ground (arith, marked, h))
  | inr plain ↦ absurd (ground (arith, plain, h))
]

module _ {W : Type 0} (d : Deps W) where
  pub prepared-done :
      (o : Outcome Prepared × W) (p : Option Prepared) (u : W)
      → prepared d o ≡ (done p, u)
      → (q : Prepared) × (p ≡ some q) × (o ≡ (done q, u))
  prepared-done (done q, w) p u h = (
    q,
    answer_eq (sym (ap (λ (x : Answer × W). x.0) h)),
    ap (λ (x : W). (done q, x)) (ap (λ (x : Answer × W). x.1) h),
  )
  prepared-done (failing e, w) p u h = absurd (answer-failing e p (ap (λ (x : Answer × W). x.0) h))

  pub stepped-done :
      (o : Option Error × W) (p : Option Prepared) (u : W)
      → stepped d o ≡ (done p, u)
      → o ≡ (none, u)
  stepped-done (none, w) p u h = ap (λ (x : W). (none, x)) (ap (λ (x : Answer × W). x.1) h)
  stepped-done (some e, w) p u h = absurd (answer-failing e p (ap (λ (x : Answer × W). x.0) h))

-- What Prepare returns for a document that it prepares, and for one that was indexed.
abbrev Fresh : {W : Type 0} → Outcome Prepared × W → Type 0
Fresh (failing e, w) = Unit
Fresh (done p, w) = (p.stale ≡ false) × (p.already_indexed ≡ false)

module _ {W : Type 0} (d : Deps W) where
  with_staged-Fresh : (o : Outcome Staged × W) → Fresh (with_staged d o)
  with_staged-Fresh (failing e, w) = tt
  with_staged-Fresh (done s, w) = (refl, refl)

  after_create-Fresh :
      (run : Run) (doc : Document) (cs : List Chunk) (o : Option Error × W)
      → Fresh (after_create d run doc cs o)
  after_create-Fresh run doc cs (some e, w) = tt
  after_create-Fresh run doc cs (none, w) = with_staged-Fresh _

  after_clear-Fresh :
      (run : Run) (doc : Document) (cs : List Chunk) (o : Option Error × W)
      → Fresh (after_clear d run doc cs o)
  after_clear-Fresh run doc cs (some e, w) = tt
  after_clear-Fresh run doc cs (none, w) = after_create-Fresh run doc cs _

  after_split-Fresh :
      (run : Run) (doc : Document) (cs : List Chunk) (w : W) → Fresh (after_split d run doc cs w)
  after_split-Fresh run doc [] w = (refl, refl)
  after_split-Fresh run doc (c ∷ cs) w = after_clear-Fresh run doc (c ∷ cs) _

  after_read-Fresh :
      (run : Run) (doc : Document) (o : Outcome String) (w : W) → Fresh (after_read d run doc o w)
  after_read-Fresh run doc (failing e) w = tt
  after_read-Fresh run doc (done body) w = after_split-Fresh run doc (d.split body) w

  after_update-Fresh :
      (run : Run) (doc : Document) (o : Option Document.Error × W)
      → Fresh (after_update d run doc o)
  after_update-Fresh run doc (some e, w) = tt
  after_update-Fresh run doc (none, w) = after_read-Fresh run doc _ w

module _ {W : Type 0} (d : Deps W) (scoped : IsScoped d.tail.docs) (atomic : IsAtomic d.tail.status)
    (apart : IsApart d.tail scoped.row) (separate : IsSeparate d.tail scoped.row atomic.view) where
  open scoped use {row}

  -- Where Prepare is invoked, the status store finds a newer attempt, or one that has ended.
  abbrev pub Stale : Input → W → Type 0
  Stale i w =
      (e : JobStatus.Error) × ((d.tail.status.mark_processing (key_of (run_of i)) i.attempt w).0
        ≡ some e)
      × (superseded (status e) ≡ true)

  -- What Prepare, invoked in a state, returns.
  abbrev pub PreparedAs : Input → W → Outcome Prepared × W → Type 0
  PreparedAs i s (failing e, w) = Unit
  PreparedAs i s (done p, w) =
      ((p.stale ≡ true) × Stale i s)
      ⊎ ((p.embed ≡ false) × (p.already_indexed ≡ true) × IsIndexed (row w i.document_id))
      ⊎ ((p.stale ≡ false) × (p.already_indexed ≡ false))

  Fresh-PreparedAs : (i : Input) (s : W) (o : Outcome Prepared × W) → Fresh o → PreparedAs i s o
  Fresh-PreparedAs i s (failing e, w) f = tt
  Fresh-PreparedAs i s (done p, w) f = inr (inr f)

  with_document-PreparedAs :
      (i : Input) (s w : W) (o : Document.Result Document)
      → d.tail.docs.get i.user_id i.document_id w ≡ o
      → PreparedAs i s (with_document d (run_of i) o w)
  with_document-PreparedAs i s w (err e) h = tt
  with_document-PreparedAs i s w (ok doc) h = elim (Bool-cases (status_beq doc.status indexed)) [
    | inl already ↦
        let here = get-row d.tail scoped apart i.user_id i.document_id w doc h in
        rw already (inr (inl (refl, refl, rw here ((status_beq_iff doc.status indexed).0 already))))
    | inr pending ↦ rw pending (Fresh-PreparedAs i s _ (after_update-Fresh d (run_of i) doc _))
  ]

  pub prepare-PreparedAs : (i : Input) (w : W) → PreparedAs i w (prepare d i w)
  unfolding prepare
  prepare-PreparedAs i w =
      marked (d.tail.status.mark_processing (key_of (run_of i)) i.attempt w) refl
    where
      marked :
          (o : Option JobStatus.Error × W)
          → d.tail.status.mark_processing (key_of (run_of i)) i.attempt w ≡ o
          → PreparedAs i w (after_mark d (run_of i) o)
      marked (none, u) h = with_document-PreparedAs i w u _ refl
      marked (some e, u) h = elim (Bool-cases (superseded (status e))) [
        | inl gone ↦ rw gone (inl (refl, (e, ap (λ (x : Option JobStatus.Error × W). x.0) h, gone)))
        | inr broken ↦ rw broken tt
      ]
