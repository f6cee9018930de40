-- ===== src/Pipeline/EmbedTail/Finalized.antt =====
-- What Finalize of internal/pipeline/embedtail/embedtail.go leaves, over any collaborators that keep
-- apart.
use dumpster.Prelude.{
  ℕ, String, ◌≡◌, refl, sym, ◌∙◌, subst, ◌⊎◌, inl, inr, true, false, Option, none, some, List,
  arith,
}
use dumpster.Prelude.Tests.{Bool-cases}
use dumpster.Prelude.Eq.{string_eq, nat_eq}
use dumpster.Queue.Types.{Uuid}
use dumpster.Document
use dumpster.Document.{
  Document, Status, IsScoped, own, indexed, status_beq, status_beq_iff, ok, err,
}
use dumpster.Pipeline.{Error}
use dumpster.Pipeline.EmbedTail.{
  Deps, Run, Staged, Embedding, and_then, key_of, backfill, counted, marked, loaded, mark_indexed,
  succeeded, finalize,
}
use dumpster.Pipeline.EmbedTail.Backfilled.{
  IsApart, Embeds, IsIndexed, Backfilled, Same, Same-trans, succeeded-Same, Stored, backfill-Stored,
}

module _ {W : Type 0} (d : Deps W) (scoped : IsScoped d.docs) (apart : IsApart d scoped.row) where
  open scoped use {row, get_lem}
  open apart use {
    embedding, update_embedding_lem, update_embedding_frame, update_status_lem, update_status_frame,
    mark_succeeded_frame, remove_frame, record_frame, listed,
  }

  counted-Same :
      (o : Option (ℕ → W → Option Error × W)) (size : ℕ) (w : W)
      → d.record_indexed ≡ o
      → Same d scoped apart w (counted d o size w).1
  counted-Same none size w h = (refl, refl)
  counted-Same (some f) size w h = record_frame f h size w

  -- After markIndexed the embeddings are as they were, and without an error the document is indexed.
  abbrev MarksIndexed : Run → W → Option Error × W → Type 0
  MarksIndexed run w out =
      (embedding out.1 ≡ embedding w) × (out.0 ≡ none → IsIndexed (row out.1 run.document_id))

  marked-MarksIndexed :
      (run : Run) (doc : Document) (w : W) (o : Option Document.Error × W)
      → embedding o.1 ≡ embedding w
      → (o.0 ≡ none → IsIndexed (row o.1 run.document_id))
      → MarksIndexed run w (marked d doc o)
  marked-MarksIndexed run doc w (some e, u) same h = (same, λ h. absurd (cc))
  marked-MarksIndexed run doc w (none, u) same h =
      let (rows, embeddings) = counted-Same d.record_indexed doc.size_bytes u refl in
      (embeddings ∙ same, λ fine. rw rows (h refl))

  own-row :
      (user : Uuid) (o : Option Document) (doc : Document)
      → elim (own user o) [ none ↦ err Document.not_found | some x ↦ ok x ] ≡ ok doc
      → o ≡ some doc
  own-row user none doc h = absurd (cc)
  own-row user (some x) doc h = ground arith

  pub get-row :
      (user id : Uuid) (w : W) (doc : Document)
      → d.docs.get user id w ≡ ok doc
      → row w id ≡ some doc
  get-row user id w doc h = elim (get_lem user id w) [
    | inl found ↦ own-row user (row w id) doc (sym found ∙ h)
    | inr (m, failed) ↦ absurd (cc)
  ]

  mark_indexed-MarksIndexed : (run : Run) (w : W) → MarksIndexed run w (mark_indexed d run w)
  unfolding mark_indexed
  mark_indexed-MarksIndexed run w = loaded-MarksIndexed run w _ refl
    where
      loaded-MarksIndexed :
          (run : Run) (w : W) (o : Document.Result Document)
          → d.docs.get run.user_id run.document_id w ≡ o
          → MarksIndexed run w (loaded d run o w)
      loaded-MarksIndexed run w (err e) h = (refl, λ h. absurd (cc))
      loaded-MarksIndexed run w (ok doc) h = elim (Bool-cases (status_beq doc.status indexed)) [
        | inl already ↦
            let found = get-row run.user_id run.document_id w doc h in
            rw already (refl, λ fine. rw found ((status_beq_iff doc.status indexed).0 already))
        | inr pending ↦ rw pending (
            let o = d.docs.update_status run.user_id run.document_id indexed w in
            marked-MarksIndexed run doc w o
              (update_status_frame run.user_id run.document_id indexed w)
              (λ fine.
                let (now, here, same) =
                  update_status_lem run.user_id run.document_id indexed w fine in
                rw here same))
      ]

  Backfilled-Same :
      (run : Run) (s : Staged) (w t u : W)
      → embedding u ≡ embedding t
      → Backfilled d scoped apart run s w t
      → Backfilled d scoped apart run s w u
  Backfilled-Same run s w t u same b = record {
    body = b.body;
    embeddings = b.embeddings;
    chunks = b.chunks;
    read_result = b.read_result;
    decodes = b.decodes;
    of_document = b.of_document;
    counts = b.counts;
    stored =
        subst (λ (e : Uuid → Option Embedding). Embeds e b.chunks b.embeddings) (sym same) b.stored;
  }

  -- What Finalize leaves of a run with staged texts.
  pub record Finalized (run : Run) (s : Staged) (w : W) (out : Option Error × W) : Type 0 where
    pub only_after : (row out.1 ≡ row w) ⊎ Backfilled d scoped apart run s w out.1
    pub success :
        out.0 ≡ none
        → Backfilled d scoped apart run s w out.1 × IsIndexed (row out.1 run.document_id)

  finish-Finalized :
      (run : Run) (s : Staged) (extra : List String) (w u : W) (o : Option Error × W)
      → Backfilled d scoped apart run s w u
      → MarksIndexed run u o
      → Finalized run s w (
          and_then o
            (λ v. succeeded d (some s) extra (d.status.mark_succeeded (key_of run) run.attempt v)))
  finish-Finalized run s extra w u (some e, v) b m = record {
    only_after = inr (Backfilled-Same run s w u v m.0 b);
    success = λ h. absurd (cc);
  }
  finish-Finalized run s extra w u (none, v) b m =
      let o = d.status.mark_succeeded (key_of run) run.attempt v in
      let out = succeeded d (some s) extra o in
      let same : Same d scoped apart v out.1 =
        Same-trans d scoped apart v o.1 out.1 (mark_succeeded_frame (key_of run) run.attempt v)
          (succeeded-Same d scoped apart (some s) extra o) in
      let stored : Backfilled d scoped apart run s w out.1 =
        Backfilled-Same run s w u out.1 (same.1 ∙ m.0) b in
      record {
        only_after = inr stored;
        success = λ h. (
          stored,
          subst (λ (r : Uuid → Option Document). IsIndexed (r run.document_id)) (sym same.0)
              (m.1 refl),
        );
      }

  -- Whatever Finalize returns for a document that was not indexed before the run, its row is unchanged
  -- unless every chunk of the document has the embedding that the job's result gives for its place, as many as were staged; and when
  -- it returns no error this is so and the document is indexed. The collaborators are separate, and
  -- their writes are there when they report success.
  pub finalize-Finalized :
      (run : Run) (s : Staged) (extra : List String) (w : W)
      → Finalized run s w (finalize d run (some s) false extra w)
  unfolding finalize
  finalize-Finalized run s extra w =
      continue run s extra w (backfill d run s w) (backfill-Stored d scoped apart run s w)
    where
      continue :
          (run : Run) (s : Staged) (extra : List String) (w : W) (o : Option Error × W)
          → Stored d scoped apart run s w o
          → Finalized run s w (
              and_then o (λ u. and_then (mark_indexed d run u) (λ v.
                succeeded d (some s) extra (d.status.mark_succeeded (key_of run) run.attempt v))))
      continue run s extra w (some e, u) b = record {
        only_after = inl b.0;
        success = λ h. absurd (cc);
      }
      continue run s extra w (none, u) b =
          finish-Finalized run s extra w u (mark_indexed d run u) (b.1 refl)
            (mark_indexed-MarksIndexed run u)

  finish-IsIndexed :
      (run : Run) (staged : Option Staged) (extra : List String) (w : W) (o : Option Error × W)
      → MarksIndexed run w o
      → (and_then o
          (λ v. succeeded d staged extra (d.status.mark_succeeded (key_of run) run.attempt v))).0
        ≡ none
      → IsIndexed (
          row
            (and_then o (λ v.
              succeeded d staged extra (d.status.mark_succeeded (key_of run) run.attempt v))).1
            run.document_id)
  finish-IsIndexed run staged extra w (some e, v) m h = absurd (cc)
  finish-IsIndexed run staged extra w (none, v) m h =
      let o = d.status.mark_succeeded (key_of run) run.attempt v in
      rw
        ((succeeded-Same d scoped apart staged extra o).0
          ∙ (mark_succeeded_frame (key_of run) run.attempt v).0)
        (m.1 refl)

  -- Finalize without an error leaves an indexed document, with or without staged texts.
  pub finalize-IsIndexed :
      (run : Run) (staged : Option Staged) (extra : List String) (w : W)
      → (finalize d run staged false extra w).0 ≡ none
      → IsIndexed (row (finalize d run staged false extra w).1 run.document_id)
  finalize-IsIndexed run (some s) extra w h = ((finalize-Finalized run s extra w).success h).1
  finalize-IsIndexed run none extra w h =
      unfold finalize in
      finish-IsIndexed run none extra w (mark_indexed d run w) (mark_indexed-MarksIndexed run w)
        (unfold finalize in h)

  -- For a document that was indexed before the run and has nothing staged, the rows stay as they are.
  pub finalize-Same :
      (run : Run) (extra : List String) (w : W) → row (finalize d run none true extra w).1 ≡ row w
  unfolding finalize
  finalize-Same run extra w =
      let o = d.status.mark_succeeded (key_of run) run.attempt w in
      (succeeded-Same d scoped apart none extra o).0
      ∙ (mark_succeeded_frame (key_of run) run.attempt w).0
