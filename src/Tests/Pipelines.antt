-- ===== src/Tests/Pipelines.antt =====
-- The indexing of one document over the in-memory stores, with its chunks and the scratch objects.
use dumpster.Prelude.{
  ℕ, ◌≡◌, ◌+◌, refl, ap, subst, inl, inr, false, Option, none, some, List, [], ◌∷◌, arith,
}
use dumpster.Prelude.Tests.{if◌then◌else◌, Bool-cases}
use dumpster.Prelude.Eq.{◌==◌, nat_eq, string_eq, ==_refl}
use dumpster.Prelude.Map.{lookup, lookup-insert}
use dumpster.Queue.Types.{Uuid, document_indexing}
use dumpster.JobStatus.Contract
use dumpster.JobStatus.Contract.{IsAtomic}
use dumpster.Document
use dumpster.Document.{Document, IsScoped, own}
use dumpster.Document.Memory as Docs
use dumpster.Chunk.Splitter.{Chunk}
use dumpster.Pipeline.{Error, StepError}
use dumpster.Pipeline.EmbedTail
use dumpster.Pipeline.EmbedTail.{
  Embedding, Outcome, done, failing, Run, Staged, key_of, staged_for, finalize, record_failure,
}
use dumpster.Pipeline.EmbedTail.Backfilled.{IsApart, Different}
use dumpster.Pipeline.EmbedTail.Finalized.{Finalized, finalize-Finalized}
use dumpster.Pipeline.EmbedTail.Failed.{IsSeparate, Recorded, record_failure-Recorded}
use dumpster.Pipeline.DocIndex
use dumpster.Pipeline.DocIndex.{Prepared, Input, Row}
use dumpster.Pipeline.DocIndex.Machine.{execute}
use dumpster.Pipeline.DocIndex.Machine.Ended.{Ended, execute-Ended}
use dumpster.Tests.World.{World, jobs, docs, direct, uploaded, report, jobs-IsAtomic, docs-IsScoped}

-- The world with the embeddings of chunks.
record Line : Type 0 where
  world : World
  embeddings : Uuid → Option Embedding

abbrev with_world {ℓ} : {A : Type ℓ} → Line → A × World → A × Line
with_world l (a, w) = (a, record l { world = w })

abbrev line_jobs : Contract.Store Line
line_jobs = record {
  get = λ k l. jobs.get k l.world;
  enqueue = λ k l. with_world l (jobs.enqueue k l.world);
  mark_processing = λ k n l. with_world l (jobs.mark_processing k n l.world);
  set_phase = λ k n p l. with_world l (jobs.set_phase k n p l.world);
  mark_succeeded = λ k n l. with_world l (jobs.mark_succeeded k n l.world);
  mark_failed = λ k n m l. with_world l (jobs.mark_failed k n m l.world);
}

abbrev line_docs : Document.Repository Line
line_docs = record {
  get = λ u i l. docs.get u i l.world;
  get_by_s3_key = λ u k l. docs.get_by_s3_key u k l.world;
  update_status = λ u i s l. with_world l (docs.update_status u i s l.world);
  delete = λ u i l. with_world l (docs.delete u i l.world);
}

abbrev atomic : IsAtomic line_jobs
atomic = record {
  view = λ l. jobs-IsAtomic.view l.world;
  get_lem = λ k l. jobs-IsAtomic.get_lem k l.world;
  enqueue_lem = λ k l. jobs-IsAtomic.enqueue_lem k l.world;
  mark_processing_lem = λ k n l. jobs-IsAtomic.mark_processing_lem k n l.world;
  set_phase_lem = λ k n p l. jobs-IsAtomic.set_phase_lem k n p l.world;
  mark_succeeded_lem = λ k n l. jobs-IsAtomic.mark_succeeded_lem k n l.world;
  mark_failed_lem = λ k n m l. jobs-IsAtomic.mark_failed_lem k n m l.world;
}

abbrev scoped : IsScoped line_docs
scoped = record {
  row = λ l. docs-IsScoped.row l.world;
  get_lem = λ u i l. docs-IsScoped.get_lem u i l.world;
  get_by_s3_key_lem = λ u k l. docs-IsScoped.get_by_s3_key_lem u k l.world;
  update_status_frame = λ u i s l. docs-IsScoped.update_status_frame u i s l.world;
  delete_frame = λ u i l. docs-IsScoped.delete_frame u i l.world;
}

abbrev set_embedding : Uuid → Embedding → Line → Line
set_embedding c v l = record l { embeddings = λ j. if j == c then some v else l.embeddings j }

abbrev tail : EmbedTail.Deps Line
tail = record {
  docs = line_docs;
  status = line_jobs;
  list_chunks = λ u i l. done (41 ∷ 42 ∷ []);
  update_embedding = λ u c v l. (none, set_embedding c v l);
  put = λ key body l. (none, l);
  read = λ key l. done "result";
  remove = λ key l. (none, l);
  presigned_url = λ key ttl l. done key;
  presigned_put_url = λ key ttl l. done key;
  record_indexed = none;
  marshal = λ texts. done "texts";
  unmarshal = λ body. done ((1 ∷ []) ∷ (2 ∷ []) ∷ []);
  sql_state = λ m. none;
  reason = λ e. "embedding failed";
  name = λ i n. "5-1";
  presign_ttl = 3600;
}

updated-row :
    (user id : Uuid) (s : Document.Status) (o : Option Document) (r : Docs.Repository)
    → (Docs.update id 0 s (Docs.found user o) r).0 ≡ none
    → (doc : Document) × (lookup id (Docs.update id 0 s (Docs.found user o) r).1.rows ≡ some doc)
      × (doc.status ≡ s)
updated-row user id s none r h = absurd (cc)
updated-row user id s (some x) r h = elim (Bool-cases (x.user_id == user)) [
  | inl own ↦
      let doc : Document = record x { status = s; updated_at = 0 } in
      rw own (doc, rw (lookup-insert id id doc r.rows, ==_refl id) refl, refl)
  | inr other ↦ absurd (ground (arith, h, other))
]

updated-missing :
    (user id : Uuid) (s : Document.Status) (o : Option Document) (r : Docs.Repository)
    → (Docs.update id 0 s (Docs.found user o) r).0 ≡ some Document.not_found
    → (own user o ≡ none) × ((Docs.update id 0 s (Docs.found user o) r).1 ≡ r)
updated-missing user id s none r h = (refl, refl)
updated-missing user id s (some x) r h = elim (Bool-cases (x.user_id == user)) [
  | inl own ↦ absurd (ground (arith, h, own))
  | inr other ↦ rw other (refl, refl)
]

done_eq : {a b : List Uuid} → Outcome.done a ≡ Outcome.done b → a ≡ b
done_eq h = cc

two_chunks-Different : Different (41 ∷ 42 ∷ [])
two_chunks-Different = ((omega arith, tt), (tt, tt))

apart : IsApart tail scoped.row
unfolding Docs.update_status
apart = record {
  embedding = λ l. l.embeddings;
  update_embedding_lem = λ u c v l h. rw (==_refl c) refl;
  update_embedding_frame = λ u c v l. (refl, λ j ne. ground (arith, ne));
  update_status_lem = λ u i s l h. updated-row u i s _ l.world.docs h;
  update_status_frame = λ u i s l. refl;
  mark_succeeded_frame = λ k n l. (refl, refl);
  remove_frame = λ key l. (refl, refl);
  record_frame = λ f e. absurd (cc);
  listed = λ u i l cs h. subst Different (done_eq h) two_chunks-Different;
}

separate : IsSeparate tail scoped.row atomic.view
unfolding Docs.update_status
separate = record {
  update_status_lem = λ u i s l h. updated-row u i s _ l.world.docs h;
  update_missing_lem = λ u i s l h.
      let (mine, same) = updated-missing u i s _ l.world.docs h in
      (mine, ap (λ (r : Docs.Repository). λ (j : Uuid). lookup j r.rows) same);
  update_status_frame = λ u i s l. refl;
  mark_failed_frame = λ k n m l. refl;
  remove_frame = λ key l. (refl, refl);
}

-- The first attempt at indexing `report`, recorded and not yet begun.
abbrev run : Run
run = record {
  job_type = document_indexing;
  document_id = report.id;
  user_id = report.user_id;
  attempt = 1;
}

abbrev queued : Line
queued = record { world = (jobs.enqueue (key_of run) uploaded).1; embeddings = λ j. none }

abbrev two_texts : Staged
two_texts = staged_for tail run ("one" ∷ "two" ∷ [])

finalize-Finalized_example :
    Finalized tail scoped apart run two_texts queued
      (finalize tail run (some two_texts) false [] queued)
finalize-Finalized_example = finalize-Finalized tail scoped apart run two_texts [] queued

record_failure-Recorded_example :
    Recorded tail scoped atomic separate run none queued
      (record_failure tail run none (some two_texts) [] queued)
record_failure-Recorded_example =
    record_failure-Recorded tail scoped atomic separate run none (some two_texts) [] queued

-- Every upload is split in two.
abbrev piece : ℕ → Chunk
piece n = record { ordinal = n; text = n ∷ []; token_count = 0; char_start = n; char_end = n + 1 }

abbrev steps : DocIndex.Deps Line
steps = record {
  tail = tail;
  read_upload = λ key l. done "ab";
  split = λ body. piece 0 ∷ piece 1 ∷ [];
  text = λ bytes. "a";
  delete_chunks = λ u i l. (none, l);
  bulk_create = λ rows l. (none, l);
  publisher = record {
    publish_document_uploaded =
        λ i u l. with_world l (direct.publish_document_uploaded i u l.world);
    publish_entity_extraction =
        λ i u l. with_world l (direct.publish_entity_extraction i u l.world);
    publish_edge_extraction = λ i u l. with_world l (direct.publish_edge_extraction i u l.world);
    publish_region_classification =
        λ i u l. with_world l (direct.publish_region_classification i u l.world);
    publish_canonicalization = λ i u l. with_world l (direct.publish_canonicalization i u l.world);
  };
}

abbrev input : Input
input = record {
  document_id = report.id;
  user_id = report.user_id;
  attempt = 1;
  prepare = none;
  error = none;
}

abbrev described : Error → StepError
described e = record { error = "Error"; cause = "a step failed" }

abbrev batch : Prepared → Line → Option StepError × Line
batch p l = (none, l)

execute-Ended_example :
    Ended steps scoped atomic apart separate described batch input queued
      (execute steps described batch input queued)
execute-Ended_example =
    execute-Ended steps scoped atomic apart separate described batch input queued
