-- ===== src/Pipeline/EmbedTail/Failed.antt =====
-- What RecordFailure of internal/pipeline/embedtail/embedtail.go leaves, over any collaborators that keep
-- apart.
use dumpster.Prelude.{
  ℕ, String, ◌≡◌, ◌≢◌, refl, sym, ap, ◌∙◌, ◌⊎◌, inl, inr, true, Option, none, some, List, [], ◌∷◌,
  arith,
}
use dumpster.Prelude.Tests.{Bool-cases, some_eq}
use dumpster.Prelude.Eq.{◌==◌, string_eq}
use dumpster.Queue.Types.{Uuid}
use dumpster.JobStatus
use dumpster.JobStatus.{Key, key_eq, Record, transition, attempt_superseded, not_active}
use dumpster.JobStatus.Contract.{IsAtomic, Writes}
use dumpster.Queue.Dispatch.Outcome.{written}
use dumpster.Document
use dumpster.Document.{Document, Status, IsScoped, own, failed}
use dumpster.Pipeline.{Error, StepError, superseded, is_document_missing, is_job_missing, status}
use dumpster.Pipeline.EmbedTail.{
  Deps, Run, Staged, key_of, delete_keys, keys_of, delete, document_failed, fail_document,
  attempt_failed, record_failure,
}

-- The collaborators are separate: documents and status records are written by their own stores alone.
-- An update that reports success is there, and one that finds no document leaves all as it was.
pub record IsSeparate {W : Type 0} (d : Deps W) (row : W → Uuid → Option Document)
    (view : W → Key → Option Record) : Type 0 where
  pub update_status_lem :
      (user id : Uuid) (s : Status) (w : W)
      → (d.docs.update_status user id s w).0 ≡ none
      → (doc : Document) × (row (d.docs.update_status user id s w).1 id ≡ some doc)
        × (doc.status ≡ s)
  pub update_missing_lem :
      (user id : Uuid) (s : Status) (w : W)
      → (d.docs.update_status user id s w).0 ≡ some Document.not_found
      → (own user (row w id) ≡ none) × (row (d.docs.update_status user id s w).1 ≡ row w)
  pub update_status_frame :
      (user id : Uuid) (s : Status) (w : W) → view (d.docs.update_status user id s w).1 ≡ view w
  pub mark_failed_frame :
      (key : Key) (n : ℕ) (m : String) (w : W) → row (d.status.mark_failed key n m w).1 ≡ row w
  pub remove_frame :
      (key : String) (w : W) → (row (d.remove key w).1 ≡ row w) × (view (d.remove key w).1 ≡ view w)

abbrev pub IsFailed : Option Document → Type 0
IsFailed none = ⊥
IsFailed (some doc) = doc.status ≡ failed

-- An attempt that is not the current one, or has ended otherwise.
pub transition-superseded :
    (r : Record) (n : ℕ) (reason : String) (e : JobStatus.Error)
    → (transition r n JobStatus.failed "" reason).failure ≡ some e
    → superseded (status e) ≡ true
unfolding transition superseded
transition-superseded r n reason e h = ground (arith, h)

module _ {W : Type 0} (d : Deps W) (scoped : IsScoped d.docs) (atomic : IsAtomic d.status)
    (apart : IsSeparate d scoped.row atomic.view) where
  open scoped use {row}
  open atomic use {view, mark_failed_lem}
  open apart use {
    update_status_lem, update_missing_lem, update_status_frame, mark_failed_frame, remove_frame,
  }

  abbrev Same : W → W → Type 0
  Same w t = (row t ≡ row w) × (view t ≡ view w)

  delete_keys-Same : (keys : List String) (w : W) → Same w (delete_keys d keys w)
  unfolding delete_keys
  delete_keys-Same [] w = (refl, refl)
  delete_keys-Same (key ∷ keys) w =
      let rest = delete_keys-Same keys in
      elim (Bool-cases (key == "")) [
        | inl empty ↦ rw empty (rest w)
        | inr named ↦
            let u = (d.remove key w).1 in
            rw named ((rest u).0 ∙ (remove_frame key w).0, (rest u).1 ∙ (remove_frame key w).1)
      ]

  -- What is left of the document when its failure is recorded: it is failed or gone.
  record Ended (run : Run) (w : W) (out : Option Error × W) : Type 0 where
    views : view out.1 ≡ view w
    ended :
        out.0 ≡ none
        → IsFailed (row out.1 run.document_id) ⊎ (own run.user_id (row w run.document_id) ≡ none)

  document_failed-Ended :
      (run : Run) (staged : Option Staged) (extra : List String) (w : W)
      (o : Option Document.Error × W)
      → view o.1 ≡ view w
      → (o.0 ≡ none → IsFailed (row o.1 run.document_id))
      → (o.0 ≡ some Document.not_found → own run.user_id (row w run.document_id) ≡ none)
      → Ended run w (document_failed d staged extra o)
  unfolding delete is_document_missing
  document_failed-Ended run staged extra w (none, u) same h g =
      let (rows, views) = delete_keys-Same (keys_of d staged extra) u in
      record { views = views ∙ same; ended = λ fine. inl (rw rows (h refl)) }
  document_failed-Ended run staged extra w (some Document.not_found, u) same h g =
      let (rows, views) = delete_keys-Same (keys_of d staged extra) u in
      record { views = views ∙ same; ended = λ fine. inr (g refl) }
  document_failed-Ended run staged extra w (some (Document.other m), u) same h g = record {
    views = same;
    ended = λ fine. absurd (cc);
  }

  fail_document-Ended :
      (run : Run) (staged : Option Staged) (extra : List String) (w : W)
      → Ended run w (fail_document d run staged extra w)
  fail_document-Ended run staged extra w =
      let o = d.docs.update_status run.user_id run.document_id failed w in
      document_failed-Ended run staged extra w o
        (update_status_frame run.user_id run.document_id failed w)
        (λ fine.
          let (doc, here, same) = update_status_lem run.user_id run.document_id failed w fine in
          rw here same)
        (λ gone. (update_missing_lem run.user_id run.document_id failed w gone).0)

  abbrev moved : Run → Option StepError → Record → JobStatus.Moved
  moved run e r = transition r run.attempt JobStatus.failed "" (d.reason e)

  -- The run's record refuses to fail: a newer attempt owns the document, or this one has ended otherwise.
  pub record Refused (run : Run) (e : Option StepError) (w : W) : Type 0 where
    pub recorded : Record
    pub is_recorded : view w (key_of run) ≡ some recorded
    pub refuses : (moved run e recorded).failure ≢ none

  -- The run's failure stands in its record, where it has one, and the document is failed or gone.
  pub record Ends (run : Run) (e : Option StepError) (w : W) (out : Option Error × W) : Type 0 where
    pub attempt :
        (view w (key_of run) ≡ none)
        ⊎ ((r : Record) × (view w (key_of run) ≡ some r)
            × (view out.1 (key_of run) ≡ some (moved run e r).next))
    pub ended :
        IsFailed (row out.1 run.document_id) ⊎ (own run.user_id (row w run.document_id) ≡ none)

  pub record Recorded (run : Run) (e : Option StepError) (w : W) (out : Option Error × W)
      : Type 0 where
    pub refused : Refused run e w → row out.1 ≡ row w
    pub success : out.0 ≡ none → Refused run e w ⊎ Ends run e w out

  -- A run that may fail goes on to fail its document.
  fail_document-Recorded :
      (run : Run) (e : Option StepError) (staged : Option Staged) (extra : List String) (w u : W)
      → row u ≡ row w
      → ¬ (Refused run e w)
      → (view w (key_of run) ≡ none)
        ⊎ ((r : Record) × (view w (key_of run) ≡ some r)
            × (view u (key_of run) ≡ some (moved run e r).next))
      → Recorded run e w (fail_document d run staged extra u)
  fail_document-Recorded run e staged extra w u rows free attempt =
      let f = fail_document-Ended run staged extra u in
      record {
        refused = λ q. absurd (free q);
        success = λ fine. inr (record {
          attempt = elim attempt [
            | inl absent ↦ inl absent
            | inr (r, here, now) ↦
                inr (r, here, ap (λ (v : Key → Option Record). v (key_of run)) f.views ∙ now)
          ];
          ended = elim (f.ended fine) [
            | inl stands ↦ inl stands
            | inr gone ↦ inr (
                ap (λ (v : Uuid → Option Document). own run.user_id (v run.document_id)) (sym rows)
                ∙ gone)
          ];
        });
      }

  recorded_same :
      (run : Run) (e : Option StepError) (w : W) (r : Record)
      → view w (key_of run) ≡ some r
      → (q : Refused run e w) → q.recorded ≡ r
  recorded_same run e w r here q = some_eq (sym q.is_recorded ∙ here)

  -- What MarkFailed returned decides the rest.
  attempt_failed-moved :
      (run : Run) (e : Option StepError) (staged : Option Staged) (extra : List String) (w : W)
      (r : Record) (o : Option JobStatus.Error × W)
      → row o.1 ≡ row w
      → view w (key_of run) ≡ some r
      → o.0 ≡ (moved run e r).failure
      → Writes view (key_of run) (some (moved run e r).next) w o.1
      → Recorded run e w (attempt_failed d run staged extra o)
  attempt_failed-moved run e staged extra w r (none, u) rows here clear writes =
      fail_document-Recorded run e staged extra w u rows
        (λ q. q.refuses (
          ap (λ (x : Record). (moved run e x).failure) (recorded_same run e w r here q)
          ∙ sym clear))
        (inr (r, here, written view (key_of run) _ w u writes))
  attempt_failed-moved run e staged extra w r (some x, u) rows here why writes =
      let gone : superseded (status x) ≡ true =
        transition-superseded r run.attempt (d.reason e) x (sym why) in
      rw gone (record {
        refused = λ q. rows;
        success =
            λ fine. inl (record { recorded = r; is_recorded = here; refuses = λ h. cc (why, h) });
      })

  attempt_failed-untracked :
      (run : Run) (e : Option StepError) (staged : Option Staged) (extra : List String) (w : W)
      (o : Option JobStatus.Error × W)
      → row o.1 ≡ row w
      → view w (key_of run) ≡ none
      → o.0 ≡ some JobStatus.not_found
      → Recorded run e w (attempt_failed d run staged extra o)
  unfolding superseded is_job_missing
  attempt_failed-untracked run e staged extra w (none, u) rows absent why = absurd (cc)
  attempt_failed-untracked run e staged extra w (some x, u) rows absent why = rw (some_eq why) (
      fail_document-Recorded run e staged extra w u rows (λ q. cc (absent, q.is_recorded))
        (inl absent))

  attempt_failed-store :
      (run : Run) (e : Option StepError) (staged : Option Staged) (extra : List String) (w : W)
      (m : String) (o : Option JobStatus.Error × W)
      → row o.1 ≡ row w
      → o.0 ≡ some (JobStatus.other m)
      → Recorded run e w (attempt_failed d run staged extra o)
  unfolding superseded is_job_missing
  attempt_failed-store run e staged extra w m (none, u) rows why = absurd (cc)
  attempt_failed-store run e staged extra w m (some x, u) rows why =
      rw (some_eq why) (record { refused = λ q. rows; success = λ fine. absurd (cc) })

  -- RecordFailure leaves the documents as they are when the run's record refuses to fail, because a newer
  -- attempt owns the document or this one has ended otherwise. When it returns no error, either that is
  -- the case, or the document is failed or gone, and the run's record, where it has one, holds the
  -- failure. The collaborators are separate and keep their contracts.
  pub record_failure-Recorded :
      (run : Run) (e : Option StepError) (staged : Option Staged) (extra : List String) (w : W)
      → Recorded run e w (record_failure d run e staged extra w)
  unfolding record_failure
  record_failure-Recorded run e staged extra w =
      let o = d.status.mark_failed (key_of run) run.attempt (d.reason e) w in
      let rows = mark_failed_frame (key_of run) run.attempt (d.reason e) w in
      elim (mark_failed_lem (key_of run) run.attempt (d.reason e) w) [
        | inl (r, here, why, writes) ↦
            attempt_failed-moved run e staged extra w r o rows here why writes
        | inr (inl (absent, why, same)) ↦
            attempt_failed-untracked run e staged extra w o rows absent why
        | inr (inr (m, why, same)) ↦ attempt_failed-store run e staged extra w m o rows why
      ]
