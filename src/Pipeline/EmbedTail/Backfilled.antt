-- ===== src/Pipeline/EmbedTail/Backfilled.antt =====
-- How Finalize of internal/pipeline/embedtail/embedtail.go stores the embeddings, over any collaborators that keep
-- apart.
use dumpster.Prelude.{
  ℕ, String, ◌≡◌, ◌≢◌, refl, sym, ap, ◌∙◌, subst, inl, inr, Option, none, some, List, [], ◌∷◌,
  arith,
}
use dumpster.Prelude.Tests.{nat_beq, nat_beq_iff, Bool-cases}
use dumpster.Prelude.Eq.{◌==◌, string_eq, nat_eq}
use dumpster.Prelude.Lists.{length}
use dumpster.Queue.Types.{Uuid}
use dumpster.JobStatus
use dumpster.JobStatus.{Key}
use dumpster.Document.{Document, Status, IsScoped, indexed}
use dumpster.Pipeline.{Error, superseded, status}
use dumpster.Pipeline.EmbedTail.{
  Deps, Run, Staged, Outcome, done, failing, Embedding, and_then, update_all, persisted, decoded,
  received, backfill, delete_keys, keys_of, delete, succeeded, retried?,
}

-- No item stands twice.
abbrev pub Absent : Uuid → List Uuid → Type 0
Absent c [] = Unit
Absent c (x ∷ xs) = (c ≢ x) × Absent c xs

abbrev pub Different : List Uuid → Type 0
Different [] = Unit
Different (x ∷ xs) = Absent x xs × Different xs

-- The collaborators are separate: only `UpdateEmbedding` writes embeddings, and only `UpdateStatus`
-- documents. When they report success, the value is there. A listing has no chunk twice.
pub record IsApart {W : Type 0} (d : Deps W) (row : W → Uuid → Option Document) : Type 0 where
  pub embedding : W → Uuid → Option Embedding
  pub update_embedding_lem :
      (user c : Uuid) (v : Embedding) (w : W)
      → (d.update_embedding user c v w).0 ≡ none
      → embedding (d.update_embedding user c v w).1 c ≡ some v
  pub update_embedding_frame :
      (user c : Uuid) (v : Embedding) (w : W)
      → (row (d.update_embedding user c v w).1 ≡ row w)
        × ((j : Uuid) → j ≢ c → embedding (d.update_embedding user c v w).1 j ≡ embedding w j)
  pub update_status_lem :
      (user id : Uuid) (s : Status) (w : W)
      → (d.docs.update_status user id s w).0 ≡ none
      → (doc : Document) × (row (d.docs.update_status user id s w).1 id ≡ some doc)
        × (doc.status ≡ s)
  pub update_status_frame :
      (user id : Uuid) (s : Status) (w : W)
      → embedding (d.docs.update_status user id s w).1 ≡ embedding w
  pub mark_succeeded_frame :
      (key : Key) (n : ℕ) (w : W)
      → (row (d.status.mark_succeeded key n w).1 ≡ row w)
        × (embedding (d.status.mark_succeeded key n w).1 ≡ embedding w)
  pub remove_frame :
      (key : String) (w : W)
      → (row (d.remove key w).1 ≡ row w) × (embedding (d.remove key w).1 ≡ embedding w)
  pub record_frame :
      (f : ℕ → W → Option Error × W)
      → d.record_indexed ≡ some f
      → (size : ℕ) (w : W) → (row (f size w).1 ≡ row w) × (embedding (f size w).1 ≡ embedding w)
  pub listed :
      (user document : Uuid) (w : W) (cs : List Uuid)
      → d.list_chunks user document w ≡ done cs
      → Different cs

-- Each chunk has the embedding at its place, and there are as many of both.
abbrev pub Embeds : (Uuid → Option Embedding) → List Uuid → List Embedding → Type 0
Embeds e [] [] = Unit
Embeds e (c ∷ cs) (v ∷ vs) = (e c ≡ some v) × Embeds e cs vs
Embeds e cs vs = ⊥

abbrev pub IsIndexed : Option Document → Type 0
IsIndexed none = ⊥
IsIndexed (some doc) = doc.status ≡ indexed

module _ {W : Type 0} (d : Deps W) (scoped : IsScoped d.docs) (apart : IsApart d scoped.row) where
  open scoped use {row, get_lem}
  open apart use {
    embedding, update_embedding_lem, update_embedding_frame, update_status_lem, update_status_frame,
    mark_succeeded_frame, remove_frame, record_frame, listed,
  }

  -- The embeddings of the job's result, which are as many as were asked for and as the document has
  -- chunks, stand with the chunks in their order.
  pub record Backfilled (run : Run) (s : Staged) (before after : W) : Type 0 where
    pub body : String
    pub embeddings : List Embedding
    pub chunks : List Uuid
    pub read_result : d.read s.result_key before ≡ done body
    pub decodes : d.unmarshal body ≡ done embeddings
    pub of_document : d.list_chunks run.user_id run.document_id before ≡ done chunks
    pub counts : length embeddings ≡ s.chunk_count
    pub stored : Embeds (embedding after) chunks embeddings

  -- The rows and the embeddings are as before.
  abbrev pub Same : W → W → Type 0
  Same w t = (row t ≡ row w) × (embedding t ≡ embedding w)

  pub Same-trans : (u v w : W) → Same u v → Same v w → Same u w
  Same-trans u v w h k = (k.0 ∙ h.0, k.1 ∙ h.1)

  delete_keys-Same : (keys : List String) (w : W) → Same w (delete_keys d keys w)
  unfolding delete_keys
  delete_keys-Same [] w = (refl, refl)
  delete_keys-Same (key ∷ keys) w = elim (Bool-cases (key == "")) [
    | inl empty ↦ rw empty (delete_keys-Same keys w)
    | inr named ↦ rw named (
        Same-trans w (d.remove key w).1 _ (remove_frame key w)
          (delete_keys-Same keys (d.remove key w).1))
  ]

  pub succeeded-Same :
      (staged : Option Staged) (extra : List String) (o : Option JobStatus.Error × W)
      → Same o.1 (succeeded d staged extra o).1
  unfolding delete
  succeeded-Same staged extra (none, w) = delete_keys-Same (keys_of d staged extra) w
  succeeded-Same staged extra (some e, w) = elim (Bool-cases (superseded (status e))) [
    | inl gone ↦ rw gone (delete_keys-Same (keys_of d staged extra) w)
    | inr failed ↦ rw failed ((refl, refl))
  ]

  -- `and_then` by what the first part returned.
  and_then-row :
      (w : W) (o : Option Error × W) (next : W → Option Error × W)
      → row o.1 ≡ row w
      → ((u : W) → row u ≡ row w → row (next u).1 ≡ row w)
      → row (and_then o next).1 ≡ row w
  and_then-row w (some e, u) next here there = here
  and_then-row w (none, u) next here there = there u here

  retried?-row : (o : Option Error × W) → row (retried? d o).1 ≡ row o.1
  retried?-row (none, w) = refl
  retried?-row (some e, w) = refl

  update_all-row :
      (user : Uuid) (cs : List Uuid) (vs : List Embedding) (w : W)
      → row (update_all d user cs vs w).1 ≡ row w
  unfolding update_all
  update_all-row user [] vs w = refl
  update_all-row user (c ∷ cs) [] w = refl
  update_all-row user (c ∷ cs) (v ∷ vs) w =
      let o = d.update_embedding user c v w in
      and_then-row w (retried? d o) (λ u. update_all d user cs vs u)
        (retried?-row o ∙ (update_embedding_frame user c v w).0)
        (λ u same. update_all-row user cs vs u ∙ same)

  and_then-at :
      (j : Uuid) (x : Option Embedding) (o : Option Error × W) (next : W → Option Error × W)
      → embedding o.1 j ≡ x
      → ((u : W) → embedding u j ≡ x → embedding (next u).1 j ≡ x)
      → embedding (and_then o next).1 j ≡ x
  and_then-at j x (some e, u) next here there = here
  and_then-at j x (none, u) next here there = there u here

  and_then-none :
      (o : Option Error × W) (next : W → Option Error × W)
      → (and_then o next).0 ≡ none
      → (o.0 ≡ none) × (and_then o next ≡ next o.1)
  and_then-none (some e, u) next h = absurd (cc)
  and_then-none (none, u) next h = (refl, refl)

  retried?-none :
      (o : Option Error × W) → (retried? d o).0 ≡ none → (o.0 ≡ none) × ((retried? d o).1 ≡ o.1)
  retried?-none (none, w) h = (refl, refl)
  retried?-none (some e, w) h = absurd (cc)

  retried?-same : (o : Option Error × W) → (retried? d o).1 ≡ o.1
  retried?-same (none, w) = refl
  retried?-same (some e, w) = refl

  update_all-at :
      (user j : Uuid) (cs : List Uuid) (vs : List Embedding) (w : W)
      → Absent j cs
      → embedding (update_all d user cs vs w).1 j ≡ embedding w j
  unfolding update_all
  update_all-at user j [] vs w a = refl
  update_all-at user j (c ∷ cs) [] w a = refl
  update_all-at user j (c ∷ cs) (v ∷ vs) w a =
      let o = d.update_embedding user c v w in
      and_then-at j (embedding w j) (retried? d o) (λ u. update_all d user cs vs u)
        (ap (λ (u : W). embedding u j) (retried?-same o)
          ∙ (update_embedding_frame user c v w).1 j a.0)
        (λ u same. update_all-at user j cs vs u a.1 ∙ same)

  -- When no update fails, every chunk has its embedding.
  update_all-Embeds :
      (user : Uuid) (cs : List Uuid) (vs : List Embedding) (w : W)
      → Different cs
      → length cs ≡ length vs
      → (update_all d user cs vs w).0 ≡ none
      → Embeds (embedding (update_all d user cs vs w).1) cs vs
  unfolding update_all
  update_all-Embeds user [] [] w diff len h = tt
  update_all-Embeds user [] (v ∷ vs) w diff len h = absurd (omega arith)
  update_all-Embeds user (c ∷ cs) [] w diff len h = absurd (omega arith)
  update_all-Embeds user (c ∷ cs) (v ∷ vs) w diff len h =
      let o = d.update_embedding user c v w in
      let (first, rest) = and_then-none (retried? d o) (λ u. update_all d user cs vs u) h in
      let (fine, same) = retried?-none o first in
      let u = (retried? d o).1 in
      let here : embedding u c ≡ some v =
        ap (λ (x : W). embedding x c) same ∙ update_embedding_lem user c v w fine in
      subst (λ (x : Option Error × W). Embeds (embedding x.1) (c ∷ cs) (v ∷ vs)) (sym rest)
        (
          update_all-at user c cs vs u diff.0 ∙ here,
          update_all-Embeds user cs vs u diff.1 (omega (arith, len))
              (ap (λ (x : Option Error × W). x.0) (sym rest) ∙ h),
        )

  -- What a part of Finalize did: the rows are as they were, and without an error the embeddings stand.
  abbrev pub Stored : Run → Staged → W → Option Error × W → Type 0
  Stored run s w out = (row out.1 ≡ row w) × (out.0 ≡ none → Backfilled run s w out.1)

  persisted-Stored :
      (run : Run) (s : Staged) (w : W) (body : String) (vs : List Embedding)
      (o : Outcome (List Uuid))
      → d.read s.result_key w ≡ done body
      → d.unmarshal body ≡ done vs
      → length vs ≡ s.chunk_count
      → d.list_chunks run.user_id run.document_id w ≡ o
      → Stored run s w (persisted d run vs o w)
  persisted-Stored run s w body vs (failing e) got decodes len h = (refl, λ h. absurd (cc))
  persisted-Stored run s w body vs (done cs) got decodes len h =
      elim (Bool-cases (nat_beq (length cs) (length vs))) [
        | inr other ↦ rw other (refl, λ h. absurd (cc))
        | inl same ↦ rw same (
          update_all-row run.user_id cs vs w,
          λ fine. record {
            body = body;
            embeddings = vs;
            chunks = cs;
            read_result = got;
            decodes = decodes;
            of_document = h;
            counts = len;
            stored =
                update_all-Embeds run.user_id cs vs w (listed run.user_id run.document_id w cs h)
                  ((nat_beq_iff (length cs) (length vs)).0 same) fine;
          },
        )
      ]

  decoded-Stored :
      (run : Run) (s : Staged) (w : W) (body : String) (o : Outcome (List Embedding))
      → d.read s.result_key w ≡ done body
      → d.unmarshal body ≡ o
      → Stored run s w (decoded d run s o w)
  decoded-Stored run s w body (failing e) got decodes = (refl, λ h. absurd (cc))
  decoded-Stored run s w body (done vs) got decodes =
      elim (Bool-cases (nat_beq (length vs) s.chunk_count)) [
        | inr other ↦ rw other ((refl, λ h. absurd (cc)))
        | inl same ↦
            rw same (persisted-Stored run s w body vs _ got decodes ((nat_beq_iff _ _).0 same) refl)
      ]

  pub backfill-Stored : (run : Run) (s : Staged) (w : W) → Stored run s w (backfill d run s w)
  unfolding backfill
  backfill-Stored run s w = received-Stored run s w _ refl
    where
      received-Stored :
          (run : Run) (s : Staged) (w : W) (o : Outcome String)
          → d.read s.result_key w ≡ o
          → Stored run s w (received d run s o w)
      received-Stored run s w (failing e) h = (refl, λ h. absurd (cc))
      received-Stored run s w (done body) h = decoded-Stored run s w body _ h refl
