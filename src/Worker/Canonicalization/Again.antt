-- ===== src/Worker/Canonicalization/Again.antt =====
-- A redelivered job of internal/worker/canonicalizationhandler.go, over the in-memory repositories.
use dumpster.Prelude.{ℕ, String, ◌≡◌, refl, sym, ap, subst, Option, none, some, List, [], ◌∷◌}
use dumpster.Prelude.Eq.{nat_eq}
use dumpster.Prelude.Map.{Map, lookup, Distinct}
use dumpster.Queue.Types.{Uuid}
use dumpster.Document
use dumpster.Document.{Document}
use dumpster.Entity.{Entity}
use dumpster.Entity.Memory as Mentions
use dumpster.Entity.Memory.{list_by_document}
use dumpster.Canonical
use dumpster.Canonical.{Mention, pending_of, resolve_new}
use dumpster.Canonical.Memory
use dumpster.Canonical.Alias.Merges.{repository}
use dumpster.Canonical.Repeat.{entities, entities_of, resolve_new_again}
use dumpster.Pipeline.EmbedTail.{done}
use dumpster.Worker.{Job}
use dumpster.Worker.Canonicalization.{CanonicalizationHandler, handle, after_resolve, with_mentions}

-- The two in-memory repositories.
abbrev pub Stores : Type 0
Stores = Memory.Repository × Mentions.Repository

-- The handler without its optional parts.
module _ (normalize : String → String) (fields : String → List String)
    (docs : Document.Repository Stores) (draw : Uuid → Uuid → Stores → List Mention)
    (sql_state : String → Option (List ℕ)) where
  abbrev pub plain : CanonicalizationHandler Stores
  plain = record {
    docs = docs;
    list_mentions = λ user document w. done (draw user document w);
    entities = entities;
    canonical = repository normalize fields;
    alias_judge = none;
    cross_linker = none;
    sql_state = sql_state;
  }

  after_resolve-state :
      (job : Job) (kb : Uuid) (o : Canonical.Result (Option (Map Uuid Uuid))) (w : Stores)
      → (after_resolve plain job kb (o, w)).1 ≡ w
  after_resolve-state job kb (Canonical.err e) w = refl
  after_resolve-state job kb (Canonical.ok none) w = refl
  after_resolve-state job kb (Canonical.ok (some [])) w = refl
  after_resolve-state job kb (Canonical.ok (some (r ∷ rs))) w = refl

  with_mentions-state :
      (job : Job) (kb : Uuid) (ms : List Mention) (w : Stores)
      → (with_mentions plain job kb (done ms) w).1
        ≡ (resolve_new (repository normalize fields) entities job.user_id ms w).1
  unfolding resolve_new pending_of
  with_mentions-state job kb [] w = refl
  with_mentions-state job kb (m ∷ ms) w =
      let out = resolve_new (repository normalize fields) entities job.user_id (m ∷ ms) w in
      after_resolve-state job kb out.0 out.1

  with_mentions-nothing :
      (job : Job) (kb : Uuid) (ms : List Mention) (w : Stores)
      → resolve_new (repository normalize fields) entities job.user_id ms w ≡ (Canonical.ok none, w)
      → with_mentions plain job kb (done ms) w ≡ (none, w)
  with_mentions-nothing job kb [] w h = refl
  with_mentions-nothing job kb (m ∷ ms) w h = ap (after_resolve plain job kb) h

  -- Without a judge and a linker, a job that is delivered again after Handle ran does nothing and returns
  -- no error: no mention is counted twice. The document is there, the mentions are those that the listing
  -- gives, each row of the entities stands under its own ID and no key stands twice.
  pub handle_again :
      (job : Job) (doc : Document) (r : Memory.Repository) (es : Mentions.Repository)
      → ((w : Stores) → docs.get job.user_id job.document_id w ≡ Document.ok doc)
      → ((w : Stores)
          → entities_of (draw job.user_id job.document_id w)
            ≡ list_by_document job.user_id job.document_id w.1)
      → Distinct es.rows
      → ((k : Uuid) (x : Entity) → lookup k es.rows ≡ some x → x.id ≡ k)
      → handle plain job (handle plain job (r, es)).1 ≡ (none, (handle plain job (r, es)).1)
  unfolding handle
  handle_again job doc r es found listed distinct named =
      let kb = doc.kb_id in
      let ms = draw job.user_id job.document_id (r, es) in
      let after = (resolve_new (repository normalize fields) entities job.user_id ms (r, es)).1 in
      let again = draw job.user_id job.document_id after in
      let first : (handle plain job (r, es)).1 ≡ after =
        rw (found (r, es), handle) (with_mentions-state job kb ms (r, es)) in
      let nothing =
        resolve_new_again normalize fields job.user_id job.document_id ms again r es distinct named
          (listed (r, es)) (listed after) in
      let second : handle plain job after ≡ (none, after) =
        rw (found after, handle) (with_mentions-nothing job kb again after nothing) in
      subst (λ (w : Stores). handle plain job w ≡ (none, w)) (sym first) second
