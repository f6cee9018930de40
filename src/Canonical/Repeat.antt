-- ===== src/Canonical/Repeat.antt =====
-- A second run of ResolveNew, internal/canonical/canonical.go, over the two in-memory repositories.
use dumpster.Prelude.{
  String, ◌≡◌, ◌≢◌, refl, sym, ap, ◌∙◌, none, some, List, [], ◌∷◌, arith, Memᴰ, inl, inr,
}
use dumpster.Prelude.Tests.{Option-cases, and_iff}
use dumpster.Prelude.Eq.{◌==◌, nat_eq}
use dumpster.Prelude.Map.{Map, lookup, insert, Distinct, lookup-insert}
use dumpster.Queue.Types.{Uuid}
use dumpster.Entity.{Entity}
use dumpster.Entity
use dumpster.Entity.Memory.{of_document, list_by_document, link_all, bulk_set_canonical_entity_id}
use dumpster.Entity.Memory.Links.{
  link_all-back, link_all-Distinct, list_by_document-mem, mem-list_by_document,
}
use dumpster.Canonical.{Mention, ok, pending_of, resolve_pending, resolve_new}
use dumpster.Canonical.Memory
use dumpster.Canonical.Memory.{Progress, start, resolve_to, canonicalize_one, canonicalize_all}
use dumpster.Canonical.Alias.Merges.{repository}

-- The entity that a mention with its draws stands for.
abbrev pub entities_of : List Mention → List Entity
entities_of [] = []
entities_of ((id, now, m) ∷ ms) = m ∷ entities_of ms

-- The in-memory repository of entities, beside that of canonical entities.
abbrev pub entities : Entity.Repository (Memory.Repository × Entity.Memory.Repository)
entities = record {
  bulk_set_canonical_entity_id =
      λ user links w. (none, (w.0, bulk_set_canonical_entity_id user links w.1));
}

-- Every mention without a link is pending.
pending_of-mem :
    (e : Entity) (ms : List Mention)
    → Memᴰ e (entities_of ms)
    → e.canonical_entity_id ≡ none
    → Memᴰ e (entities_of (pending_of ms))
unfolding pending_of
pending_of-mem e [] h unlinked = elim h [ ]
pending_of-mem e ((id, now, m) ∷ ms) (Memᴰ.head h) unlinked =
    let here : m.canonical_entity_id ≡ none = rw (← h) unlinked in rw here (Memᴰ.head h)
pending_of-mem e ((id, now, m) ∷ ms) (Memᴰ.tail h) unlinked =
    let rest = pending_of-mem e ms h unlinked in
    elim (Option-cases m.canonical_entity_id) [
      | inl here ↦ rw here (Memᴰ.tail rest)
      | inr (c, here) ↦ rw here rest
    ]

pending_of-none :
    (ms : List Mention)
    → ((e : Entity) → Memᴰ e (entities_of ms) → e.canonical_entity_id ≢ none)
    → pending_of ms ≡ []
unfolding pending_of
pending_of-none [] linked = refl
pending_of-none ((id, now, m) ∷ ms) linked = elim (Option-cases m.canonical_entity_id) [
  | inl here ↦ absurd (linked m (Memᴰ.head refl) here)
  | inr (c, here) ↦ rw here (pending_of-none ms (λ e h. linked e (Memᴰ.tail h)))
]

-- The document's rows, their keys, and that those without a link are among the mentions.
record IsPending (user document : Uuid) (es : Entity.Memory.Repository) (ps : List Mention)
    : Type 0 where
  distinct : Distinct es.rows
  named : (k : Uuid) (x : Entity) → lookup k es.rows ≡ some x → x.id ≡ k
  pending :
      (x : Entity)
      → Memᴰ x (list_by_document user document es)
      → x.canonical_entity_id ≡ none
      → Memᴰ x (entities_of ps)

insert-keeps :
    (k j v : Uuid) (m : Map Uuid Uuid) → lookup j m ≢ none → lookup j (insert k v m) ≢ none
insert-keeps k j v m h = ground (arith, lookup-insert k j v m, h)

insert-here : (k j v : Uuid) (m : Map Uuid Uuid) → k ≡ j → lookup j (insert k v m) ≢ none
insert-here k j v m h = ground (arith, lookup-insert k j v m, h, nat_eq.same_iff k j)

module _ (normalize : String → String) where
  canonicalize_all-keeps :
      (j : Uuid) (ms : List Mention) (p : Progress)
      → lookup j p.resolved ≢ none
      → lookup j (canonicalize_all normalize ms p).resolved ≢ none
  unfolding canonicalize_all canonicalize_one
  canonicalize_all-keeps j [] p h = h
  canonicalize_all-keeps j ((id, now, m) ∷ ms) p h =
      canonicalize_all-keeps j ms (canonicalize_one normalize (id, now, m) p)
        (insert-keeps m.id j _ p.resolved h)

  -- Canonicalize resolves every mention that it is given.
  canonicalize_all-resolves :
      (e : Entity) (ms : List Mention) (p : Progress)
      → Memᴰ e (entities_of ms)
      → lookup e.id (canonicalize_all normalize ms p).resolved ≢ none
  unfolding canonicalize_all canonicalize_one
  canonicalize_all-resolves e [] p h = elim h [ ]
  canonicalize_all-resolves e ((id, now, m) ∷ ms) p (Memᴰ.head h) =
      canonicalize_all-keeps e.id ms (canonicalize_one normalize (id, now, m) p)
        (insert-here m.id e.id _ p.resolved (sym (ap (λ (x : Entity). x.id) h)))
  canonicalize_all-resolves e ((id, now, m) ∷ ms) p (Memᴰ.tail h) =
      canonicalize_all-resolves e ms (canonicalize_one normalize (id, now, m) p) h

  -- A document's row that is not linked after ResolveNew is not there.
  resolved-linked :
      (user document : Uuid) (ps : List Mention) (r : Memory.Repository)
      (es : Entity.Memory.Repository) (e : Entity)
      → IsPending user document es ps
      → Memᴰ e (
          list_by_document user document
            (bulk_set_canonical_entity_id user (Memory.canonicalize normalize ps r).0 es))
      → e.canonical_entity_id ≢ none
  unfolding bulk_set_canonical_entity_id Memory.canonicalize
  resolved-linked user document ps r es e q h unlinked =
      let links = (canonicalize_all normalize ps (start r)).resolved in
      let (k, now, own) =
        mem-list_by_document user document e (record { rows = link_all user links es.rows })
          (link_all-Distinct user links es.rows q.distinct) h in
      let (row, unresolved) = link_all-back user k links es.rows e now unlinked in
      let mine : e.user_id ≡ user =
        (nat_eq.same_iff e.user_id user).0
          ((and_iff (e.user_id == user) (e.document_id == document)).0 own).0 in
      canonicalize_all-resolves e ps (start r)
        (q.pending e (list_by_document-mem user document k e es row own) unlinked)
        (ap (λ (x : Uuid). lookup x links) (q.named k e row) ∙ unresolved mine)

resolve_pending-linked :
    (normalize : String → String) (fields : String → List String) (user document : Uuid)
    (ps : List Mention) (r : Memory.Repository) (es : Entity.Memory.Repository) (e : Entity)
    → IsPending user document es ps
    → Memᴰ e (
        list_by_document user document
          (resolve_pending (repository normalize fields) entities user ps (r, es)).1.1)
    → e.canonical_entity_id ≢ none
resolve_pending-linked normalize fields user document [] r es e q h unlinked =
    elim (q.pending e h unlinked) [ ]
resolve_pending-linked normalize fields user document (p ∷ ps) r es e q h unlinked =
    resolved-linked normalize user document (p ∷ ps) r es e q h unlinked

-- After ResolveNew on the mentions that a document's listing gives, a second ResolveNew on the mentions
-- that the listing gives then has nothing to resolve and changes nothing, so no mention is counted
-- twice. Each row of the entities stands under its own ID and no key stands twice.
pub resolve_new_again :
    (normalize : String → String) (fields : String → List String) (user document : Uuid)
    (ms again : List Mention) (r : Memory.Repository) (es : Entity.Memory.Repository)
    → Distinct es.rows
    → ((k : Uuid) (x : Entity) → lookup k es.rows ≡ some x → x.id ≡ k)
    → entities_of ms ≡ list_by_document user document es
    → entities_of again
      ≡ list_by_document user document
          (resolve_new (repository normalize fields) entities user ms (r, es)).1.1
    → resolve_new
        (repository normalize fields)
        entities
        user
        again
        (resolve_new (repository normalize fields) entities user ms (r, es)).1
      ≡ (ok none, (resolve_new (repository normalize fields) entities user ms (r, es)).1)
unfolding resolve_new
resolve_new_again normalize fields user document ms again r es distinct named listed relisted =
    let q : IsPending user document es (pending_of ms) = record {
      distinct = distinct;
      named = named;
      pending = λ x h unlinked. pending_of-mem x ms (rw listed h) unlinked;
    } in
    let nothing : pending_of again ≡ [] = pending_of-none again (λ e h.
      resolve_pending-linked normalize fields user document (pending_of ms) r es e q
        (rw (← relisted) h)) in
    rw nothing refl
