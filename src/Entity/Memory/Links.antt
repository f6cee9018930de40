-- ===== src/Entity/Memory/Links.antt =====
-- What BulkSetCanonicalEntityID links, of internal/entity/memory/memory.go.
use dumpster.Prelude.{◌≡◌, ◌≢◌, refl, ap, true, Option, none, some, [], ◌∷◌, arith, Memᴰ, inl, inr}
use dumpster.Prelude.Tests.{Bool-cases}
use dumpster.Prelude.Eq.{◌==◌, nat_eq}
use dumpster.Prelude.Map.{Map, lookup, Distinct, lookup-insert}
use dumpster.Prelude.Map.Iterate.{values_where, Distinct-insert, mem-values_where, values_where-mem}
use dumpster.Prelude.Sort.{sort_by-mem}
use dumpster.Queue.Types.{Uuid}
use dumpster.Entity.{Entity}
use dumpster.Entity.Memory.{Repository, before, of_document, list_by_document, linked, link_all}

linked-back :
    (user m k c : Uuid) (o : Option Entity) (rows : Map Uuid Entity) (e : Entity)
    → lookup m rows ≡ o
    → lookup k (linked user m c o rows) ≡ some e
    → e.canonical_entity_id ≡ none
    → (lookup k rows ≡ some e) × (e.user_id ≡ user → m ≢ k)
linked-back user m k c none rows e h now unlinked =
    (now, λ own same. cc (h, now, ap (λ (x : Uuid). lookup x rows) same))
linked-back user m k c (some d) rows e h now unlinked = ground (
  arith,
  lookup-insert m k (record d { canonical_entity_id = some c }) rows,
  h,
  now,
  unlinked,
  nat_eq.same_iff m k,
)

-- A row without a link afterwards was so before, and is not one that the call links.
pub link_all-back :
    (user k : Uuid) (links : Map Uuid Uuid) (rows : Map Uuid Entity) (e : Entity)
    → lookup k (link_all user links rows) ≡ some e
    → e.canonical_entity_id ≡ none
    → (lookup k rows ≡ some e) × (e.user_id ≡ user → lookup k links ≡ none)
unfolding link_all lookup
link_all-back user k [] rows e now unlinked = (now, λ own. refl)
link_all-back user k ((m, c) ∷ links) rows e now unlinked =
    let rest = link_all-back user k links (linked user m c (lookup m rows) rows) e now unlinked in
    let here = linked-back user m k c (lookup m rows) rows e refl rest.0 unlinked in
    (here.0, λ own. ground (arith, rest.1 own, here.1 own, nat_eq.same_iff m k))

linked-Distinct :
    (user m c : Uuid) (o : Option Entity) (rows : Map Uuid Entity)
    → Distinct rows
    → Distinct (linked user m c o rows)
linked-Distinct user m c none rows d = d
linked-Distinct user m c (some e) rows d = elim (Bool-cases (e.user_id == user)) [
  | inl own ↦ rw own (Distinct-insert m (record e { canonical_entity_id = some c }) rows d)
  | inr other ↦ rw other d
]

pub link_all-Distinct :
    (user : Uuid) (links : Map Uuid Uuid) (rows : Map Uuid Entity)
    → Distinct rows
    → Distinct (link_all user links rows)
unfolding link_all
link_all-Distinct user [] rows d = d
link_all-Distinct user ((m, c) ∷ links) rows d =
    link_all-Distinct user links (linked user m c (lookup m rows) rows)
      (linked-Distinct user m c (lookup m rows) rows d)

-- The listing of a document holds exactly its rows.
pub list_by_document-mem :
    (user document k : Uuid) (e : Entity) (r : Repository)
    → lookup k r.rows ≡ some e
    → of_document user document e ≡ true
    → Memᴰ e (list_by_document user document r)
unfolding list_by_document
list_by_document-mem user document k e r h own =
    (sort_by-mem before e (values_where (of_document user document) r.rows)).1
      (values_where-mem (of_document user document) k e r.rows h own)

pub mem-list_by_document :
    (user document : Uuid) (e : Entity) (r : Repository)
    → Distinct r.rows
    → Memᴰ e (list_by_document user document r)
    → (k : Uuid) × (lookup k r.rows ≡ some e) × (of_document user document e ≡ true)
unfolding list_by_document
mem-list_by_document user document e r d h =
    mem-values_where (of_document user document) e r.rows d
      ((sort_by-mem before e (values_where (of_document user document) r.rows)).0 h)
