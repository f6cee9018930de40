-- ===== src/Entity/Memory.antt =====
-- The in-memory repository of entity mentions: internal/entity/memory/memory.go. The IDs that
-- `uuid.New()` draws come with the mentions. An ID's string form is ordered as the ID is.
pub mod Links
use dumpster.Prelude.{Bool, true, ◌&&◌, not, Option, none, some, List, [], ◌∷◌}
use dumpster.Prelude.Tests.{if◌then◌else◌, ltb}
use dumpster.Prelude.Eq.{nat_eq, ◌==◌}
use dumpster.Prelude.Map.{Map, lookup, insert}
use dumpster.Prelude.Map.Iterate.{values_where, delete_where}
use dumpster.Prelude.Sort.{sort_by}
use dumpster.Queue.Types.{Uuid}
use dumpster.Entity.{Entity}

pub record Repository : Type 0 where
  pub rows : Map Uuid Entity

abbrev pub new : Repository
new = record { rows = [] }

-- `BulkCreate`: each entity is stored as a copy under a new ID.
unfoldable pub bulk_create : List (Uuid × Entity) → Repository → Repository
bulk_create [] r = r
bulk_create ((id, e) ∷ es) r =
    bulk_create es (record { rows = insert id (record e { id = id }) r.rows })

-- `e.UserID == userID && e.DocumentID == documentID`
abbrev pub of_document : Uuid → Uuid → Entity → Bool
of_document user document e = (e.user_id == user) && (e.document_id == document)

-- the `less` of `sort.Slice`
abbrev pub before : Entity → Entity → Bool
before a b =
    if not (a.chunk_id == b.chunk_id) then ltb a.chunk_id b.chunk_id else ltb a.start b.start

-- `ListByDocument`
unfoldable pub list_by_document : Uuid → Uuid → Repository → List Entity
list_by_document user document r = sort_by before (values_where (of_document user document) r.rows)

-- `out[e.ChunkID] = true` for each entity
unfoldable pub chunk_set : List Entity → Map Uuid Bool → Map Uuid Bool
chunk_set [] out = out
chunk_set (e ∷ es) out = chunk_set es (insert e.chunk_id true out)

-- `ChunkIDsWithEntities`
unfoldable pub chunk_ids_with_entities : Uuid → Uuid → Repository → Map Uuid Bool
chunk_ids_with_entities user document r =
    chunk_set (values_where (of_document user document) r.rows) []

-- `DeleteByDocument`
unfoldable pub delete_by_document : Uuid → Uuid → Repository → Repository
delete_by_document user document r = record {
  rows = delete_where (of_document user document) r.rows;
}

-- `if !ok || e.UserID != userID { continue }`, and else the link
abbrev pub linked : Uuid → Uuid → Uuid → Option Entity → Map Uuid Entity → Map Uuid Entity
linked user mention canonical none rows = rows
linked user mention canonical (some e) rows =
    if not (e.user_id == user)
    then rows
    else insert mention (record e { canonical_entity_id = some canonical }) rows

unfoldable pub link_all : Uuid → Map Uuid Uuid → Map Uuid Entity → Map Uuid Entity
link_all user [] rows = rows
link_all user ((mention, canonical) ∷ links) rows =
    link_all user links (linked user mention canonical (lookup mention rows) rows)

-- `BulkSetCanonicalEntityID`
unfoldable pub bulk_set_canonical_entity_id : Uuid → Map Uuid Uuid → Repository → Repository
bulk_set_canonical_entity_id user links r = record { rows = link_all user links r.rows }
