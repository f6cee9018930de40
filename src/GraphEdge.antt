-- ===== src/GraphEdge.antt =====
-- Co-occurrence edges between mentions and their in-memory repository: internal/graphedge/graphedge.go
-- and internal/graphedge/memory/memory.go. IDs that `uuid.New()` draws come with the edges. An ID's
-- string form is ordered as the ID is. `CreatedAt` and `RelationType` keep Go's zero values here.
use dumpster.Prelude.{ℕ, String, ◌&&◌, ◌||◌, Option, none, List, [], ◌∷◌}
use dumpster.Prelude.Tests.{if◌then◌else◌, ltb}
use dumpster.Prelude.Eq.{nat_eq, ◌==◌}
use dumpster.Prelude.Map.{Map, insert}
use dumpster.Prelude.Map.Iterate.{values_where, delete_where}
use dumpster.Prelude.Sort.{sort_by}
use dumpster.Queue.Types.{Uuid}
use dumpster.Document.{Time}

pub record Edge : Type 0 where
  pub id : Uuid
  pub document_id : Uuid
  pub kb_id : Uuid
  pub user_id : Uuid
  pub chunk_id : Uuid
  pub entity_a_id : Uuid
  pub entity_b_id : Uuid
  pub co_occurrence_count : ℕ
  pub relation_type : Option String
  pub created_at : Time

-- `NewEdge`
unfoldable pub new_edge : Uuid → Uuid → Uuid → Uuid → Uuid → Uuid → Edge
new_edge document kb user chunk entity1 entity2 = record {
  id = 0;
  document_id = document;
  kb_id = kb;
  user_id = user;
  chunk_id = chunk;
  entity_a_id = if ltb entity2 entity1 then entity2 else entity1;
  entity_b_id = if ltb entity2 entity1 then entity1 else entity2;
  co_occurrence_count = 1;
  relation_type = none;
  created_at = 0;
}

pub record Repository : Type 0 where
  pub rows : Map Uuid Edge

abbrev pub new : Repository
new = record { rows = [] }

-- `BulkCreate`: each edge is stored as a copy under a new ID.
unfoldable pub bulk_create : List (Uuid × Edge) → Repository → Repository
bulk_create [] r = r
bulk_create ((id, e) ∷ es) r =
    bulk_create es (record { rows = insert id (record e { id = id }) r.rows })

-- `ListByEntity`
unfoldable pub list_by_entity : Uuid → Uuid → Repository → List Edge
list_by_entity user entity r =
    sort_by (λ a b. ltb a.chunk_id b.chunk_id)
      (values_where
        (λ e. (e.user_id == user) && ((e.entity_a_id == entity) || (e.entity_b_id == entity)))
        r.rows)

-- `DeleteByDocument`
unfoldable pub delete_by_document : Uuid → Uuid → Repository → Repository
delete_by_document user document r = record {
  rows = delete_where (λ e. (e.user_id == user) && (e.document_id == document)) r.rows;
}
