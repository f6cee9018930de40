-- ===== src/Manifest.antt =====
-- The regions of a document and their in-memory repository: internal/manifest/manifest.go and
-- internal/manifest/memory/memory.go. The IDs that `uuid.New()` draws come with the regions.
use dumpster.Prelude.{ℕ, String, Bool, ◌&&◌, not, List, [], ◌∷◌}
use dumpster.Prelude.Tests.{if◌then◌else◌, ltb}
use dumpster.Prelude.Eq.{nat_eq, ◌==◌}
use dumpster.Prelude.Map.{Map, insert}
use dumpster.Prelude.Map.Iterate.{values_where, delete_where}
use dumpster.Prelude.Sort.{sort_by}
use dumpster.Queue.Types.{Uuid}
use dumpster.Document.{Time}

-- Go's `RegionType` and `Status` are strings; `other` holds those that no constant names.
pub data RegionType : Type 0 where
  native_text native_table figure scanned_text scanned_table : RegionType
  other : String → RegionType

pub data Status : Type 0 where
  indexed skipped failed : Status
  other_status : String → Status

-- The coordinates are floats in [0, 1], which are ordered as their bit patterns are.
pub record BoundingBox : Type 0 where
  pub x0 : ℕ
  pub y0 : ℕ
  pub x1 : ℕ
  pub y1 : ℕ

pub record Region : Type 0 where
  pub id : Uuid
  pub document_id : Uuid
  pub kb_id : Uuid
  pub user_id : Uuid
  pub region_type : RegionType
  pub page_number : ℕ
  pub bounding_box : BoundingBox
  pub status : Status
  pub extractor_version : String
  pub created_at : Time

pub record Repository : Type 0 where
  pub rows : Map Uuid Region

abbrev pub new : Repository
new = record { rows = [] }

-- `BulkCreate`: each region is stored as a copy under a new ID.
unfoldable pub bulk_create : List (Uuid × Region) → Repository → Repository
bulk_create [] r = r
bulk_create ((id, reg) ∷ regs) r =
    bulk_create regs (record { rows = insert id (record reg { id = id }) r.rows })

abbrev pub of_document : Uuid → Uuid → Region → Bool
of_document user document reg = (reg.user_id == user) && (reg.document_id == document)

-- the `less` of `sort.Slice`
abbrev pub before : Region → Region → Bool
before a b =
    if not (a.page_number == b.page_number)
    then ltb a.page_number b.page_number
    else ltb a.bounding_box.y0 b.bounding_box.y0

-- `ListByDocument`
unfoldable pub list_by_document : Uuid → Uuid → Repository → List Region
list_by_document user document r = sort_by before (values_where (of_document user document) r.rows)

-- `DeleteByDocument`
unfoldable pub delete_by_document : Uuid → Uuid → Repository → Repository
delete_by_document user document r = record {
  rows = delete_where (of_document user document) r.rows;
}
