-- ===== src/Worker/Edges.antt =====
-- The handler that derives the edges of a document: internal/worker/edgehandler.go, over collaborators
-- with one state `W`. Logging is left out.
pub mod Derived
pub mod Groups
pub mod Sound
use dumpster.Prelude.{ℕ, String, Bool, Option, none, some, List, [], ◌∷◌, ◌++◌}
use dumpster.Prelude.Tests.{if◌then◌else◌, ltb}
use dumpster.Prelude.Eq.{nat_eq}
use dumpster.Prelude.Lists.{length}
use dumpster.Prelude.Map.{Map, lookup, insert}
use dumpster.Queue.Types.{Uuid}
use dumpster.Document
use dumpster.Document.{Document, ok, err}
use dumpster.Entity.{Entity}
use dumpster.GraphEdge.{Edge, new_edge}
use dumpster.Pipeline.{Error, document, wrapped}
use dumpster.Pipeline.EmbedTail.{Outcome, done, failing}
use dumpster.Worker.{Job, Handler, retryable}

abbrev pub max_entities_for_edges : ℕ
max_entities_for_edges = 25

-- `byChunk[key]`, empty where it is missing
abbrev pub group_at : Uuid → Map Uuid (List Entity) → List Entity
group_at chunk m = elim (lookup chunk m) [ none ↦ [] | some es ↦ es ]

-- `byChunk[key] = append(byChunk[key], e)`
abbrev pub add_to_group : Entity → Map Uuid (List Entity) → Map Uuid (List Entity)
add_to_group e m = insert e.chunk_id (group_at e.chunk_id m ++ e ∷ []) m

unfoldable pub group_by_chunk : List Entity → Map Uuid (List Entity) → Map Uuid (List Entity)
group_by_chunk [] m = m
group_by_chunk (e ∷ es) m = group_by_chunk es (add_to_group e m)

module _ (doc kb user : Uuid) where
  -- the inner loop: the edges from one mention to those after it
  unfoldable pub edges_from : Entity → List Entity → List Edge
  edges_from x [] = []
  edges_from x (y ∷ ys) = new_edge doc kb user x.chunk_id x.id y.id ∷ edges_from x ys

  -- the two loops over one group
  unfoldable pub edges_within : List Entity → List Edge
  edges_within [] = []
  edges_within (x ∷ xs) = edges_from x xs ++ edges_within xs

  -- the loop over the groups, which passes over those that are too large
  unfoldable pub edges_of : Map Uuid (List Entity) → List Edge
  edges_of [] = []
  edges_of ((chunk, group) ∷ m) =
      let rest = edges_of m in
      if ltb max_entities_for_edges (length group) then rest else edges_within group ++ rest

  -- all the edges of a document's mentions
  unfoldable pub derive : List Entity → List Edge
  derive entities = edges_of (group_by_chunk entities [])

-- `EdgeHandler`
pub record EdgeHandler (W : Type 0) : Type 0 where
  pub docs : Document.Repository W
  pub list_entities : Uuid → Uuid → W → Outcome (List Entity)
  pub delete_edges : Uuid → Uuid → W → Option Error × W
  pub create_edges : List Edge → W → Option Error × W
  pub sql_state : String → Option (List ℕ)

module _ {W : Type 0} (h : EdgeHandler W) where
  abbrev failed? : Option Error × W → Option Error × W
  failed? (none, w) = (none, w)
  failed? (some e, w) = (some (wrapped (retryable h.sql_state e)), w)

  abbrev cleared : List Edge → Option Error × W → Option Error × W
  cleared edges (some e, w) = (some (wrapped (retryable h.sql_state e)), w)
  cleared [] (none, w) = (none, w)
  cleared (e ∷ es) (none, w) = failed? (h.create_edges (e ∷ es) w)

  abbrev with_entities : Job → Document → Outcome (List Entity) → W → Option Error × W
  with_entities job doc (failing e) w = (some (wrapped (retryable h.sql_state e)), w)
  with_entities job doc (done entities) w =
      cleared (derive job.document_id doc.kb_id job.user_id entities)
        (h.delete_edges job.user_id job.document_id w)

  abbrev with_document : Job → Document.Result Document → W → Option Error × W
  with_document job (err e) w = (some (wrapped (retryable h.sql_state (document e))), w)
  with_document job (ok doc) w =
      with_entities job doc (h.list_entities job.user_id job.document_id w) w

  -- `Handle`
  unfoldable pub handle : Job → W → Option Error × W
  handle job w = with_document job (h.docs.get job.user_id job.document_id w) w

  -- `OnFailed` only logs.
  abbrev pub handler : Handler W
  handler = record { handle = handle; on_failed = λ job w. w }
