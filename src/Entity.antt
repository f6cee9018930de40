-- ===== src/Entity.antt =====
-- Entity mentions and what their repository offers: internal/entity/entity.go.
pub mod Memory
use dumpster.Prelude.{ℕ, String, Option, List}
use dumpster.Prelude.Map.{Map}
use dumpster.Queue.Types.{Uuid}

-- `Type`, a string that the configuration supplies.
abbrev pub Kind : Type 0
Kind = String

-- `score` is the bit pattern of the float, which no operation here reads.
pub record Entity : Type 0 where
  pub id : Uuid
  pub document_id : Uuid
  pub kb_id : Uuid
  pub user_id : Uuid
  pub chunk_id : Uuid
  pub kind : Kind
  pub text : String
  pub start : ℕ
  pub end : ℕ
  pub score : ℕ
  pub canonical_entity_id : Option Uuid

-- The method of `Repository` that `ResolveNew` calls, over a state `W`, with its error.
pub record Repository (W : Type 0) : Type 0 where
  pub bulk_set_canonical_entity_id : Uuid → Map Uuid Uuid → W → Option String × W
