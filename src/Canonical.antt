-- ===== src/Canonical.antt =====
-- Canonical entities, the identities that mentions resolve to, and `ResolveNew`:
-- internal/canonical/canonical.go.
pub mod Memory
pub mod Alias
pub mod Repeat
use dumpster.Prelude.{ℕ, String, Bool, Option, none, some, List, [], ◌∷◌}
use dumpster.Prelude.Tests.{if◌then◌else◌}
use dumpster.Prelude.Integer.{ℤ}
use dumpster.Prelude.Map.{Map}
use dumpster.Queue.Types.{Uuid}
use dumpster.Document.{Time}
use dumpster.Entity.{Entity, Kind}
use dumpster.Entity

pub record CanonicalEntity : Type 0 where
  pub id : Uuid
  pub kb_id : Uuid
  pub user_id : Uuid
  pub canonical_text : String
  pub normalized_text : String
  pub kind : Kind
  pub mention_count : ℕ
  pub document_count : ℤ
  pub created_at : Time
  pub updated_at : Time

-- `ErrNotFound`, or an error of another implementation's own.
pub data Error : Type 0 where
  not_found : Error
  other : String → Error

pub data Result {ℓ} (A : Type ℓ) : Type ℓ where
  ok : A → Result A
  err : Error → Result A

pub record AliasCandidate : Type 0 where
  pub id : Uuid
  pub canonical_text : String
  pub normalized_text : String
  pub mention_count : ℕ
  pub created_at : Time

-- A mention with the ID and the time that `uuid.New()` and `time.Now()` give when it gets a new row.
abbrev pub Mention : Type 0
Mention = Uuid × Time × Entity

-- The methods of `Repository` that this package calls, over a state `W`.
pub record Repository (W : Type 0) : Type 0 where
  pub canonicalize : List Mention → W → Result (Map Uuid Uuid) × W
  pub get : Uuid → Uuid → W → Result CanonicalEntity
  pub list_by_kb : Uuid → Uuid → W → Result (List CanonicalEntity)
  pub fuzzy_candidates : Uuid → Uuid → String → Kind → Uuid → W → Result (List AliasCandidate)
  pub merge_into : Uuid → Uuid → Uuid → W → Option Error × W

-- the loop that collects the mentions with `CanonicalEntityID == nil`
unfoldable pub pending_of : List Mention → List Mention
pending_of [] = []
pending_of ((id, now, m) ∷ ms) =
    let rest = pending_of ms in
    elim m.canonical_entity_id [ none ↦ (id, now, m) ∷ rest | some c ↦ rest ]

module _ {W : Type 0} (repo : Repository W) (entities : Entity.Repository W) where
  abbrev linked : Map Uuid Uuid → Option String × W → Result (Option (Map Uuid Uuid)) × W
  linked resolved (some e, w) = (err (other e), w)
  linked resolved (none, w) = (ok (some resolved), w)

  abbrev resolved_by : Uuid → Result (Map Uuid Uuid) × W → Result (Option (Map Uuid Uuid)) × W
  resolved_by user (err e, w) = (err e, w)
  resolved_by user (ok resolved, w) =
      linked resolved (entities.bulk_set_canonical_entity_id user resolved w)

  abbrev resolve_pending : Uuid → List Mention → W → Result (Option (Map Uuid Uuid)) × W
  resolve_pending user [] w = (ok none, w)
  resolve_pending user (p ∷ ps) w = resolved_by user (repo.canonicalize (p ∷ ps) w)

  -- `ResolveNew`; its nil map is `none`.
  unfoldable pub resolve_new : Uuid → List Mention → W → Result (Option (Map Uuid Uuid)) × W
  resolve_new user mentions w = resolve_pending user (pending_of mentions) w
