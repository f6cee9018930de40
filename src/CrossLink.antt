-- ===== src/CrossLink.antt =====
-- Relations between entities of different chunks, and their in-memory repository:
-- internal/crosslink/crosslink.go and internal/crosslink/memory/memory.go. An ID's string form is ordered
-- as the ID is. A limit is a natural number, since every limit of 0 or below means none.
pub mod Names
pub mod Reviewed
pub mod Proper
use dumpster.Prelude.{
  ℕ, suc, ◌+◌, String, Bool, true, false, ◌&&◌, not, Option, none, some, List, [], ◌∷◌, ◌≡◌, ◌↔◌,
  arith,
}
use dumpster.Prelude.Tests.{if◌then◌else◌, ltb}
use dumpster.Prelude.Eq.{Eq, ◌==◌, nat_eq, string_eq}
use dumpster.Prelude.Lists.{length, take}
use dumpster.Prelude.Map.{Map, lookup, insert, delete}
use dumpster.Prelude.Sort.{sort_by}
use dumpster.Queue.Types.{Uuid}
use dumpster.CrossLink.Names.{Letters, is_capitalized}

-- `NoneRelation`
abbrev pub none_relation : String
none_relation = "none"

pub record Candidate : Type 0 where
  pub entity_a_id : Uuid
  pub entity_a_text : String
  pub chunk_a_id : Uuid
  pub chunk_a_text : String
  pub entity_b_id : Uuid
  pub entity_b_text : String
  pub chunk_b_id : Uuid
  pub chunk_b_text : String
  pub bridge_chunk_text : String

pub record Update : Type 0 where
  pub entity_a_id : Uuid
  pub entity_b_id : Uuid
  pub relation_type : String
  pub chunk_a_id : Uuid
  pub chunk_b_id : Uuid

pub record ConfirmedRelation : Type 0 where
  pub entity_a_text : String
  pub entity_b_text : String
  pub relation_type : String

-- `kbKey`
pub record KbKey : Type 0 where
  pub user_id : Uuid
  pub kb_id : Uuid

-- `pairKey`
pub record PairKey : Type 0 where
  pub entity_a_id : Uuid
  pub entity_b_id : Uuid

abbrev pub kb_key_beq : KbKey → KbKey → Bool
kb_key_beq a b = (a.user_id == b.user_id) && (a.kb_id == b.kb_id)

pub kb_key_beq_iff : (a b : KbKey) → (kb_key_beq a b ≡ true) ↔ (a ≡ b)
kb_key_beq_iff a b = ground arith

instance abbrev pub kb_key_eq : Eq KbKey
kb_key_eq = record { same = kb_key_beq; same_iff = kb_key_beq_iff }

abbrev pub pair_key_beq : PairKey → PairKey → Bool
pair_key_beq a b = (a.entity_a_id == b.entity_a_id) && (a.entity_b_id == b.entity_b_id)

pub pair_key_beq_iff : (a b : PairKey) → (pair_key_beq a b ≡ true) ↔ (a ≡ b)
pair_key_beq_iff a b = ground arith

instance abbrev pub pair_key_eq : Eq PairKey
pair_key_eq = record { same = pair_key_beq; same_iff = pair_key_beq_iff }

pub record Repository : Type 0 where
  pub candidates : Map KbKey (List Candidate)
  pub resolved : Map Uuid (Map PairKey String)

abbrev pub new : Repository
new = record { candidates = []; resolved = [] }

abbrev pub pair_of : Candidate → PairKey
pair_of c = record { entity_a_id = c.entity_a_id; entity_b_id = c.entity_b_id }

abbrev pub updated_pair : Update → PairKey
updated_pair u = record { entity_a_id = u.entity_a_id; entity_b_id = u.entity_b_id }

-- `SeedCandidates`
unfoldable pub seed_candidates : Uuid → Uuid → List Candidate → Repository → Repository
seed_candidates user kb cs r = record r {
  candidates = insert (record { user_id = user; kb_id = kb }) cs r.candidates;
}

-- `r.candidates[kbKey{userID, kbID}]`
abbrev pub seeded : Uuid → Uuid → Repository → List Candidate
seeded user kb r = elim (lookup (record { user_id = user; kb_id = kb }) r.candidates) [
  | none ↦ []
  | some cs ↦ cs
]

-- `r.resolved[userID]`, nil where it is missing
abbrev pub resolved_of : Uuid → Repository → Map PairKey String
resolved_of user r = elim (lookup user r.resolved) [ none ↦ [] | some m ↦ m ]

-- the loop of `CandidateChains`
unfoldable pub unresolved : Map PairKey String → List Candidate → List Candidate
unresolved m [] = []
unresolved m (c ∷ cs) =
    let rest = unresolved m cs in
    elim (lookup (pair_of c) m) [ none ↦ c ∷ rest | some relation ↦ rest ]

abbrev pub before : Candidate → Candidate → Bool
before a b = ltb a.entity_a_id b.entity_a_id

abbrev pub capped : ℕ → List Candidate → List Candidate
capped limit cs = if ltb 0 limit && ltb limit (length cs) then take limit cs else cs

-- `CandidateChains`
unfoldable pub candidate_chains : Uuid → Uuid → ℕ → Repository → List Candidate
candidate_chains user kb limit r =
    capped limit (sort_by before (unresolved (resolved_of user r) (seeded user kb r)))

-- the loop of `ApplyUpdates`
unfoldable pub record_updates : List Update → Map PairKey String → Map PairKey String
record_updates [] m = m
record_updates (u ∷ us) m = record_updates us (insert (updated_pair u) u.relation_type m)

-- `ApplyUpdates`
unfoldable pub apply_updates : Uuid → List Update → Repository → Repository
apply_updates user us r = record r {
  resolved = insert user (record_updates us (resolved_of user r)) r.resolved;
}

-- `Resolved`
unfoldable pub relation_between : Uuid → Uuid → Uuid → Repository → Option String
relation_between user a b r =
    lookup (record { entity_a_id = a; entity_b_id = b }) (resolved_of user r)

abbrev pub relation_of : Candidate → String → ConfirmedRelation
relation_of c relation = record {
  entity_a_text = c.entity_a_text;
  entity_b_text = c.entity_b_text;
  relation_type = relation;
}

-- the loop of `ListConfirmed`
unfoldable pub confirmed : Map PairKey String → List Candidate → List ConfirmedRelation
confirmed m [] = []
confirmed m (c ∷ cs) =
    let rest = confirmed m cs in
    elim (lookup (pair_of c) m) [
      | none ↦ rest
      | some relation ↦ if relation == none_relation then rest else relation_of c relation ∷ rest
    ]

-- `ListConfirmed`
unfoldable pub list_confirmed : Uuid → Uuid → Repository → List ConfirmedRelation
list_confirmed user kb r = confirmed (resolved_of user r) (seeded user kb r)

module _ (letters : Letters) where
  abbrev pub is_proper : Candidate → Bool
  is_proper c = is_capitalized letters c.entity_a_text && is_capitalized letters c.entity_b_text

  -- the loop of `PurgeLowQuality`, with its counter
  unfoldable pub purge : List Candidate → ℕ × Map PairKey String → ℕ × Map PairKey String
  purge [] (deleted, m) = (deleted, m)
  purge (c ∷ cs) (deleted, m) =
      let kept = purge cs (deleted, m) in
      let removed = purge cs (suc deleted, delete (pair_of c) m) in
      if is_proper c
      then kept
      else elim (lookup (pair_of c) m) [ none ↦ kept | some relation ↦ removed ]

  abbrev pub purged : Uuid → Uuid → Repository → Option (Map PairKey String) → ℕ × Repository
  purged user kb r none = (0, r)
  purged user kb r (some m) =
      let out = purge (seeded user kb r) (0, m) in
      (out.0, record r { resolved = insert user out.1 r.resolved })

  -- `PurgeLowQuality`
  unfoldable pub purge_low_quality : Uuid → Uuid → Repository → ℕ × Repository
  purge_low_quality user kb r = purged user kb r (lookup user r.resolved)
