-- ===== src/Canonical/Memory/Fuzzy.antt =====
-- `FuzzyCandidates` of the in-memory repository of canonical entities and its token sets:
-- internal/canonical/memory/memory.go. `strings.Fields` is a parameter.
use dumpster.Prelude.{String, Bool, true, false, ◌||◌, not, List, [], ◌∷◌, map}
use dumpster.Prelude.Tests.{if◌then◌else◌}
use dumpster.Prelude.Eq.{◌==◌, nat_eq, string_eq}
use dumpster.Prelude.Map.{Map, insert}
use dumpster.Prelude.Map.Iterate.{values_where}
use dumpster.Queue.Types.{Uuid}
use dumpster.Entity.{Kind}
use dumpster.Canonical.{CanonicalEntity, AliasCandidate}
use dumpster.Canonical.Memory.{Repository, member}

-- `isSubset`
unfoldable pub is_subset : Map String Bool → Map String Bool → Bool
is_subset [] b = true
is_subset ((tok, t) ∷ a) b = let rest = is_subset a b in if not (member tok b) then false else rest

-- the loop of `tokenSet`
unfoldable pub collect : List String → Map String Bool → Map String Bool
collect [] set = set
collect (tok ∷ toks) set = collect toks (insert tok true set)

abbrev pub candidate_of : CanonicalEntity → AliasCandidate
candidate_of ce = record {
  id = ce.id;
  canonical_text = ce.canonical_text;
  normalized_text = ce.normalized_text;
  mention_count = ce.mention_count;
  created_at = ce.created_at;
}

module _ (fields : String → List String) where
  -- `tokenSet`
  abbrev pub token_set : String → Map String Bool
  token_set s = collect (fields s) []

  -- the guards of the loop of `FuzzyCandidates`
  unfoldable pub is_candidate : Uuid → Uuid → String → Kind → Uuid → CanonicalEntity → Bool
  is_candidate user kb normalized kind exclude ce =
      let target = token_set normalized in
      let alias = token_set ce.normalized_text in
      if not (ce.user_id == user)
        || not (ce.kb_id == kb)
        || not (ce.kind == kind)
        || (ce.id == exclude)
      then false
      else if ce.normalized_text == normalized
      then false
      else is_subset target alias || is_subset alias target

  -- `FuzzyCandidates`
  unfoldable pub fuzzy_candidates :
      Uuid → Uuid → String → Kind → Uuid → Repository → List AliasCandidate
  fuzzy_candidates user kb normalized kind exclude r =
      map candidate_of (values_where (is_candidate user kb normalized kind exclude) r.rows)
