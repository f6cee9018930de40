-- ===== src/Canonical/Alias.antt =====
-- The merging of canonical entities that a judge finds to be the same: internal/canonical/alias.go.
-- The judge is a parameter, over the same state as the repository.
pub mod Candidates
pub mod Merges
pub mod Rounds
use dumpster.Prelude.{ℕ, String, Bool, true, false, not, Option, none, some, List, [], ◌∷◌, map}
use dumpster.Prelude.Tests.{if◌then◌else◌, ltb}
use dumpster.Prelude.Lists.{length}
use dumpster.Prelude.Integer.{ℤ, minus}
use dumpster.Prelude.Eq.{◌==◌, nat_eq}
use dumpster.Prelude.Map.{Map, lookup, insert}
use dumpster.Queue.Types.{Uuid}
use dumpster.Document.{Time}
use dumpster.Entity.{Kind}
use dumpster.Canonical.{CanonicalEntity, AliasCandidate, Error, Result, ok, err, Repository}

-- A judge answers for each candidate, or fails.
pub data Verdicts : Type 0 where
  answered : List Bool → Verdicts
  unanswered : String → Verdicts

-- `AliasJudge`
pub record AliasJudge (W : Type 0) : Type 0 where
  pub same_entity_batch : Kind → String → List String → W → Verdicts × W

-- The call that an error wraps.
pub data Failure : Type 0 where
  in_list in_candidates in_merge : Error → Failure
  in_judge : String → Failure

-- What `ResolveAllAliases` returns: the merges or the error.
pub data Count : Type 0 where
  merges : ℤ → Count
  failed : Failure → Count

-- `candidateSurvives`. An ID's string form is ordered as the ID is.
unfoldable pub candidate_survives : ℕ → Time → Uuid → ℕ → Time → Uuid → Bool
candidate_survives ce_mentions ce_created_at ce_id cand_mentions cand_created_at cand_id =
    if not (cand_mentions == ce_mentions)
    then ltb ce_mentions cand_mentions
    else if not (cand_created_at == ce_created_at)
    then ltb cand_created_at ce_created_at
    else ltb cand_id ce_id

-- `from, to`
abbrev pub direction : CanonicalEntity → AliasCandidate → Uuid × Uuid
direction ce cand =
    if not (
      candidate_survives ce.mention_count ce.created_at ce.id cand.mention_count cand.created_at
        cand.id)
    then (cand.id, ce.id)
    else (ce.id, cand.id)

-- The loop of `ResolveAliases` over the values of its map, with `seen`.
unfoldable pub distinct_ids : Map Uuid Uuid → Map Uuid Bool → List Uuid
distinct_ids [] seen = []
distinct_ids ((mention, id) ∷ resolved) seen =
    let rest = distinct_ids resolved seen in
    let others = distinct_ids resolved (insert id true seen) in
    elim (lookup id seen) [ some b ↦ rest | none ↦ id ∷ others ]

-- `if err != nil { return … }` in the loop
abbrev pub return_or : {W : Type 0} → Option Failure × W → Option Failure × W → Option Failure × W
return_or (some e, w) rest = (some e, w)
return_or (none, w) rest = rest

module _ {W : Type 0} (repo : Repository W) (judge : AliasJudge W) where
  abbrev pub after_merge : Bool → Option Error × W → Option Failure × W → Option Failure × W
  after_merge ce_gone (some e, w) rest = (some (in_merge e), w)
  after_merge ce_gone (none, w) rest = if ce_gone then (none, w) else rest

  -- the loop over the candidates and their verdicts, which ends when `ce` is merged away
  unfoldable pub merge_all :
      Uuid → CanonicalEntity → List AliasCandidate → List Bool → W → Option Failure × W
  merge_all user ce [] verdicts w = (none, w)
  merge_all user ce (cand ∷ cands) [] w = merge_all user ce cands [] w
  merge_all user ce (cand ∷ cands) (false ∷ verdicts) w = merge_all user ce cands verdicts w
  merge_all user ce (cand ∷ cands) (true ∷ verdicts) w =
      let (source, to) = direction ce cand in
      let merged = repo.merge_into user source to w in
      let rest = merge_all user ce cands verdicts merged.1 in
      after_merge (source == ce.id) merged rest

  abbrev judged : Uuid → CanonicalEntity → List AliasCandidate → Verdicts × W → Option Failure × W
  judged user ce cands (unanswered e, w) = (some (in_judge e), w)
  judged user ce cands (answered verdicts, w) = merge_all user ce cands verdicts w

  abbrev with_candidates :
      Uuid → CanonicalEntity → Result (List AliasCandidate) → W → Option Failure × W
  with_candidates user ce (err e) w = (some (in_candidates e), w)
  with_candidates user ce (ok []) w = (none, w)
  with_candidates user ce (ok (cand ∷ cands)) w = judged user ce (cand ∷ cands) (
      judge.same_entity_batch ce.kind ce.normalized_text
        (map (λ c. c.normalized_text) (cand ∷ cands)) w)

  -- One round: a row that is gone, as one merged away before, is passed over.
  abbrev with_row : Uuid → Uuid → Result CanonicalEntity → W → Option Failure × W
  with_row user kb (err e) w = (none, w)
  with_row user kb (ok ce) w =
      with_candidates user ce (repo.fuzzy_candidates user kb ce.normalized_text ce.kind ce.id w) w

  -- `resolveAliasesFor`
  unfoldable pub resolve_aliases_for : Uuid → Uuid → List Uuid → W → Option Failure × W
  resolve_aliases_for user kb [] w = (none, w)
  resolve_aliases_for user kb (id ∷ ids) w =
      let round = with_row user kb (repo.get user id w) w in
      return_or round (resolve_aliases_for user kb ids round.1)

  -- `ResolveAliases`
  unfoldable pub resolve_aliases : Uuid → Uuid → Map Uuid Uuid → W → Option Failure × W
  resolve_aliases user kb resolved w = resolve_aliases_for user kb (distinct_ids resolved []) w

  abbrev recounted : ℕ → Result (List CanonicalEntity) → Count
  recounted before (err e) = failed (in_list e)
  recounted before (ok after) = merges (minus before (length after))

  abbrev swept : Uuid → Uuid → Result (List CanonicalEntity) → W → Count × W
  swept user kb (err e) w = (failed (in_list e), w)
  swept user kb (ok all) w =
      let ids = map (λ ce. ce.id) all in
      let run = resolve_aliases_for user kb ids w in
      elim run.0 [
        | some e ↦ (failed e, run.1)
        | none ↦ (recounted (length ids) (repo.list_by_kb user kb run.1), run.1)
      ]

  -- `ResolveAllAliases`
  unfoldable pub resolve_all_aliases : Uuid → Uuid → W → Count × W
  resolve_all_aliases user kb w = swept user kb (repo.list_by_kb user kb w) w
