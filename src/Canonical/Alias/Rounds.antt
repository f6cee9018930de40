-- ===== src/Canonical/Alias/Rounds.antt =====
-- ResolveAliases over the in-memory repository: internal/canonical/alias.go with
-- internal/canonical/memory/memory.go.
use dumpster.Prelude.{
  String, ◌≡◌, refl, sym, ap, ◌∙◌, subst, Option, none, some, List, [], ◌∷◌, inl, inr,
}
use dumpster.Prelude.Tests.{Bool-cases}
use dumpster.Prelude.Eq.{◌==◌, nat_eq}
use dumpster.Prelude.Map.{Map, lookup}
use dumpster.Queue.Types.{Uuid}
use dumpster.Canonical.{CanonicalEntity, AliasCandidate, ok}
use dumpster.Canonical.Memory
use dumpster.Canonical.Memory.{found, absorb, merged, merge, merge_into}
use dumpster.Canonical.Memory.Counts.{IsBalanced}
use dumpster.Canonical.Alias.Candidates.{IsOwn, Apart, AreRows, fuzzy_candidates-AreRows}
use dumpster.Canonical.Alias.Merges.{repository, beside, merge_all-done}
use dumpster.Canonical.Alias.{
  Verdicts, answered, unanswered, AliasJudge, Failure, in_judge, judged, with_candidates, with_row,
  resolve_aliases_for, return_or, resolve_aliases,
}

-- The judge's failure, or none.
unfoldable pub IsFromJudge : Option Failure → Type 0
IsFromJudge none = Unit
IsFromJudge (some (in_judge e)) = Unit
IsFromJudge (some failure) = ⊥

module _ (normalize : String → String) (fields : String → List String) {J : Type 0}
    (judge : AliasJudge J) where
  -- Nothing failed but the judge, and the counters are right.
  abbrev IsGood : Option Failure × (Memory.Repository × J) → Type 0
  IsGood out = IsFromJudge out.0 × IsBalanced out.1.0

  judged-IsGood :
      (user : Uuid) (ce : CanonicalEntity) (cands : List AliasCandidate) (v : Verdicts)
      (r : Memory.Repository) (j : J)
      → IsOwn user (lookup ce.id r.rows)
      → Apart ce.id cands × AreRows user r.rows cands
      → IsBalanced r
      → IsGood (judged (repository normalize fields) (beside judge) user ce cands (v, (r, j)))
  unfolding IsFromJudge
  judged-IsGood user ce cands (unanswered e) r j own rows b = (tt, b)
  judged-IsGood user ce cands (answered vs) r j own rows b =
      let (done, after) =
        merge_all-done normalize fields judge user ce cands vs r j own rows.0 rows.1 b in
      (subst IsFromJudge (sym done) tt, after)

  with_candidates-IsGood :
      (user : Uuid) (ce : CanonicalEntity) (cands : List AliasCandidate) (r : Memory.Repository)
      (j : J)
      → IsOwn user (lookup ce.id r.rows)
      → Apart ce.id cands × AreRows user r.rows cands
      → IsBalanced r
      → IsGood
          (with_candidates (repository normalize fields) (beside judge) user ce (ok cands) (r, j))
  unfolding IsFromJudge
  with_candidates-IsGood user ce [] r j own rows b = (tt, b)
  with_candidates-IsGood user ce (c ∷ cs) r j own rows b =
      judged-IsGood user ce (c ∷ cs) _ r _ own rows b

  with_row-IsGood :
      (user kb id : Uuid) (o : Option CanonicalEntity) (r : Memory.Repository) (j : J)
      → lookup id r.rows ≡ o
      → IsBalanced r
      → IsGood (with_row (repository normalize fields) (beside judge) user kb (found user o) (r, j))
  with_row-IsGood user kb id none r j e b = (unfold IsFromJudge in tt, b)
  with_row-IsGood user kb id (some ce) r j e b = elim (Bool-cases (ce.user_id == user)) [
    | inr other ↦ rw other (unfold IsFromJudge in tt, b)
    | inl own ↦
        let mine : IsOwn user (some ce) = (nat_eq.same_iff ce.user_id user).0 own in
        let row : lookup ce.id r.rows ≡ some ce =
          ap (λ (y : Uuid). lookup y r.rows) (b.named id ce e) ∙ e in
        rw own (
          with_candidates-IsGood user ce _ r j (subst (IsOwn user) (sym row) mine)
            (fuzzy_candidates-AreRows fields user kb ce.normalized_text ce.kind ce.id r b) b)
  ]

  return_or-IsGood :
      (out rest : Option Failure × (Memory.Repository × J))
      → IsGood out
      → IsGood rest
      → IsGood (return_or out rest)
  return_or-IsGood (some e, w) rest h k = h
  return_or-IsGood (none, w) rest h k = k

  resolve_aliases_for-IsGood :
      (user kb : Uuid) (ids : List Uuid) (r : Memory.Repository) (j : J)
      → IsBalanced r
      → IsGood (resolve_aliases_for (repository normalize fields) (beside judge) user kb ids (r, j))
  unfolding resolve_aliases_for Memory.get
  resolve_aliases_for-IsGood user kb [] r j b = (unfold IsFromJudge in tt, b)
  resolve_aliases_for-IsGood user kb (id ∷ ids) r j b =
      let round =
        with_row (repository normalize fields) (beside judge) user kb (Memory.get user id r)
          (r, j) in
      let (judge_only, after) = with_row-IsGood user kb id _ r j refl b in
      return_or-IsGood round _ (judge_only, after)
        (resolve_aliases_for-IsGood user kb ids round.1.0 round.1.1 after)

  -- Over the in-memory repository, ResolveAliases fails only where the judge fails, whatever the judge
  -- answers and whatever IDs it is given; and then as after a success, every row still stands under its
  -- own ID and counts what the documents contribute. This held before the call.
  pub resolve_aliases-IsGood :
      (user kb : Uuid) (resolved : Map Uuid Uuid) (r : Memory.Repository) (j : J)
      → IsBalanced r
      → IsFromJudge
          (resolve_aliases (repository normalize fields) (beside judge) user kb resolved (r, j)).0
        × IsBalanced
            (resolve_aliases
              (repository normalize fields)
              (beside judge)
              user
              kb
              resolved
              (r, j)).1.0
  unfolding resolve_aliases
  resolve_aliases-IsGood user kb resolved r j b = resolve_aliases_for-IsGood user kb _ r j b
