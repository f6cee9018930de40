-- ===== src/Canonical/Alias/Merges.antt =====
-- Alias resolution over the in-memory repository: internal/canonical/alias.go with
-- internal/canonical/memory/memory.go.
use dumpster.Prelude.{
  ℕ, String, ◌≡◌, ◌≢◌, refl, sym, ap, ◌∙◌, Bool, true, false, not, Option, none, some, List, [],
  ◌∷◌, arith, inl, inr,
}
use dumpster.Prelude.Tests.{beq_ne, if◌then◌else◌, Bool-cases}
use dumpster.Prelude.Eq.{◌==◌, nat_eq}
use dumpster.Prelude.Map.{Map, lookup, insert, lookup-insert, lookup-delete}
use dumpster.Queue.Types.{Uuid}
use dumpster.Document.{Time}
use dumpster.Canonical.{CanonicalEntity, AliasCandidate, Error, ok, Repository}
use dumpster.Canonical.Memory
use dumpster.Canonical.Memory.{found, absorb, merged, merge, merge_into}
use dumpster.Canonical.Memory.Fuzzy.{fuzzy_candidates}
use dumpster.Canonical.Memory.Counts.{IsBalanced, merge_into-IsBalanced}
use dumpster.Canonical.Alias.Candidates.{IsOwn, Apart, AreRows}
use dumpster.Canonical.Alias.{
  AliasJudge, candidate_survives, direction, after_merge, after_merge, merge_all,
}

-- Of two rows with different IDs, exactly one survives, whichever of them the other is met from.
pub candidate_survives-exclusive :
    (m n : ℕ) (s t : Time) (i j : Uuid)
    → i ≢ j
    → candidate_survives m s i n t j ≡ not (candidate_survives n t j m s i)
unfolding candidate_survives
candidate_survives-exclusive m n s t i j apart = ground arith

module _ (normalize : String → String) (fields : String → List String) {J : Type 0} where
  -- The in-memory repository, beside the state of a judge.
  abbrev pub repository : Repository (Memory.Repository × J)
  repository = record {
    canonicalize =
        λ ms w. let (resolved, r) = Memory.canonicalize normalize ms w.0 in (ok resolved, (r, w.1));
    get = λ user id w. Memory.get user id w.0;
    list_by_kb = λ user kb w. ok (Memory.list_by_kb user kb w.0);
    fuzzy_candidates =
        λ user kb text kind exclude w. ok (fuzzy_candidates fields user kb text kind exclude w.0);
    merge_into =
        λ user source to w. let (e, r) = Memory.merge_into user source to w.0 in (e, (r, w.1));
  }

-- A judge that leaves the repository alone.
abbrev pub beside : {J : Type 0} → AliasJudge J → AliasJudge (Memory.Repository × J)
beside judge = record {
  same_entity_batch = λ kind text cands w.
      let (verdicts, j) = judge.same_entity_batch kind text cands w.1 in (verdicts, (w.0, j));
}

merged-IsOwn :
    (user source to id : Uuid) (f t : CanonicalEntity) (r : Memory.Repository)
    → t.user_id ≡ user
    → source ≢ id
    → IsOwn user (lookup id r.rows)
    → IsOwn user (lookup id (merged user source to f t r).rows)
merged-IsOwn user source to id f t r own apart h =
    rw
      (
        lookup-delete source id (insert to (absorb f t) r.rows),
        lookup-insert to id (absorb f t) r.rows,
      )
      (ground (arith, nat_eq.same_iff source id, own, h, apart))

-- What a merge of two rows of the user's does: it succeeds, and only the first is gone.
record IsMerged (user source : Uuid) (rows : Map Uuid CanonicalEntity)
    (out : Option Error × Memory.Repository) : Type 0 where
  done : out.0 ≡ none
  others :
      (id : Uuid) → source ≢ id → IsOwn user (lookup id rows) → IsOwn user (lookup id out.1.rows)

merge-IsMerged :
    (user source to : Uuid) (f t : Option CanonicalEntity) (r : Memory.Repository)
    → IsOwn user f
    → IsOwn user t
    → IsMerged user source r.rows (merge user source to (found user f) (found user t) r)
merge-IsMerged user source to none t r hf ht = absurd hf
merge-IsMerged user source to (some f) none r hf ht = absurd ht
merge-IsMerged user source to (some f) (some t) r hf ht =
    rw ((nat_eq.same_iff f.user_id user).1 hf, (nat_eq.same_iff t.user_id user).1 ht)
      (record {
        done = refl;
        others = λ id apart h. merged-IsOwn user source to id f t r ht apart h;
      })

merge_into-IsMerged :
    (user source to : Uuid) (r : Memory.Repository)
    → IsOwn user (lookup source r.rows)
    → IsOwn user (lookup to r.rows)
    → IsMerged user source r.rows (merge_into user source to r)
unfolding merge_into
merge_into-IsMerged user source to r hf ht = merge-IsMerged user source to _ _ r hf ht

AreRows-merged :
    (user source : Uuid) (rows : Map Uuid CanonicalEntity) (out : Option Error × Memory.Repository)
    (cs : List AliasCandidate)
    → IsMerged user source rows out
    → Apart source cs
    → AreRows user rows cs
    → AreRows user out.1.rows cs
AreRows-merged user source rows out [] m a h = tt
AreRows-merged user source rows out (c ∷ cs) m a h =
    (m.others c.id (λ e. a.0 (sym e)) h.0, h.1, AreRows-merged user source rows out cs m a.1 h.2)

module _ (normalize : String → String) (fields : String → List String) {J : Type 0}
    (judge : AliasJudge J) where
  merge_all-true :
      (user : Uuid) (ce : CanonicalEntity) (c : AliasCandidate) (cs : List AliasCandidate)
      (vs : List Bool) (r : Memory.Repository) (j : J) (source to : Uuid)
      → direction ce c ≡ (source, to)
      → (merge_into user source to r).0 ≡ none
      → merge_all (repository normalize fields) (beside judge) user ce (c ∷ cs) (true ∷ vs) (r, j)
        ≡ (if source == ce.id
            then (none, ((merge_into user source to r).1, j))
            else merge_all
                (repository normalize fields)
                (beside judge)
                user
                ce
                cs
                vs
                ((merge_into user source to r).1, j))
  unfolding merge_all
  merge_all-true user ce c cs vs r j source to d done =
      ap
        (λ (x : Uuid × Uuid).
          after_merge (repository normalize fields) (beside judge) (x.0 == ce.id)
            ((merge_into user x.0 x.1 r).0, ((merge_into user x.0 x.1 r).1, j))
            (merge_all (repository normalize fields) (beside judge) user ce cs vs
              ((merge_into user x.0 x.1 r).1, j)))
        d
      ∙ rw done refl

  pub merge_all-done :
      (user : Uuid) (ce : CanonicalEntity) (cands : List AliasCandidate) (verdicts : List Bool)
      (r : Memory.Repository) (j : J)
      → IsOwn user (lookup ce.id r.rows)
      → Apart ce.id cands
      → AreRows user r.rows cands
      → IsBalanced r
      → ((merge_all (repository normalize fields) (beside judge) user ce cands verdicts (r, j)).0
          ≡ none)
        × IsBalanced
            (merge_all
              (repository normalize fields)
              (beside judge)
              user
              ce
              cands
              verdicts
              (r, j)).1.0
  unfolding merge_all
  merge_all-done user ce [] verdicts r j own apart rows b = (refl, b)
  merge_all-done user ce (c ∷ cs) [] r j own apart rows b =
      merge_all-done user ce cs [] r j own apart.1 rows.2 b
  merge_all-done user ce (c ∷ cs) (false ∷ vs) r j own apart rows b =
      merge_all-done user ce cs vs r j own apart.1 rows.2 b
  merge_all-done user ce (c ∷ cs) (true ∷ vs) r j own apart rows b =
      elim (Bool-cases (
        candidate_survives ce.mention_count ce.created_at ce.id c.mention_count c.created_at
          c.id)) [
            | inl gone ↦
                let d : direction ce c ≡ (ce.id, c.id) = rw gone refl in
                let m = merge_into-IsMerged user ce.id c.id r own rows.0 in
                rw
                  (
                    merge_all-true user ce c cs vs r j ce.id c.id d m.done,
                    (nat_eq.same_iff ce.id ce.id).1 refl,
                  )
                  (refl, merge_into-IsBalanced user ce.id c.id r b)
            | inr kept ↦
                let d : direction ce c ≡ (c.id, ce.id) = rw kept refl in
                let m = merge_into-IsMerged user c.id ce.id r rows.0 own in
                rw
                  (
                    merge_all-true user ce c cs vs r j c.id ce.id d m.done,
                    beq_ne c.id ce.id apart.0,
                  )
                  (merge_all-done user ce cs vs (merge_into user c.id ce.id r).1 j
                    (m.others ce.id apart.0 own) apart.1
                    (AreRows-merged user c.id r.rows _ cs m rows.1 rows.2)
                    (merge_into-IsBalanced user c.id ce.id r b))
          ]
