-- ===== src/CrossLink/Reviewed.antt =====
-- What ApplyUpdates and PurgeLowQuality, internal/crosslink/memory/memory.go, leave to be reviewed and to
-- be shown.
use mathlib.Core.List.Memᴰ.{not-nil}
use dumpster.Prelude.{
  ℕ, zero, suc, ◌≡◌, ◌≢◌, ◌↔◌, refl, sym, ap, ◌∙◌, subst, inl, inr, String, ◌&&◌, none, List, [],
  ◌∷◌, Memᴰ, arith,
}
use dumpster.Prelude.Tests.{ltb, Bool-cases, Option-cases}
use dumpster.Prelude.Eq.{nat_eq, string_eq, ==_refl}
use dumpster.Prelude.Lists.{length, take}
use dumpster.Prelude.Map.{Map, lookup, insert, lookup-insert}
use dumpster.Prelude.Sort.{sort_by, sort_by-mem}
use dumpster.Queue.Types.{Uuid}
use dumpster.CrossLink.{
  Candidate, Update, PairKey, pair_key_eq, kb_key_eq, Repository, pair_of, updated_pair, seeded,
  resolved_of, unresolved, before, capped, candidate_chains, record_updates, apply_updates,
}

-- No update is for the pair.
abbrev pub IsApart : PairKey → List Update → Type 0
IsApart k us = (u : Update) → Memᴰ u us → updated_pair u ≢ k

take-mem : (n : ℕ) (c : Candidate) (cs : List Candidate) → Memᴰ c (take n cs) → Memᴰ c cs
take-mem zero c cs h = absurd (not-nil h)
take-mem (suc n) c [] h = h
take-mem (suc n) c (x ∷ xs) (Memᴰ.head h) = Memᴰ.head h
take-mem (suc n) c (x ∷ xs) (Memᴰ.tail h) = Memᴰ.tail (take-mem n c xs h)

capped-mem :
    (limit : ℕ) (c : Candidate) (cs : List Candidate) → Memᴰ c (capped limit cs) → Memᴰ c cs
capped-mem limit c cs h = elim (Bool-cases (ltb 0 limit && ltb limit (length cs))) [
  | inl over ↦ take-mem limit c cs (subst (Memᴰ c) (rw over refl) h)
  | inr within ↦ subst (Memᴰ c) (rw within refl) h
]

-- `c` is listed, and its pair is not resolved.
abbrev Free : Map PairKey String → Candidate → List Candidate → Type 0
Free m c cs = Memᴰ c cs × (lookup (pair_of c) m ≡ none)

unresolved-Free :
    (m : Map PairKey String) (c : Candidate) (cs : List Candidate)
    → Memᴰ c (unresolved m cs)
    → Free m c cs
unfolding unresolved
unresolved-Free m c [] h = absurd (not-nil h)
unresolved-Free m c (x ∷ xs) h =
    let ih = unresolved-Free m c xs in
    elim (Option-cases (lookup (pair_of x) m)) [
      | inl free ↦
          let shape : unresolved m (x ∷ xs) ≡ x ∷ unresolved m xs = rw (free, unresolved) refl in
          elim (subst (Memᴰ c) shape h) [
            | Memᴰ.head same ↦
                (Memᴰ.head same, ap (λ (y : Candidate). lookup (pair_of y) m) same ∙ free)
            | Memᴰ.tail later ↦ let (held, unset) = ih later in (Memᴰ.tail held, unset)
          ]
      | inr (relation, done) ↦
          let shape : unresolved m (x ∷ xs) ≡ unresolved m xs = rw (done, unresolved) refl in
          let (held, unset) = ih (subst (Memᴰ c) shape h) in (Memᴰ.tail held, unset)
    ]

unresolved_of_free :
    (m : Map PairKey String) (c : Candidate) (cs : List Candidate)
    → Memᴰ c cs
    → lookup (pair_of c) m ≡ none
    → Memᴰ c (unresolved m cs)
unfolding unresolved
unresolved_of_free m c [] h unset = h
unresolved_of_free m c (x ∷ xs) (Memᴰ.head same) unset =
    let free : lookup (pair_of x) m ≡ none =
      ap (λ (y : Candidate). lookup (pair_of y) m) (sym same) ∙ unset in
    let shape : unresolved m (x ∷ xs) ≡ x ∷ unresolved m xs = rw (free, unresolved) refl in
    subst (Memᴰ c) (sym shape) (Memᴰ.head same)
unresolved_of_free m c (x ∷ xs) (Memᴰ.tail later) unset =
    let ih = unresolved_of_free m c xs later unset in
    elim (Option-cases (lookup (pair_of x) m)) [
      | inl free ↦
          let shape : unresolved m (x ∷ xs) ≡ x ∷ unresolved m xs = rw (free, unresolved) refl in
          subst (Memᴰ c) (sym shape) (Memᴰ.tail ih)
      | inr (relation, done) ↦
          let shape : unresolved m (x ∷ xs) ≡ unresolved m xs = rw (done, unresolved) refl in
          subst (Memᴰ c) (sym shape) ih
    ]

record_updates-none :
    (k : PairKey) (us : List Update) (m : Map PairKey String)
    → (lookup k (record_updates us m) ≡ none) ↔ ((lookup k m ≡ none) × IsApart k us)
unfolding record_updates
record_updates-none k [] m = (λ h. (h, λ u held. absurd (not-nil held)), λ h. h.0)
record_updates-none k (u ∷ us) m =
    let (there, back) = record_updates-none k us (insert (updated_pair u) u.relation_type m) in
    let at = lookup-insert (updated_pair u) k u.relation_type m in
    let same = pair_key_eq.same_iff (updated_pair u) k in
    (
      λ h.
          let (free, apart) = there h in
          (
            ground (arith, at, free),
            λ v held. elim held [
              | Memᴰ.head here ↦
                  λ e. absurd (ground (arith, at, free, same, ap updated_pair here, e))
              | Memᴰ.tail later ↦ apart v later
            ],
          ),
      λ h.
          back (
            ground (arith, at, h.0, same, h.1 u (Memᴰ.head refl)),
            λ v held. h.1 v (Memᴰ.tail held),
          ),
    )

resolved_of-apply_updates :
    (user : Uuid) (us : List Update) (r : Repository)
    → resolved_of user (apply_updates user us r) ≡ record_updates us (resolved_of user r)
unfolding apply_updates
resolved_of-apply_updates user us r = ground (
  arith,
  lookup-insert user user (record_updates us (resolved_of user r)) r.resolved,
  ==_refl user,
)

-- A pair that is still to be reviewed.
abbrev IsOpen : Uuid → Uuid → Repository → Candidate → Type 0
IsOpen user kb r c = Free (resolved_of user r) c (seeded user kb r)

candidate_chains-IsOpen :
    (user kb : Uuid) (limit : ℕ) (r : Repository) (c : Candidate)
    → Memᴰ c (candidate_chains user kb limit r)
    → IsOpen user kb r c
unfolding candidate_chains
candidate_chains-IsOpen user kb limit r c h =
    let cs = unresolved (resolved_of user r) (seeded user kb r) in
    unresolved-Free (resolved_of user r) c (seeded user kb r)
      ((sort_by-mem before c cs).0 (capped-mem limit c (sort_by before cs) h))

candidate_chains_of_open :
    (user kb : Uuid) (r : Repository) (c : Candidate)
    → IsOpen user kb r c
    → Memᴰ c (candidate_chains user kb 0 r)
unfolding candidate_chains
candidate_chains_of_open user kb r c h =
    (sort_by-mem before c (unresolved (resolved_of user r) (seeded user kb r))).1
      (unresolved_of_free (resolved_of user r) c (seeded user kb r) h.0 h.1)

-- After ApplyUpdates, CandidateChains gives, under any limit, only candidates that it gave without a limit
-- before and that no update is for; and without a limit it gives all of these.
pub candidate_chains-apply_updates :
    (user kb : Uuid) (us : List Update) (r : Repository) (c : Candidate)
    → ((limit : ℕ)
        → Memᴰ c (candidate_chains user kb limit (apply_updates user us r))
        → Memᴰ c (candidate_chains user kb 0 r) × IsApart (pair_of c) us)
      × (Memᴰ c (candidate_chains user kb 0 r) × IsApart (pair_of c) us
          → Memᴰ c (candidate_chains user kb 0 (apply_updates user us r)))
unfolding apply_updates
candidate_chains-apply_updates user kb us r c =
    let updates = record_updates-none (pair_of c) us (resolved_of user r) in
    let shape = ap (lookup (pair_of c)) (resolved_of-apply_updates user us r) in
    (
      λ limit h.
          let (held, free) = candidate_chains-IsOpen user kb limit (apply_updates user us r) c h in
          let (was, apart) = updates.0 (sym shape ∙ free) in
          (candidate_chains_of_open user kb r c (held, was), apart),
      λ h.
          let (held, free) = candidate_chains-IsOpen user kb 0 r c h.0 in
          candidate_chains_of_open user kb (apply_updates user us r) c
            (held, shape ∙ updates.1 (free, h.1)),
    )
