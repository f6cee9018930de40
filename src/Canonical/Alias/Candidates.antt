-- ===== src/Canonical/Alias/Candidates.antt =====
-- The candidates that FuzzyCandidates of internal/canonical/memory/memory.go finds are different rows.
use dumpster.Prelude.{
  String, ◌≡◌, ◌≢◌, refl, ap, ◌∙◌, Bool, true, Option, none, some, List, [], ◌∷◌, map, arith, inl,
  inr, Memᴰ,
}
use dumpster.Prelude.Tests.{Bool-cases}
use dumpster.Prelude.Eq.{◌==◌, nat_eq, string_eq}
use dumpster.Prelude.Map.{Map, lookup, Distinct}
use dumpster.Prelude.Map.Iterate.{values_where, mem-values_where}
use dumpster.Queue.Types.{Uuid}
use dumpster.Entity.{Kind}
use dumpster.Canonical.{CanonicalEntity, AliasCandidate}
use dumpster.Canonical.Memory.{Repository}
use dumpster.Canonical.Memory.Fuzzy.{candidate_of, fuzzy_candidates, is_candidate}
use dumpster.Canonical.Memory.Keys.{IsNamed}
use dumpster.Canonical.Memory.Counts.{IsBalanced}

-- The row has the user as its owner.
abbrev pub IsOwn : Uuid → Option CanonicalEntity → Type 0
IsOwn user none = ⊥
IsOwn user (some ce) = ce.user_id ≡ user

abbrev pub Apart : Uuid → List AliasCandidate → Type 0
Apart id [] = Unit
Apart id (c ∷ cs) = (c.id ≢ id) × Apart id cs

-- The candidates are different rows of the user's.
abbrev pub AreRows : Uuid → Map Uuid CanonicalEntity → List AliasCandidate → Type 0
AreRows user rows [] = Unit
AreRows user rows (c ∷ cs) = IsOwn user (lookup c.id rows) × Apart c.id cs × AreRows user rows cs

abbrev Unique : List CanonicalEntity → Type 0
Unique [] = Unit
Unique (ce ∷ ces) = ((x : CanonicalEntity) → Memᴰ x ces → x.id ≢ ce.id) × Unique ces

IsNamed-tail :
    (k : Uuid) (w : CanonicalEntity) (m : Map Uuid CanonicalEntity)
    → Distinct ((k, w) ∷ m)
    → IsNamed ((k, w) ∷ m)
    → IsNamed m
unfolding lookup
IsNamed-tail k w m d n j ce h = elim (Bool-cases (k == j)) [
  | inl same ↦ absurd (cc (d.0, h, ap (λ (x : Uuid). lookup x m) ((nat_eq.same_iff k j).0 same)))
  | inr other ↦ n j ce (ground (arith, other, h))
]

values_where-Unique :
    (p : CanonicalEntity → Bool) (m : Map Uuid CanonicalEntity)
    → IsNamed m
    → Distinct m
    → Unique (values_where p m)
unfolding values_where
values_where-Unique p [] n d = tt
values_where-Unique p ((k, w) ∷ m) n d =
    let tail = IsNamed-tail k w m d n in
    let rest = values_where-Unique p m tail d.1 in
    elim (Bool-cases (p w)) [
      | inr failed ↦ rw failed rest
      | inl passed ↦ rw passed (
        λ x here e.
            let (j, found, t) = mem-values_where p x m d.1 here in
            let head : w.id ≡ k = n k w (unfold lookup in ground (arith, nat_eq.same_iff k k)) in
            let same : j ≡ k = cc (tail j x found, e, head) in
            cc (d.0, found, ap (λ (y : Uuid). lookup y m) same),
        rest,
      )
    ]

AreRows-map :
    (user exclude : Uuid) (rows : Map Uuid CanonicalEntity) (ces : List CanonicalEntity)
    → Unique ces
    → ((x : CanonicalEntity)
        → Memᴰ x ces
        → (lookup x.id rows ≡ some x) × (x.user_id ≡ user) × (x.id ≢ exclude))
    → Apart exclude (map candidate_of ces) × AreRows user rows (map candidate_of ces)
AreRows-map user exclude rows [] u all = (tt, tt)
AreRows-map user exclude rows (ce ∷ ces) u all =
    let (found, own, apart) = all ce (Memᴰ.head refl) in
    let rest = AreRows-map user exclude rows ces u.1 (λ x h. all x (Memᴰ.tail h)) in
    let others =
      AreRows-map user ce.id rows ces u.1
        (λ x h. let (f, o, a) = all x (Memᴰ.tail h) in (f, o, u.0 x h)) in
    ((apart, rest.0), (rw found own, others.0, rest.1))

is_candidate-own :
    (fields : String → List String) (user kb : Uuid) (text : String) (kind : Kind) (exclude : Uuid)
    (ce : CanonicalEntity)
    → is_candidate fields user kb text kind exclude ce ≡ true
    → (ce.user_id ≡ user) × (ce.id ≢ exclude)
unfolding is_candidate
is_candidate-own fields user kb text kind exclude ce h = ground (arith, h)

pub fuzzy_candidates-AreRows :
    (fields : String → List String) (user kb : Uuid) (text : String) (kind : Kind) (exclude : Uuid)
    (r : Repository)
    → IsBalanced r
    → Apart exclude (fuzzy_candidates fields user kb text kind exclude r)
      × AreRows user r.rows (fuzzy_candidates fields user kb text kind exclude r)
unfolding fuzzy_candidates
fuzzy_candidates-AreRows fields user kb text kind exclude r b =
    let p = is_candidate fields user kb text kind exclude in
    AreRows-map user exclude r.rows (values_where p r.rows)
      (values_where-Unique p r.rows b.named b.rows)
      (λ x h.
        let (j, found, t) = mem-values_where p x r.rows b.rows h in
        let (own, apart) = is_candidate-own fields user kb text kind exclude x t in
        (ap (λ (y : Uuid). lookup y r.rows) (b.named j x found) ∙ found, own, apart))
