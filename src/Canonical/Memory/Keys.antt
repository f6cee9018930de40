-- ===== src/Canonical/Memory/Keys.antt =====
-- The operations of internal/canonical/memory/memory.go keep every row under its own ID and no key twice.
use dumpster.Prelude.{
  ℕ, ◌+◌, ◌-◌, ◌≡◌, refl, sym, subst, Option, none, some, [], ◌∷◌, arith, inl, inr,
}
use dumpster.Prelude.Tests.{nat_beq, Bool-cases}
use dumpster.Prelude.Eq.{◌==◌, nat_eq, string_eq}
use dumpster.Prelude.Map.{Map, lookup, insert, delete, Distinct, lookup-insert, lookup-delete}
use dumpster.Prelude.Map.Iterate.{Distinct-insert, Distinct-delete}
use dumpster.Queue.Types.{Uuid}
use dumpster.Canonical.{CanonicalEntity}
use dumpster.Canonical.Memory.{
  DocKey, doc_key_eq, counter, contributions, reduced, reduce_all, repoint, repoint_all,
}
use dumpster.Canonical.Memory.Balance.{AllDistinct}

abbrev pub IsNamed : Map Uuid CanonicalEntity → Type 0
IsNamed rows = (k : Uuid) (ce : CanonicalEntity) → lookup k rows ≡ some ce → ce.id ≡ k

pub AllDistinct-insert :
    (key : DocKey) (cs : Map Uuid ℕ) (m : Map DocKey (Map Uuid ℕ))
    → Distinct cs
    → AllDistinct m
    → AllDistinct (insert key cs m)
unfolding insert
AllDistinct-insert key cs [] d a = (d, tt)
AllDistinct-insert key cs ((k, ds) ∷ m) d a = elim (Bool-cases (k == key)) [
  | inl same ↦ rw same (d, a.1)
  | inr other ↦ rw other (a.0, AllDistinct-insert key cs m d a.1)
]

pub AllDistinct-delete :
    (key : DocKey) (m : Map DocKey (Map Uuid ℕ)) → AllDistinct m → AllDistinct (delete key m)
unfolding delete
AllDistinct-delete key [] a = tt
AllDistinct-delete key ((k, ds) ∷ m) a = elim (Bool-cases (k == key)) [
  | inl same ↦ rw same (AllDistinct-delete key m a.1)
  | inr other ↦ rw other (a.0, AllDistinct-delete key m a.1)
]

pub AllDistinct-lookup :
    (key : DocKey) (m : Map DocKey (Map Uuid ℕ)) → AllDistinct m → Distinct (contributions key m)
unfolding lookup
AllDistinct-lookup key [] a = tt
AllDistinct-lookup key ((k, ds) ∷ m) a = elim (Bool-cases (k == key)) [
  | inl same ↦
      let e : contributions key ((k, ds) ∷ m) ≡ ds = ground (arith, same) in
      subst Distinct (sym e) a.0
  | inr other ↦
      let e : contributions key ((k, ds) ∷ m) ≡ contributions key m = ground (arith, other) in
      subst Distinct (sym e) (AllDistinct-lookup key m a.1)
]

pub IsNamed-insert :
    (id : Uuid) (ce : CanonicalEntity) (rows : Map Uuid CanonicalEntity)
    → ce.id ≡ id
    → IsNamed rows
    → IsNamed (insert id ce rows)
IsNamed-insert id ce rows e n k other h =
    ground (arith, lookup-insert id k ce rows, n k other, h, nat_eq.same_iff id k)

pub IsNamed-delete :
    (id : Uuid) (rows : Map Uuid CanonicalEntity) → IsNamed rows → IsNamed (delete id rows)
IsNamed-delete id rows n k other h = ground (arith, lookup-delete id k rows, n k other, h)

abbrev pub IsTable : Map Uuid CanonicalEntity → Type 0
IsTable rows = IsNamed rows × Distinct rows

reduced-IsTable :
    (id : Uuid) (n : ℕ) (o : Option CanonicalEntity) (rows : Map Uuid CanonicalEntity)
    → lookup id rows ≡ o
    → IsTable rows
    → IsTable (reduced id n o rows)
reduced-IsTable id n none rows e t = t
reduced-IsTable id n (some ce) rows e t = elim (Bool-cases (nat_beq (ce.mention_count - n) 0)) [
  | inl gone ↦ rw gone (IsNamed-delete id rows t.0, Distinct-delete id rows t.1)
  | inr left ↦ rw left (IsNamed-insert id _ rows (t.0 id ce e) t.0, Distinct-insert id _ rows t.1)
]

pub reduce_all-IsTable :
    (cs : Map Uuid ℕ) (rows : Map Uuid CanonicalEntity)
    → IsTable rows
    → IsTable (reduce_all cs rows)
unfolding reduce_all
reduce_all-IsTable [] rows t = t
reduce_all-IsTable ((id, n) ∷ cs) rows t =
    reduce_all-IsTable cs (reduced id n (lookup id rows) rows) (reduced-IsTable id n _ rows refl t)

repoint-Distinct :
    (source to : Uuid) (o : Option ℕ) (cs : Map Uuid ℕ)
    → Distinct cs
    → Distinct (repoint source to o cs)
repoint-Distinct source to none cs d = d
repoint-Distinct source to (some n) cs d =
    Distinct-delete source (insert to (counter to cs + n) cs) (Distinct-insert to _ cs d)

pub AllDistinct-repoint_all :
    (user source to : Uuid) (m : Map DocKey (Map Uuid ℕ))
    → AllDistinct m
    → AllDistinct (repoint_all user source to m)
unfolding repoint_all
AllDistinct-repoint_all user source to [] a = tt
AllDistinct-repoint_all user source to ((key, cs) ∷ m) a =
    let rest = AllDistinct-repoint_all user source to m a.1 in
    elim (Bool-cases (key.user_id == user)) [
      | inl own ↦ rw own (repoint-Distinct source to (lookup source cs) cs a.0, rest)
      | inr other ↦ rw other (a.0, rest)
    ]

lookup-repoint_all :
    (user source to : Uuid) (key : DocKey) (m : Map DocKey (Map Uuid ℕ))
    → lookup key m ≡ none
    → lookup key (repoint_all user source to m) ≡ none
unfolding repoint_all lookup
lookup-repoint_all user source to key [] h = refl
lookup-repoint_all user source to key ((k, cs) ∷ m) h =
    ground (arith, lookup-repoint_all user source to key m)

pub repoint_all-Distinct :
    (user source to : Uuid) (m : Map DocKey (Map Uuid ℕ))
    → Distinct m
    → Distinct (repoint_all user source to m)
unfolding repoint_all
repoint_all-Distinct user source to [] d = tt
repoint_all-Distinct user source to ((key, cs) ∷ m) d =
    let rest = repoint_all-Distinct user source to m d.1 in
    let apart = lookup-repoint_all user source to key m d.0 in
    elim (Bool-cases (key.user_id == user)) [
      | inl own ↦ rw own (apart, rest)
      | inr other ↦ rw other (apart, rest)
    ]
