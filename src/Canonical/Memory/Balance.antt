-- ===== src/Canonical/Memory/Balance.antt =====
-- What the counters of the canonical entities count: internal/canonical/memory/memory.go.
use dumpster.Prelude.{ℕ, ◌+◌, ◌-◌, ◌≡◌, refl, ap, Option, none, some, [], ◌∷◌, arith, inl, inr}
use dumpster.Prelude.Tests.{if◌then◌else◌, Bool-cases}
use dumpster.Prelude.Eq.{◌==◌, nat_eq, string_eq}
use dumpster.Prelude.Integer.{decrement}
use dumpster.Prelude.Map.{Map, lookup, insert, delete, Distinct, lookup-insert, lookup-delete}
use dumpster.Prelude.Map.Iterate.{delete_absent}
use dumpster.Queue.Types.{Uuid}
use dumpster.Canonical.{CanonicalEntity}
use dumpster.Canonical.Memory.{
  DocKey, doc_key_eq, counter, contributions, repoint, repoint_all, reduced, reduce_all,
}

-- The mentions that a row of the user's counts.
abbrev pub counted : Uuid → Option CanonicalEntity → ℕ
counted user none = 0
counted user (some ce) = if ce.user_id == user then ce.mention_count else 0

-- The mentions that a document's entries give an entity.
unfoldable pub owed : Uuid → Map Uuid ℕ → ℕ
owed id [] = 0
owed id ((i, n) ∷ cs) = let rest = owed id cs in if i == id then n + rest else rest

-- The mentions that the user's documents give an entity.
unfoldable pub owed_by_user : Uuid → Uuid → Map DocKey (Map Uuid ℕ) → ℕ
owed_by_user user id [] = 0
owed_by_user user id ((key, cs) ∷ m) =
    let rest = owed_by_user user id m in if key.user_id == user then owed id cs + rest else rest

pub owed-insert :
    (i : Uuid) (n : ℕ) (id : Uuid) (cs : Map Uuid ℕ)
    → owed id (insert i n cs) + (if i == id then counter i cs else 0)
      ≡ owed id cs + (if i == id then n else 0)
unfolding owed insert lookup
owed-insert i n id [] = ground arith
owed-insert i n id ((j, k) ∷ cs) = ground (arith, owed-insert i n id cs)

pub owed-delete :
    (i id : Uuid) (cs : Map Uuid ℕ) → owed id (delete i cs) ≡ (if i == id then 0 else owed id cs)
unfolding owed delete
owed-delete i id [] = ground arith
owed-delete i id ((j, k) ∷ cs) = ground (arith, owed-delete i id cs)

pub owed-none : (id : Uuid) (cs : Map Uuid ℕ) → lookup id cs ≡ none → owed id cs ≡ 0
unfolding owed lookup
owed-none id [] h = refl
owed-none id ((j, k) ∷ cs) h = ground (arith, owed-none id cs)

pub owed-counter : (id : Uuid) (cs : Map Uuid ℕ) → Distinct cs → owed id cs ≡ counter id cs
unfolding owed lookup
owed-counter id [] h = refl
owed-counter id ((j, k) ∷ cs) h = elim (Bool-cases (j == id)) [
  | inl same ↦
      let gone : owed id cs ≡ 0 = owed-none id cs (rw (← (nat_eq.same_iff j id).0 same) h.0) in
      ground (arith, same)
  | inr other ↦ ground (arith, other, owed-counter id cs h.1)
]

-- One step of the loop takes the count off the row, whoever it belongs to.
counted-reduced :
    (user id j : Uuid) (n : ℕ) (o : Option CanonicalEntity) (rows : Map Uuid CanonicalEntity)
    → lookup id rows ≡ o
    → counted user (lookup j (reduced id n o rows))
      ≡ counted user (lookup j rows) - (if id == j then n else 0)
counted-reduced user id j n none rows e = ground arith
counted-reduced user id j n (some ce) rows e = ground (
  arith,
  lookup-insert id j
      (record ce {
        mention_count = ce.mention_count - n;
        document_count = decrement ce.document_count;
      })
      rows,
  lookup-delete id j rows,
)

pub counted-reduce_all :
    (user j : Uuid) (cs : Map Uuid ℕ) (rows : Map Uuid CanonicalEntity)
    → counted user (lookup j (reduce_all cs rows)) ≡ counted user (lookup j rows) - owed j cs
unfolding reduce_all owed
counted-reduce_all user j [] rows = omega arith
counted-reduce_all user j ((id, n) ∷ cs) rows = ground (
  arith,
  counted-reduce_all user j cs (reduced id n (lookup id rows) rows),
  counted-reduced user id j n _ rows refl,
)

pub owed_by_user-insert :
    (user id : Uuid) (key : DocKey) (cs : Map Uuid ℕ) (m : Map DocKey (Map Uuid ℕ))
    → owed_by_user user id (insert key cs m)
        + (if key.user_id == user then owed id (contributions key m) else 0)
      ≡ owed_by_user user id m + (if key.user_id == user then owed id cs else 0)
unfolding owed_by_user owed insert lookup
owed_by_user-insert user id key cs [] = ground arith
owed_by_user-insert user id key cs ((k, ds) ∷ m) = elim (Bool-cases (k == key)) [
  | inl same ↦ rw same (rw ((doc_key_eq.same_iff k key).0 same) (ground arith))
  | inr other ↦ ground (arith, other, owed_by_user-insert user id key cs m)
]

pub owed_by_user-delete :
    (user id : Uuid) (key : DocKey) (m : Map DocKey (Map Uuid ℕ))
    → Distinct m
    → owed_by_user user id (delete key m)
        + (if key.user_id == user then owed id (contributions key m) else 0)
      ≡ owed_by_user user id m
unfolding owed_by_user owed delete lookup
owed_by_user-delete user id key [] h = ground arith
owed_by_user-delete user id key ((k, ds) ∷ m) h = elim (Bool-cases (k == key)) [
  | inl same ↦
      let gone : delete key m ≡ m =
        delete_absent key m (rw (← (doc_key_eq.same_iff k key).0 same) h.0) in
      ground
        (arith, same, gone, ap (λ (x : DocKey). x.user_id) ((doc_key_eq.same_iff k key).0 same))
  | inr other ↦ ground (arith, other, owed_by_user-delete user id key m h.1)
]

owed-repoint :
    (source to id : Uuid) (o : Option ℕ) (cs : Map Uuid ℕ)
    → Distinct cs
    → lookup source cs ≡ o
    → owed id (repoint source to o cs)
      ≡ (if source == id then 0 else if to == id then owed id cs + owed source cs else owed id cs)
owed-repoint source to id none cs d e =
    ground (arith, owed-none source cs e, nat_eq.same_iff source id)
owed-repoint source to id (some n) cs d e = ground (
  arith,
  owed-delete source id (insert to (counter to cs + n) cs),
  owed-insert to (counter to cs + n) id cs,
  owed-counter source cs d,
  e,
)

-- The counters of every document have one entry for an entity.
abbrev pub AllDistinct : Map DocKey (Map Uuid ℕ) → Type 0
AllDistinct [] = Unit
AllDistinct ((key, cs) ∷ m) = Distinct cs × AllDistinct m

pub owed_by_user-repoint_all :
    (owner source to user id : Uuid) (m : Map DocKey (Map Uuid ℕ))
    → AllDistinct m
    → owed_by_user user id (repoint_all owner source to m) ≡ (
        if user == owner
        then (if source == id
            then 0
            else if to == id
            then owed_by_user user id m + owed_by_user user source m
            else owed_by_user user id m)
        else owed_by_user user id m)
unfolding owed_by_user repoint_all
owed_by_user-repoint_all owner source to user id [] d = ground arith
owed_by_user-repoint_all owner source to user id ((key, cs) ∷ m) d = ground (
  arith,
  owed-repoint source to id _ cs d.0 refl,
  owed_by_user-repoint_all owner source to user id m d.1,
)
