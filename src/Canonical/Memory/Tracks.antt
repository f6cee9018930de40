-- ===== src/Canonical/Memory/Tracks.antt =====
-- How one document's mentions change a row and are taken off again, internal/canonical/memory/memory.go.
use dumpster.Prelude.{
  ℕ, ◌+◌, ◌-◌, ◌≤◌, ◌≡◌, ◌≢◌, refl, sym, ap, ◌∙◌, subst, Bool, true, false, Option, none, some, [],
  ◌∷◌, arith, inl, inr,
}
use dumpster.Prelude.Tests.{if◌then◌else◌, nat_beq, Bool-cases, some_eq}
use dumpster.Prelude.Eq.{◌==◌, nat_eq}
use dumpster.Prelude.Integer.{increment, decrement, decrement-increment}
use dumpster.Prelude.Map.{Map, lookup, insert, Distinct, lookup-insert, lookup-delete}
use dumpster.Queue.Types.{Uuid}
use dumpster.Entity.{Entity}
use dumpster.Canonical.{CanonicalEntity}
use dumpster.Canonical.Memory.{
  DocKey, doc_key_eq, Repository, Progress, counter, member, contributions, mentioned, reduced,
  reduce_all,
}

-- A row with `n` mentions of a document more.
abbrev grown : ℕ → CanonicalEntity → CanonicalEntity
grown n ce = record ce {
  mention_count = ce.mention_count + n;
  document_count = increment ce.document_count;
}

-- What a row was before the document's mentions and is after them, by what the document contributes.
unfoldable pub Tracks : Option ℕ → Option CanonicalEntity → Option CanonicalEntity → Type 0
Tracks none before after = after ≡ before
Tracks (some n) none (some ce) = ce.mention_count ≡ n
Tracks (some n) (some ce) (some after) = after ≡ grown n ce
Tracks (some n) before none = ⊥

abbrev is_some : Option ℕ → Bool
is_some none = false
is_some (some n) = true

-- One row of the loop of DecrementForDocument.
abbrev left : Option ℕ → Option CanonicalEntity → Option CanonicalEntity
left none o = o
left (some n) none = none
left (some n) (some ce) =
    if nat_beq (ce.mention_count - n) 0
    then none
    else some (record ce {
      mention_count = ce.mention_count - n;
      document_count = decrement ce.document_count;
    })

lookup-reduced :
    (id j : Uuid) (n : ℕ) (o : Option CanonicalEntity) (rows : Map Uuid CanonicalEntity)
    → lookup id rows ≡ o
    → lookup j (reduced id n o rows) ≡ (if id == j then left (some n) o else lookup j rows)
lookup-reduced id j n none rows e = ground (arith, e, nat_eq.same_iff id j)
lookup-reduced id j n (some ce) rows e = ground (
  arith,
  lookup-delete id j rows,
  lookup-insert id j
      (record ce {
        mention_count = ce.mention_count - n;
        document_count = decrement ce.document_count;
      })
      rows,
)

pub lookup-reduce_all :
    (j : Uuid) (cs : Map Uuid ℕ) (rows : Map Uuid CanonicalEntity)
    → Distinct cs
    → lookup j (reduce_all cs rows) ≡ left (lookup j cs) (lookup j rows)
unfolding reduce_all lookup
lookup-reduce_all j [] rows d = refl
lookup-reduce_all j ((id, n) ∷ cs) rows d =
    let rest = lookup-reduce_all j cs (reduced id n (lookup id rows) rows) d.1 in
    let here = lookup-reduced id j n (lookup id rows) rows refl in
    elim (Bool-cases (id == j)) [
      | inl same ↦
          let e : id ≡ j = (nat_eq.same_iff id j).0 same in
          let gone : lookup j cs ≡ none = subst (λ (x : Uuid). lookup x cs ≡ none) e d.0 in
          let row : lookup id rows ≡ lookup j rows = ap (λ (x : Uuid). lookup x rows) e in
          ground (arith, rest, here, same, gone, row)
      | inr other ↦ ground (arith, rest, here, other)
    ]

pub left-Tracks :
    (n : Option ℕ) (before after : Option CanonicalEntity)
    → ((ce : CanonicalEntity) → before ≡ some ce → 1 ≤ ce.mention_count)
    → Tracks n before after
    → left n after ≡ before
unfolding Tracks
left-Tracks none before after pos t = t
left-Tracks (some n) none none pos t = absurd t
left-Tracks (some n) (some ce) none pos t = absurd t
left-Tracks (some n) none (some after) pos t = ground (arith, t)
left-Tracks (some n) (some ce) (some after) pos t =
    rw t (ground (arith, pos ce refl, decrement-increment ce.document_count))

abbrev pub key_of : Entity → DocKey
key_of m = record { user_id = m.user_id; document_id = m.document_id }

-- What holds while a document's mentions are resolved.
pub record IsTracked (key : DocKey) (r : Repository) (p : Progress) : Type 0 where
  pub entries : Distinct (contributions key p.repo.doc_contribution)
  pub others :
      (k : DocKey) → key ≢ k → lookup k p.repo.doc_contribution ≡ lookup k r.doc_contribution
  pub touched :
      (j : Uuid)
      → member j p.touched_this_call
        ≡ is_some (lookup j (contributions key p.repo.doc_contribution))
  pub tracks :
      (j : Uuid)
      → Tracks
          (lookup j (contributions key p.repo.doc_contribution))
          (lookup j r.rows)
          (lookup j p.repo.rows)

-- The row that a mention is resolved to is the row of its ID, or new.
unfoldable pub IsHere : CanonicalEntity → Option CanonicalEntity → Type 0
IsHere ce none = ce.mention_count ≡ 0
IsHere ce (some row) = row ≡ ce

pub Tracks-mentioned :
    (n : Option ℕ) (before row : Option CanonicalEntity) (ce : CanonicalEntity)
    → IsHere ce row
    → Tracks n before row
    → Tracks (some (elim n [ none ↦ 0 | some k ↦ k ] + 1)) before (some (mentioned (is_some n) ce))
unfolding Tracks IsHere
Tracks-mentioned none none none ce h t = ground arith
Tracks-mentioned none (some b) none ce h t = absurd (cc)
Tracks-mentioned none none (some row) ce h t = absurd (cc)
Tracks-mentioned none (some b) (some row) ce h t = ground (arith, some_eq t)
Tracks-mentioned (some n) none none ce h t = absurd t
Tracks-mentioned (some n) (some b) none ce h t = absurd t
Tracks-mentioned (some n) none (some row) ce h t = ground arith
Tracks-mentioned (some n) (some b) (some row) ce h t =
    let e : ce ≡ grown n b = sym h ∙ t in
    let sum : b.mention_count + n + 1 ≡ b.mention_count + (n + 1) = omega arith in
    ap (mentioned true) e
    ∙ ap (λ (x : ℕ). record b { mention_count = x; document_count = increment b.document_count })
        sum

pub Tracks-at :
    (id j : Uuid) (cs : Map Uuid ℕ) (before rows : Map Uuid CanonicalEntity) (ce : CanonicalEntity)
    (counts : Map Uuid ℕ)
    → counts ≡ insert id (counter id cs + 1) cs
    → Tracks (lookup j cs) (lookup j before) (lookup j rows)
    → Tracks (some (counter id cs + 1)) (lookup id before) (some ce)
    → Tracks (lookup j counts) (lookup j before) (lookup j (insert id ce rows))
Tracks-at id j cs before rows ce counts now elsewhere here = elim (Bool-cases (id == j)) [
  | inl same ↦
      let e : id ≡ j = (nat_eq.same_iff id j).0 same in
      let entry : lookup j counts ≡ some (counter id cs + 1) =
        ground (arith, now, lookup-insert id j (counter id cs + 1) cs, same) in
      let row : lookup j (insert id ce rows) ≡ some ce =
        ground (arith, lookup-insert id j ce rows, same) in
      rw (entry, row)
        (subst (λ (x : Uuid). Tracks (some (counter id cs + 1)) (lookup x before) (some ce)) e here)
  | inr other ↦
      let entry : lookup j counts ≡ lookup j cs =
        ground (arith, now, lookup-insert id j (counter id cs + 1) cs, other) in
      let row : lookup j (insert id ce rows) ≡ lookup j rows =
        ground (arith, lookup-insert id j ce rows, other) in
      rw (entry, row) elsewhere
]
