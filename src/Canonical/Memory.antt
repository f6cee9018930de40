-- ===== src/Canonical/Memory.antt =====
-- The in-memory repository of canonical entities: internal/canonical/memory/memory.go. `Normalize` is a
-- parameter. A pointer into the map is the entry under the row's ID.
--
-- A row's `MentionCount` is above 0 between calls: a row begins with a mention, and one that comes down
-- to 0 or below is deleted. So the counter is a natural number, and a subtraction that would go below 0
-- stops at 0, where the row is deleted all the same. `DocumentCount` can go below 0 and is an integer.
pub mod Fuzzy
pub mod Balance
pub mod Keys
pub mod Counts
pub mod Calls
pub mod Tracks
pub mod Reverse
use dumpster.Prelude.{
  ℕ, zero, suc, ◌+◌, ◌-◌, String, Bool, true, false, ◌&&◌, ◌||◌, not, Option, none, some, List, [],
  ◌∷◌, map, ◌≡◌, ◌↔◌, arith,
}
use dumpster.Prelude.Tests.{if◌then◌else◌, nat_beq}
use dumpster.Prelude.Eq.{Eq, ◌==◌, nat_eq, string_eq}
use dumpster.Prelude.Integer.{ℤ, pos, increment, decrement, ◌+ℤ◌}
use dumpster.Prelude.Map.{Map, lookup, insert, delete}
use dumpster.Prelude.Map.Iterate.{values_where}
use dumpster.Queue.Types.{Uuid}
use dumpster.Document.{Time}
use dumpster.Entity.{Entity, Kind}
use dumpster.Canonical.{CanonicalEntity, AliasCandidate, Mention, Error, not_found, Result, ok, err}

-- `docKey`
pub record DocKey : Type 0 where
  pub user_id : Uuid
  pub document_id : Uuid

abbrev pub doc_key_beq : DocKey → DocKey → Bool
doc_key_beq a b = (a.user_id == b.user_id) && (a.document_id == b.document_id)

pub doc_key_beq_iff : (a b : DocKey) → (doc_key_beq a b ≡ true) ↔ (a ≡ b)
doc_key_beq_iff a b = ground arith

instance abbrev pub doc_key_eq : Eq DocKey
doc_key_eq = record { same = doc_key_beq; same_iff = doc_key_beq_iff }

pub record Repository : Type 0 where
  pub rows : Map Uuid CanonicalEntity
  pub doc_contribution : Map DocKey (Map Uuid ℕ)

abbrev pub new : Repository
new = record { rows = []; doc_contribution = [] }

-- `m[k]` of a map of counters or sets: the zero value for a missing key
abbrev pub counter {ℓ} : {K : Type ℓ} → ⦃e : Eq K⦄ → K → Map K ℕ → ℕ
counter ⦃e⦄ k m = elim (lookup k m) [ none ↦ 0 | some n ↦ n ]

abbrev pub member {ℓ} : {K : Type ℓ} → ⦃e : Eq K⦄ → K → Map K Bool → Bool
member ⦃e⦄ k m = elim (lookup k m) [ none ↦ false | some b ↦ b ]

-- `r.docContribution[key]`, made when it is nil
abbrev pub contributions : DocKey → Map DocKey (Map Uuid ℕ) → Map Uuid ℕ
contributions key m = elim (lookup key m) [ none ↦ [] | some cs ↦ cs ]

abbrev pub first : List CanonicalEntity → Option CanonicalEntity
first [] = none
first (ce ∷ ces) = some ce

abbrev pub identical : Uuid → Uuid → String → Kind → CanonicalEntity → Bool
identical kb user normalized kind ce =
    (ce.kb_id == kb)
    && (ce.user_id == user)
    && (ce.normalized_text == normalized)
    && (ce.kind == kind)

-- `findLocked`: the first match of the iteration
unfoldable pub find_locked :
    Uuid → Uuid → String → Kind → Map Uuid CanonicalEntity → Option CanonicalEntity
find_locked kb user normalized kind rows =
    first (values_where (identical kb user normalized kind) rows)

-- What a call of `Canonicalize` has done so far.
pub record Progress : Type 0 where
  pub repo : Repository
  pub resolved : Map Uuid Uuid
  pub touched_this_call : Map Uuid Bool

abbrev pub found_or_new : Uuid → Time → String → Entity → Option CanonicalEntity → CanonicalEntity
found_or_new id now normalized m none = record {
  id = id;
  kb_id = m.kb_id;
  user_id = m.user_id;
  canonical_text = m.text;
  normalized_text = normalized;
  kind = m.kind;
  mention_count = 0;
  document_count = pos 0;
  created_at = now;
  updated_at = 0;
}
found_or_new id now normalized m (some ce) = ce

-- `ce.MentionCount++` and, the first time in this call, `ce.DocumentCount++`
abbrev pub mentioned : Bool → CanonicalEntity → CanonicalEntity
mentioned touched ce = record ce {
  mention_count = ce.mention_count + 1;
  document_count = if touched then ce.document_count else increment ce.document_count;
}

-- `r.docContribution[key][id]++`
abbrev pub contribute : DocKey → Uuid → Map DocKey (Map Uuid ℕ) → Map DocKey (Map Uuid ℕ)
contribute key id m =
    let cs = contributions key m in insert key (insert id (counter id cs + 1) cs) m

abbrev pub resolve_to : Entity → CanonicalEntity → Progress → Progress
resolve_to m ce p = record {
  repo = record {
    rows = insert ce.id (mentioned (member ce.id p.touched_this_call) ce) p.repo.rows;
    doc_contribution =
        contribute (record { user_id = m.user_id; document_id = m.document_id }) ce.id
          p.repo.doc_contribution;
  };
  resolved = insert m.id ce.id p.resolved;
  touched_this_call =
      if member ce.id p.touched_this_call
      then p.touched_this_call
      else insert ce.id true p.touched_this_call;
}

-- `if !ok { continue }`, and else the row without `count` mentions
abbrev pub reduced :
    Uuid → ℕ → Option CanonicalEntity → Map Uuid CanonicalEntity → Map Uuid CanonicalEntity
reduced id count none rows = rows
reduced id count (some ce) rows =
    let left = ce.mention_count - count in
    if nat_beq left 0
    then delete id rows
    else insert id
        (record ce { mention_count = left; document_count = decrement ce.document_count }) rows

unfoldable pub reduce_all : Map Uuid ℕ → Map Uuid CanonicalEntity → Map Uuid CanonicalEntity
reduce_all [] rows = rows
reduce_all ((id, count) ∷ cs) rows = reduce_all cs (reduced id count (lookup id rows) rows)

abbrev pub decremented : DocKey → Option (Map Uuid ℕ) → Repository → Repository
decremented key none r = r
decremented key (some cs) r = record {
  rows = reduce_all cs r.rows;
  doc_contribution = delete key r.doc_contribution;
}

-- `DecrementForDocument`
unfoldable pub decrement_for_document : Uuid → Uuid → Repository → Repository
decrement_for_document user document r =
    let key : DocKey = record { user_id = user; document_id = document } in
    decremented key (lookup key r.doc_contribution) r

-- `if !ok || ce.UserID != userID { return canonical.ErrNotFound }`
abbrev pub found : Uuid → Option CanonicalEntity → Result CanonicalEntity
found user none = err not_found
found user (some ce) = if not (ce.user_id == user) then err not_found else ok ce

-- `Get`
unfoldable pub get : Uuid → Uuid → Repository → Result CanonicalEntity
get user id r = found user (lookup id r.rows)

-- `ListByKB`
unfoldable pub list_by_kb : Uuid → Uuid → Repository → List CanonicalEntity
list_by_kb user kb r = values_where (λ ce. (ce.user_id == user) && (ce.kb_id == kb)) r.rows

-- `contributions[toID] += cnt` and `delete(contributions, fromID)`
abbrev pub repoint : Uuid → Uuid → Option ℕ → Map Uuid ℕ → Map Uuid ℕ
repoint source to none cs = cs
repoint source to (some cnt) cs = delete source (insert to (counter to cs + cnt) cs)

-- the loop over the documents of `userID`
unfoldable pub repoint_all : Uuid → Uuid → Uuid → Map DocKey (Map Uuid ℕ) → Map DocKey (Map Uuid ℕ)
repoint_all user source to [] = []
repoint_all user source to ((key, cs) ∷ m) =
    let rest = repoint_all user source to m in
    if not (key.user_id == user)
    then (key, cs) ∷ rest
    else (key, repoint source to (lookup source cs) cs) ∷ rest

-- `to.MentionCount += from.MentionCount` and the same for `DocumentCount`
abbrev pub absorb : CanonicalEntity → CanonicalEntity → CanonicalEntity
absorb f t = record t {
  mention_count = t.mention_count + f.mention_count;
  document_count = t.document_count +ℤ f.document_count;
}

abbrev pub merged : Uuid → Uuid → Uuid → CanonicalEntity → CanonicalEntity → Repository → Repository
merged user source to f t r = record {
  rows = delete source (insert to (absorb f t) r.rows);
  doc_contribution = repoint_all user source to r.doc_contribution;
}

abbrev pub merge :
    Uuid
    → Uuid
    → Uuid
    → Result CanonicalEntity
    → Result CanonicalEntity
    → Repository
    → Option Error × Repository
merge user source to (err e) t r = (some e, r)
merge user source to (ok f) (err e) r = (some e, r)
merge user source to (ok f) (ok t) r = (none, merged user source to f t r)

-- `MergeInto`. When both IDs are the same, `to` and `from` are the same row.
unfoldable pub merge_into : Uuid → Uuid → Uuid → Repository → Option Error × Repository
merge_into user source to r =
    merge user source to (found user (lookup source r.rows)) (found user (lookup to r.rows)) r

abbrev pub start : Repository → Progress
start r = record { repo = r; resolved = []; touched_this_call = [] }

module _ (normalize : String → String) where
  unfoldable pub canonicalize_one : Mention → Progress → Progress
  canonicalize_one (id, now, m) p =
      let normalized = normalize m.text in
      resolve_to m
        (found_or_new id now normalized m
          (find_locked m.kb_id m.user_id normalized m.kind p.repo.rows))
        p

  unfoldable pub canonicalize_all : List Mention → Progress → Progress
  canonicalize_all [] p = p
  canonicalize_all (m ∷ ms) p = canonicalize_all ms (canonicalize_one m p)

  -- `Canonicalize`
  unfoldable pub canonicalize : List Mention → Repository → Map Uuid Uuid × Repository
  canonicalize mentions r = let p = canonicalize_all mentions (start r) in (p.resolved, p.repo)
