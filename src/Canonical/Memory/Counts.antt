-- ===== src/Canonical/Memory/Counts.antt =====
-- The counters of the canonical entities in internal/canonical/memory/memory.go.
use dumpster.Prelude.{
  ℕ, ◌+◌, String, ◌≡◌, ◌≢◌, refl, sym, ap, ◌∙◌, true, Option, none, some, List, [], ◌∷◌, arith, inl,
  inr, ◌⊎◌, Memᴰ,
}
use dumpster.Prelude.Tests.{if◌then◌else◌, Bool-cases, Option-cases, some_eq}
use dumpster.Prelude.Eq.{◌==◌, nat_eq, string_eq}
use dumpster.Prelude.Map.{Map, lookup, insert, Distinct, lookup-insert, lookup-delete}
use dumpster.Prelude.Map.Iterate.{Distinct-insert, Distinct-delete, mem-values_where}
use dumpster.Queue.Types.{Uuid}
use dumpster.Document.{Time}
use dumpster.Entity.{Entity, Kind}
use dumpster.Canonical.{CanonicalEntity}
use dumpster.Canonical.Memory.{
  DocKey, doc_key_eq, Repository, Progress, counter, member, contributions, contribute, mentioned,
  find_locked, found_or_new, first, identical, resolve_to, found, decremented, absorb, merged,
  merge, canonicalize_one, merge_into, decrement_for_document,
}
use dumpster.Canonical.Memory.Keys.{
  IsNamed, AllDistinct-insert, AllDistinct-delete, AllDistinct-lookup, IsNamed-insert,
  IsNamed-delete, reduce_all-IsTable, AllDistinct-repoint_all, repoint_all-Distinct,
}
use dumpster.Canonical.Memory.Balance.{
  counted, owed_by_user, AllDistinct, owed-insert, counted-reduce_all, owed_by_user-insert,
  owed_by_user-delete, owed_by_user-repoint_all,
}

-- Every row stands under its own ID, no key stands twice, and each user's row counts the mentions that
-- the user's documents contribute, a missing row none.
pub record IsBalanced (r : Repository) : Type 0 where
  pub named : IsNamed r.rows
  pub rows : Distinct r.rows
  pub documents : Distinct r.doc_contribution
  pub entities : AllDistinct r.doc_contribution
  pub balanced :
      (user id : Uuid) → counted user (lookup id r.rows) ≡ owed_by_user user id r.doc_contribution

first-mem : (ces : List CanonicalEntity) (ce : CanonicalEntity) → first ces ≡ some ce → Memᴰ ce ces
first-mem [] ce h = absurd (cc)
first-mem (x ∷ ces) ce h = Memᴰ.head (sym (some_eq h))

-- `contribute`
contribute-owed_by_user :
    (user id i : Uuid) (key : DocKey) (m : Map DocKey (Map Uuid ℕ))
    → owed_by_user user id (contribute key i m)
      ≡ owed_by_user user id m + (if key.user_id == user then if i == id then 1 else 0 else 0)
contribute-owed_by_user user id i key m =
    let cs = contributions key m in
    ground (
      arith,
      owed_by_user-insert user id key (insert i (counter i cs + 1) cs) m,
      owed-insert i (counter i cs + 1) id cs,
    )

resolve_to-IsBalanced :
    (m : Entity) (ce : CanonicalEntity) (p : Progress)
    → ce.user_id ≡ m.user_id
    → ((user : Uuid) → counted user (lookup ce.id p.repo.rows) ≡ counted user (some ce))
    → IsBalanced p.repo
    → IsBalanced (resolve_to m ce p).repo
resolve_to-IsBalanced m ce p owner row b =
    let key : DocKey = record { user_id = m.user_id; document_id = m.document_id } in
    let cs = contributions key p.repo.doc_contribution in
    let touched = member ce.id p.touched_this_call in
    let ds = AllDistinct-lookup key p.repo.doc_contribution b.entities in
    record {
      named = λ k other h. ground (
        arith,
        lookup-insert ce.id k (mentioned touched ce) p.repo.rows,
        b.named k other,
        h,
        nat_eq.same_iff ce.id k,
      );
      rows = Distinct-insert ce.id (mentioned touched ce) p.repo.rows b.rows;
      documents = Distinct-insert key _ p.repo.doc_contribution b.documents;
      entities =
          AllDistinct-insert key _ p.repo.doc_contribution (Distinct-insert ce.id _ cs ds)
            b.entities;
      balanced = λ user id. ground (
        arith,
        lookup-insert ce.id id (mentioned touched ce) p.repo.rows,
        contribute-owed_by_user user id ce.id key p.repo.doc_contribution,
        b.balanced user id,
        row user,
        owner,
        nat_eq.same_iff ce.id id,
      );
    }

pub find_locked-row :
    (kb user : Uuid) (n : String) (k : Kind) (ce : CanonicalEntity) (r : Repository)
    → IsBalanced r
    → find_locked kb user n k r.rows ≡ some ce
    → (lookup ce.id r.rows ≡ some ce) × (identical kb user n k ce ≡ true)
unfolding find_locked
find_locked-row kb user n k ce r b h =
    let (key, here, same) =
      mem-values_where (identical kb user n k) ce r.rows b.rows (first-mem _ ce h) in
    (ap (λ (x : Uuid). lookup x r.rows) (b.named key ce here) ∙ here, same)

pub canonicalize_one-IsBalanced :
    (normalize : String → String) (id : Uuid) (now : Time) (m : Entity) (p : Progress)
    → lookup id p.repo.rows ≡ none
    → IsBalanced p.repo
    → IsBalanced (canonicalize_one normalize (id, now, m) p).repo
unfolding canonicalize_one
canonicalize_one-IsBalanced normalize id now m p fresh b =
    let n = normalize m.text in
    elim (Option-cases (find_locked m.kb_id m.user_id n m.kind p.repo.rows)) [
      | inl absent ↦ rw absent (
          resolve_to-IsBalanced m (found_or_new id now n m none) p refl
            (λ user. ground (arith, fresh)) b)
      | inr (ce, here) ↦
          let (row, same) = find_locked-row m.kb_id m.user_id n m.kind ce p.repo b here in
          rw here (resolve_to-IsBalanced m ce p (ground (arith, same)) (λ user. rw row refl) b)
    ]

-- A row that the user's documents contribute to is the user's.
counted_other :
    (user v : Uuid) (o : Option CanonicalEntity) → user ≢ v → counted user o ≡ 0 ⊎ counted v o ≡ 0
counted_other user v none ne = inl refl
counted_other user v (some ce) ne = ground arith

decremented-IsBalanced :
    (key : DocKey) (o : Option (Map Uuid ℕ)) (r : Repository)
    → lookup key r.doc_contribution ≡ o
    → IsBalanced r
    → IsBalanced (decremented key o r)
decremented-IsBalanced key none r e b = b
decremented-IsBalanced key (some cs) r e b =
    let (named, rows) = reduce_all-IsTable cs r.rows (b.named, b.rows) in
    record {
      named = named;
      rows = rows;
      documents = Distinct-delete key r.doc_contribution b.documents;
      entities = AllDistinct-delete key r.doc_contribution b.entities;
      balanced = λ user id. ground (
        arith,
        e,
        counted-reduce_all user id cs r.rows,
        b.balanced user id,
        b.balanced key.user_id id,
        owed_by_user-delete user id key r.doc_contribution b.documents,
        owed_by_user-delete key.user_id id key r.doc_contribution b.documents,
        counted_other user key.user_id (lookup id r.rows),
      );
    }

merged-IsBalanced :
    (user source to : Uuid) (f t : CanonicalEntity) (r : Repository)
    → lookup source r.rows ≡ some f
    → lookup to r.rows ≡ some t
    → f.user_id ≡ user
    → t.user_id ≡ user
    → IsBalanced r
    → IsBalanced (merged user source to f t r)
merged-IsBalanced user source to f t r ef et own_f own_t b =
    let rows = insert to (absorb f t) r.rows in
    record {
      named = IsNamed-delete source rows (IsNamed-insert to _ r.rows (b.named to t et) b.named);
      rows = Distinct-delete source rows (Distinct-insert to _ r.rows b.rows);
      documents = repoint_all-Distinct user source to r.doc_contribution b.documents;
      entities = AllDistinct-repoint_all user source to r.doc_contribution b.entities;
      balanced = λ v id. ground (
        arith,
        lookup-delete source id rows,
        lookup-insert to id (absorb f t) r.rows,
        owed_by_user-repoint_all user source to v id r.doc_contribution b.entities,
        b.balanced v id,
        b.balanced v source,
        b.balanced v to,
        ef,
        et,
        own_f,
        own_t,
        nat_eq.same_iff to id,
        nat_eq.same_iff source id,
      );
    }

merge-IsBalanced :
    (user source to : Uuid) (f t : Option CanonicalEntity) (r : Repository)
    → lookup source r.rows ≡ f
    → lookup to r.rows ≡ t
    → IsBalanced r
    → IsBalanced (merge user source to (found user f) (found user t) r).1
merge-IsBalanced user source to none t r ef et b = b
merge-IsBalanced user source to (some f) none r ef et b = elim (Bool-cases (f.user_id == user)) [
  | inl own ↦ rw own b
  | inr other ↦ rw other b
]
merge-IsBalanced user source to (some f) (some t) r ef et b =
    elim (Bool-cases (f.user_id == user)) [
      | inr other ↦ rw other b
      | inl own_f ↦ elim (Bool-cases (t.user_id == user)) [
        | inr other ↦ rw (own_f, other) b
        | inl own_t ↦
            rw (own_f, own_t)
              (merged-IsBalanced user source to f t r ef et ((nat_eq.same_iff _ _).0 own_f)
                ((nat_eq.same_iff _ _).0 own_t) b)
      ]
    ]

pub merge_into-IsBalanced :
    (user source to : Uuid) (r : Repository)
    → IsBalanced r
    → IsBalanced (merge_into user source to r).1
unfolding merge_into
merge_into-IsBalanced user source to r b = merge-IsBalanced user source to _ _ r refl refl b

pub decrement_for_document-IsBalanced :
    (user document : Uuid) (r : Repository)
    → IsBalanced r
    → IsBalanced (decrement_for_document user document r)
unfolding decrement_for_document
decrement_for_document-IsBalanced user document r b = decremented-IsBalanced _ _ r refl b
