-- ===== src/Canonical/Memory/Reverse.antt =====
-- DecrementForDocument against Canonicalize, of internal/canonical/memory/memory.go.
use dumpster.Prelude.{
  ℕ, ◌+◌, ◌≤◌, String, ◌≡◌, ◌≢◌, refl, sym, ◌∙◌, subst, true, false, Option, none, some, List, [],
  ◌∷◌, arith, inl, inr,
}
use dumpster.Prelude.Tests.{Bool-cases, Option-cases}
use dumpster.Prelude.Eq.{◌==◌, nat_eq}
use dumpster.Prelude.Map.{Map, lookup, insert, Distinct, lookup-insert, lookup-delete}
use dumpster.Prelude.Map.Iterate.{Distinct-insert}
use dumpster.Queue.Types.{Uuid}
use dumpster.Document.{Time}
use dumpster.Entity.{Entity}
use dumpster.Canonical.{CanonicalEntity, Mention}
use dumpster.Canonical.Memory.{
  DocKey, doc_key_eq, Repository, Progress, counter, member, contributions, contribute, mentioned,
  find_locked, found_or_new, resolve_to, decremented, start, canonicalize_one, canonicalize_all,
  canonicalize, decrement_for_document,
}
use dumpster.Canonical.Memory.Counts.{IsBalanced, find_locked-row, canonicalize_one-IsBalanced}
use dumpster.Canonical.Memory.Calls.{IsFresh}
use dumpster.Canonical.Memory.Tracks.{
  Tracks, IsHere, IsTracked, key_of, lookup-reduce_all, left-Tracks, Tracks-mentioned, Tracks-at,
}

resolve_to-IsTracked :
    (m : Entity) (ce : CanonicalEntity) (r : Repository) (p : Progress)
    → IsHere ce (lookup ce.id p.repo.rows)
    → IsTracked (key_of m) r p
    → IsTracked (key_of m) r (resolve_to m ce p)
resolve_to-IsTracked m ce r p here t =
    let key = key_of m in
    let contrib = p.repo.doc_contribution in
    let cs = contributions key contrib in
    let counts = insert ce.id (counter ce.id cs + 1) cs in
    let now : contributions key (contribute key ce.id contrib) ≡ counts =
      ground (arith, lookup-insert key key counts contrib, doc_key_eq.same_iff key key) in
    record {
      entries =
          subst Distinct (sym now) (Distinct-insert ce.id (counter ce.id cs + 1) cs t.entries);
      others = λ k apart.
          ground (
            arith,
            lookup-insert key k counts contrib,
            doc_key_eq.same_iff key k,
            t.others k apart,
          );
      touched = λ j. ground (
        arith,
        lookup-insert ce.id j true p.touched_this_call,
        lookup-insert ce.id j (counter ce.id cs + 1) cs,
        now,
        t.touched j,
      );
      tracks = λ j.
          Tracks-at ce.id j cs r.rows p.repo.rows (mentioned (member ce.id p.touched_this_call) ce)
            (contributions key (contribute key ce.id contrib)) now (t.tracks j)
            (rw (t.touched ce.id) (
              Tracks-mentioned (lookup ce.id cs) (lookup ce.id r.rows) (lookup ce.id p.repo.rows) ce
                here (t.tracks ce.id)));
    }

canonicalize_one-IsTracked :
    (normalize : String → String) (id : Uuid) (now : Time) (m : Entity) (r : Repository)
    (p : Progress)
    → lookup id p.repo.rows ≡ none
    → IsBalanced p.repo
    → IsTracked (key_of m) r p
    → IsTracked (key_of m) r (canonicalize_one normalize (id, now, m) p)
unfolding canonicalize_one
canonicalize_one-IsTracked normalize id now m r p fresh b t =
    let n = normalize m.text in
    elim (Option-cases (find_locked m.kb_id m.user_id n m.kind p.repo.rows)) [
      | inl absent ↦ rw absent (
          resolve_to-IsTracked m (found_or_new id now n m none) r p (unfold IsHere in rw fresh refl)
            t)
      | inr (ce, here) ↦
          let (row, same) = find_locked-row m.kb_id m.user_id n m.kind ce p.repo b here in
          rw here (resolve_to-IsTracked m ce r p (unfold IsHere in rw row refl) t)
    ]

-- Every mention is one of the document's.
abbrev pub AllOf : DocKey → List Mention → Type 0
AllOf key [] = Unit
AllOf key ((id, now, m) ∷ ms) = (key_of m ≡ key) × AllOf key ms

canonicalize_all-IsTracked :
    (normalize : String → String) (key : DocKey) (ms : List Mention) (r : Repository) (p : Progress)
    → AllOf key ms
    → IsFresh normalize ms p
    → IsBalanced p.repo
    → IsTracked key r p
    → IsTracked key r (canonicalize_all normalize ms p)
unfolding canonicalize_all IsFresh
canonicalize_all-IsTracked normalize key [] r p all fresh b t = t
canonicalize_all-IsTracked normalize key ((id, now, m) ∷ ms) r p all fresh b t =
    canonicalize_all-IsTracked normalize key ms r _ all.1 fresh.1
      (canonicalize_one-IsBalanced normalize id now m p fresh.0 b)
      (subst (λ (k : DocKey). IsTracked k r (canonicalize_one normalize (id, now, m) p)) all.0
        (canonicalize_one-IsTracked normalize id now m r p fresh.0 b
          (subst (λ (k : DocKey). IsTracked k r p) (sym all.0) t)))

start-IsTracked :
    (key : DocKey) (r : Repository)
    → lookup key r.doc_contribution ≡ none
    → IsTracked key r (start r)
start-IsTracked key r absent =
    let nothing : contributions key r.doc_contribution ≡ [] = ground (arith, absent) in
    record {
      entries = subst Distinct (sym nothing) tt;
      others = λ k apart. refl;
      touched = λ j. unfold lookup in rw (nothing, lookup) refl;
      tracks = λ j.
          subst (λ (cs : Map Uuid ℕ). Tracks (lookup j cs) (lookup j r.rows) (lookup j r.rows))
            (sym nothing) (unfold Tracks lookup in refl);
    }

-- Every row and every document's contribution are what they were.
pub record IsRestored (before after : Repository) : Type 0 where
  pub rows : (j : Uuid) → lookup j after.rows ≡ lookup j before.rows
  pub contributions :
      (k : DocKey) → lookup k after.doc_contribution ≡ lookup k before.doc_contribution

decremented-rows :
    (key : DocKey) (o : Option (Map Uuid ℕ)) (before : Map Uuid CanonicalEntity) (r : Repository)
    (j : Uuid)
    → ((ce : CanonicalEntity) → lookup j before ≡ some ce → 1 ≤ ce.mention_count)
    → Distinct (elim o [ none ↦ [] | some cs ↦ cs ])
    → Tracks (lookup j (elim o [ none ↦ [] | some cs ↦ cs ])) (lookup j before) (lookup j r.rows)
    → lookup j (decremented key o r).rows ≡ lookup j before
decremented-rows key none before r j pos d t = unfold Tracks lookup in t
decremented-rows key (some cs) before r j pos d t =
    lookup-reduce_all j cs r.rows d
    ∙ left-Tracks (lookup j cs) (lookup j before) (lookup j r.rows) pos t

decremented-own :
    (key : DocKey) (o : Option (Map Uuid ℕ)) (r : Repository)
    → lookup key r.doc_contribution ≡ o
    → lookup key (decremented key o r).doc_contribution ≡ none
decremented-own key none r e = e
decremented-own key (some cs) r e =
    ground (arith, lookup-delete key key r.doc_contribution, doc_key_eq.same_iff key key)

decremented-other :
    (key k : DocKey) (o : Option (Map Uuid ℕ)) (r : Repository)
    → (key == k) ≡ false
    → lookup k (decremented key o r).doc_contribution ≡ lookup k r.doc_contribution
decremented-other key k none r other = refl
decremented-other key k (some cs) r other =
    ground (arith, lookup-delete key k r.doc_contribution, other)

decremented-contributions :
    (key k : DocKey) (o : Option (Map Uuid ℕ)) (before : Map DocKey (Map Uuid ℕ)) (r : Repository)
    → lookup key r.doc_contribution ≡ o
    → lookup key before ≡ none
    → (key ≢ k → lookup k r.doc_contribution ≡ lookup k before)
    → lookup k (decremented key o r).doc_contribution ≡ lookup k before
decremented-contributions key k o before r e absent others = elim (Bool-cases (key == k)) [
  | inl same ↦
      let gone : lookup k before ≡ none =
        subst (λ (x : DocKey). lookup x before ≡ none) ((doc_key_eq.same_iff key k).0 same)
          absent in
      rw gone (
        subst (λ (x : DocKey). lookup x (decremented key o r).doc_contribution ≡ none)
          ((doc_key_eq.same_iff key k).0 same) (decremented-own key o r e))
  | inr other ↦
      decremented-other key k o r other ∙ others (λ q. cc (other, (doc_key_eq.same_iff key k).1 q))
]

-- Where a document has no contribution yet and every row counts a mention, DecrementForDocument after
-- Canonicalize of mentions of that document leaves every row and every document's contribution as they
-- were, the row's document count included. Each mention draws an ID that no row has, and every row stands under
-- its own ID and counts what the documents contribute.
pub decrement_for_document-canonicalize :
    (normalize : String → String) (user document : Uuid) (ms : List Mention) (r : Repository)
    → AllOf (record { user_id = user; document_id = document }) ms
    → IsFresh normalize ms (start r)
    → IsBalanced r
    → ((k : Uuid) (ce : CanonicalEntity) → lookup k r.rows ≡ some ce → 1 ≤ ce.mention_count)
    → lookup (record { user_id = user; document_id = document }) r.doc_contribution ≡ none
    → IsRestored r (decrement_for_document user document (canonicalize normalize ms r).1)
unfolding decrement_for_document canonicalize
decrement_for_document-canonicalize normalize user document ms r all fresh b pos absent =
    let key : DocKey = record { user_id = user; document_id = document } in
    let p = canonicalize_all normalize ms (start r) in
    let t =
      canonicalize_all-IsTracked normalize key ms r (start r) all fresh b
        (start-IsTracked key r absent) in
    record {
      rows = λ j.
          decremented-rows key (lookup key p.repo.doc_contribution) r.rows p.repo j (pos j)
            t.entries (t.tracks j);
      contributions =
          λ k. decremented-contributions key k _ r.doc_contribution p.repo refl absent (t.others k);
    }
