-- ===== src/CrossLink/Proper.antt =====
-- What PurgeLowQuality, internal/crosslink/memory/memory.go, leaves to be shown.
use mathlib.Core.List.Memᴰ.{not-nil}
use dumpster.Prelude.{
  ℕ, suc, ◌≡◌, ◌≢◌, refl, sym, ap, ◌∙◌, subst, ◌⊎◌, inl, inr, String, true, false, Option, none,
  some, List, [], ◌∷◌, Memᴰ, arith,
}
use dumpster.Prelude.Tests.{Bool-cases, Option-cases, and_iff}
use dumpster.Prelude.Eq.{◌==◌, nat_eq, string_eq, ==_refl}
use dumpster.Prelude.Map.{Map, lookup, delete, lookup-insert, lookup-delete}
use dumpster.Queue.Types.{Uuid}
use dumpster.CrossLink.Names.{Letters, is_capitalized}
use dumpster.CrossLink.{
  none_relation, Candidate, ConfirmedRelation, PairKey, pair_key_eq, kb_key_eq, Repository, pair_of,
  seeded, resolved_of, relation_of, confirmed, list_confirmed, is_proper, purge, purge_low_quality,
  purged,
}

-- A confirmed relation is that of a candidate whose pair is resolved to it.
record IsOf (m : Map PairKey String) (cs : List Candidate) (rel : ConfirmedRelation) : Type 0 where
  candidate : Candidate
  relation : String
  listed : Memᴰ candidate cs
  resolved : lookup (pair_of candidate) m ≡ some relation
  made : rel ≡ relation_of candidate relation
  is_real : relation ≢ none_relation

later :
    (m : Map PairKey String) (x : Candidate) (cs : List Candidate) (rel : ConfirmedRelation)
    → IsOf m cs rel
    → IsOf m (x ∷ cs) rel
later m x cs rel h = record {
  candidate = h.candidate;
  relation = h.relation;
  listed = Memᴰ.tail h.listed;
  resolved = h.resolved;
  made = h.made;
  is_real = h.is_real;
}

confirmed-IsOf :
    (m : Map PairKey String) (cs : List Candidate) (rel : ConfirmedRelation)
    → Memᴰ rel (confirmed m cs)
    → IsOf m cs rel
unfolding confirmed
confirmed-IsOf m [] rel h = absurd (not-nil h)
confirmed-IsOf m (x ∷ cs) rel h =
    let ih = confirmed-IsOf m cs rel in
    elim (Option-cases (lookup (pair_of x) m)) [
      | inl unset ↦
          let shape : confirmed m (x ∷ cs) ≡ confirmed m cs = rw (unset, confirmed) refl in
          later m x cs rel (ih (subst (Memᴰ rel) shape h))
      | inr (relation, set) ↦ elim (Bool-cases (relation == none_relation)) [
        | inl nothing ↦
            let shape : confirmed m (x ∷ cs) ≡ confirmed m cs =
              rw (set, confirmed) (rw nothing refl) in
            later m x cs rel (ih (subst (Memᴰ rel) shape h))
        | inr real ↦
            let shape : confirmed m (x ∷ cs) ≡ relation_of x relation ∷ confirmed m cs =
              rw (set, confirmed) (rw real refl) in
            elim (subst (Memᴰ rel) shape h) [
              | Memᴰ.tail held ↦ later m x cs rel (ih held)
              | Memᴰ.head same ↦ record {
                candidate = x;
                relation = relation;
                listed = Memᴰ.head refl;
                resolved = set;
                made = same;
                is_real = λ e. cc (real, (string_eq.same_iff relation none_relation).1 e);
              }
            ]
      ]
    ]

module _ (letters : Letters) where
  -- The loop on a candidate that is kept, or not resolved; and on one that is removed.
  purge-kept :
      (c : Candidate) (cs : List Candidate) (n : ℕ) (m : Map PairKey String)
      → (is_proper letters c ≡ true) ⊎ (lookup (pair_of c) m ≡ none)
      → purge letters (c ∷ cs) (n, m) ≡ purge letters cs (n, m)
  unfolding purge
  purge-kept c cs n m (inl proper) = rw proper refl
  purge-kept c cs n m (inr unset) = elim (Bool-cases (is_proper letters c)) [
    | inl proper ↦ rw proper refl
    | inr improper ↦ rw improper (rw unset refl)
  ]

  purge-removed :
      (c : Candidate) (cs : List Candidate) (n : ℕ) (m : Map PairKey String) {relation : String}
      → is_proper letters c ≡ false
      → lookup (pair_of c) m ≡ some relation
      → purge letters (c ∷ cs) (n, m) ≡ purge letters cs (suc n, delete (pair_of c) m)
  unfolding purge
  purge-removed c cs n m improper set = rw improper (rw set refl)

  -- A pair that is not resolved stays so.
  purge-none :
      (k : PairKey) (cs : List Candidate) (n : ℕ) (m : Map PairKey String)
      → lookup k m ≡ none
      → lookup k (purge letters cs (n, m)).1 ≡ none
  unfolding purge
  purge-none k [] n m h = h
  purge-none k (c ∷ cs) n m h =
      let kept = purge-none k cs n m h in
      let gone =
        purge-none k cs (suc n) (delete (pair_of c) m)
          (ground (arith, lookup-delete (pair_of c) k m, h)) in
      elim (Option-cases (lookup (pair_of c) m)) [
        | inl unset ↦ rw (purge-kept c cs n m (inr unset)) kept
        | inr (relation, set) ↦ elim (Bool-cases (is_proper letters c)) [
          | inl proper ↦ rw (purge-kept c cs n m (inl proper)) kept
          | inr improper ↦ rw (purge-removed c cs n m improper set) gone
        ]
      ]

  -- The pair of a listed candidate that is not proper is not resolved afterwards.
  purge-clears :
      (x : Candidate) (cs : List Candidate) (n : ℕ) (m : Map PairKey String)
      → Memᴰ x cs
      → is_proper letters x ≡ false
      → lookup (pair_of x) (purge letters cs (n, m)).1 ≡ none
  purge-clears x [] n m h improper = absurd (not-nil h)
  purge-clears x (c ∷ cs) n m (Memᴰ.head same) improper =
      let mine : is_proper letters c ≡ false = ap (is_proper letters) (sym same) ∙ improper in
      let gone : lookup (pair_of x) (delete (pair_of c) m) ≡ none =
        rw same (ground (arith, lookup-delete (pair_of c) (pair_of c) m, ==_refl (pair_of c))) in
      elim (Option-cases (lookup (pair_of c) m)) [
        | inl unset ↦ rw (purge-kept c cs n m (inr unset)) (
            purge-none (pair_of x) cs n m
              (ap (λ (y : Candidate). lookup (pair_of y) m) same ∙ unset))
        | inr (relation, set) ↦
            rw (purge-removed c cs n m mine set)
              (purge-none (pair_of x) cs (suc n) (delete (pair_of c) m) gone)
      ]
  purge-clears x (c ∷ cs) n m (Memᴰ.tail h) improper =
      let kept = purge-clears x cs n m h improper in
      let gone = purge-clears x cs (suc n) (delete (pair_of c) m) h improper in
      elim (Option-cases (lookup (pair_of c) m)) [
        | inl unset ↦ rw (purge-kept c cs n m (inr unset)) kept
        | inr (relation, set) ↦ elim (Bool-cases (is_proper letters c)) [
          | inl proper ↦ rw (purge-kept c cs n m (inl proper)) kept
          | inr mean ↦ rw (purge-removed c cs n m mean set) gone
        ]
      ]

  resolved_of-purged :
      (user kb : Uuid) (r : Repository) (m : Map PairKey String)
      → resolved_of user (purged letters user kb r (some m)).1
        ≡ (purge letters (seeded user kb r) (0, m)).1
  resolved_of-purged user kb r m =
      let left = (purge letters (seeded user kb r) (0, m)).1 in
      ground (arith, lookup-insert user user left r.resolved, ==_refl user)

  pub Shown : ConfirmedRelation → Type 0
  Shown rel =
      (is_capitalized letters rel.entity_a_text ≡ true)
      × (is_capitalized letters rel.entity_b_text ≡ true)
      × (rel.relation_type ≢ none_relation)

  IsOf-Shown :
      (m : Map PairKey String) (cs : List Candidate) (rel : ConfirmedRelation)
      → IsOf m cs rel
      → ((c : Candidate) → Memᴰ c cs → is_proper letters c ≡ false → lookup (pair_of c) m ≡ none)
      → Shown rel
  unfolding Shown
  IsOf-Shown m cs rel h clears = elim (Bool-cases (is_proper letters h.candidate)) [
    | inr improper ↦ absurd (cc (h.resolved, clears h.candidate h.listed improper))
    | inl proper ↦
        let (a, b) =
          (and_iff (is_capitalized letters h.candidate.entity_a_text)
              (is_capitalized letters h.candidate.entity_b_text)).0
            proper in
        subst Shown (sym h.made) (a, b, h.is_real)
  ]

  purged-Shown :
      (user kb : Uuid) (r : Repository) (o : Option (Map PairKey String)) (rel : ConfirmedRelation)
      → lookup user r.resolved ≡ o
      → Memᴰ rel (list_confirmed user kb (purged letters user kb r o).1)
      → Shown rel
  unfolding list_confirmed lookup
  purged-Shown user kb r none rel here h =
      let m = resolved_of user r in
      let nil : resolved_of user r ≡ [] = ground (arith, here) in
      let unset : (k : PairKey) → lookup k m ≡ none = λ k. ap (lookup k) nil in
      IsOf-Shown m (seeded user kb r) rel (confirmed-IsOf m (seeded user kb r) rel h)
        (λ c held improper. unset (pair_of c))
  purged-Shown user kb r (some m) rel here h =
      let cs = seeded user kb r in
      let shape = resolved_of-purged user kb r m in
      IsOf-Shown (resolved_of user (purged letters user kb r (some m)).1) cs rel
        (confirmed-IsOf (resolved_of user (purged letters user kb r (some m)).1) cs rel h)
        (λ c held improper. ap (lookup (pair_of c)) shape ∙ purge-clears c cs 0 m held improper)

  -- After PurgeLowQuality, ListConfirmed shows only relations between two texts that count as proper
  -- names, and none that is the mark of a pair reviewed without one.
  pub list_confirmed-purge_low_quality :
      (user kb : Uuid) (r : Repository) (rel : ConfirmedRelation)
      → Memᴰ rel (list_confirmed user kb (purge_low_quality letters user kb r).1)
      → Shown rel
  unfolding purge_low_quality
  list_confirmed-purge_low_quality user kb r rel =
      purged-Shown user kb r (lookup user r.resolved) rel refl
