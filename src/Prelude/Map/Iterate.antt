-- ===== src/Prelude/Map/Iterate.antt =====
-- Loops over a map: `for k, v := range m { if p(v) { out = append(out, v) } }` and deletion by a test.
use mathlib.Core.Path.{◌≡◌, refl, sym, ap, ◌∙◌}
use mathlib.Core.Logic.{◌≢◌, ◌⊎◌, inl, inr}
use mathlib.Core.Bool.{Bool, true, false}
use mathlib.Core.Option.{none, some}
use mathlib.Core.List.{List, [], ◌∷◌, Memᴰ}
use native.Mathlib.Omega.{arith}
use dumpster.Prelude.Tests.{if◌then◌else◌, Bool-cases}
use dumpster.Prelude.Eq.{Eq, ◌==◌, ==_refl}
use dumpster.Prelude.Map.{Map, lookup, insert, delete, Distinct, lookup-insert, lookup-delete}

module _ {ℓ κ} {K : Type ℓ} {V : Type κ} where
  -- the values that pass the test, in the order of the iteration
  unfoldable pub values_where : (V → Bool) → Map K V → List V
  values_where p [] = []
  values_where p ((k, v) ∷ m) = let rest = values_where p m in if p v then v ∷ rest else rest

  -- `for k, v := range m { if p(v) { delete(m, k) } }`: the entries that fail the test stay
  unfoldable pub delete_where : (V → Bool) → Map K V → Map K V
  delete_where p [] = []
  delete_where p ((k, v) ∷ m) = let rest = delete_where p m in if p v then rest else (k, v) ∷ rest

module _ {ℓ} {A : Type ℓ} where
  -- What a loop `if b { out = append(out, w) }` can have put at the front.
  pub mem_of_append_if :
      (b : Bool) {v w : A} {xs : List A}
      → Memᴰ v (if b then w ∷ xs else xs)
      → ((v ≡ w) × (b ≡ true)) ⊎ Memᴰ v xs
  mem_of_append_if true (Memᴰ.head h) = inl (h, refl)
  mem_of_append_if true (Memᴰ.tail h) = inr h
  mem_of_append_if false h = inr h

  pub mem_append_if_tail :
      (b : Bool) (w : A) {v : A} {xs : List A} → Memᴰ v xs → Memᴰ v (if b then w ∷ xs else xs)
  mem_append_if_tail true w h = Memᴰ.tail h
  mem_append_if_tail false w h = h

module _ {ℓ κ} {K : Type ℓ} {V : Type κ} ⦃e : Eq K⦄ where
  lookup_ne : (i j : K) (w : V) (m : Map K V) → i ≢ j → lookup j ((i, w) ∷ m) ≡ lookup j m
  unfolding lookup
  lookup_ne i j w m h = ground (arith, e.same_iff i j)

  pub delete_absent : (k : K) (m : Map K V) → lookup k m ≡ none → delete k m ≡ m
  unfolding lookup delete
  delete_absent k [] h = refl
  delete_absent k ((i, w) ∷ m) h = elim (Bool-cases (i == k)) [
    | inl same ↦ absurd (ground (arith, same))
    | inr other ↦ rw other (ap (◌∷◌ (i, w)) (delete_absent k m (ground (arith, other))))
  ]

  pub Distinct-insert : (k : K) (v : V) (m : Map K V) → Distinct m → Distinct (insert k v m)
  unfolding insert lookup
  Distinct-insert k v [] h = (refl, tt)
  Distinct-insert k v ((i, w) ∷ m) h = elim (Bool-cases (i == k)) [
    | inl same ↦ rw same (rw (← (e.same_iff i k).0 same) h)
    | inr other ↦ rw other (
      rw (lookup-insert k i v m) (ground (arith, e.same_iff k i, e.same_iff i k, h.0)),
      Distinct-insert k v m h.1,
    )
  ]

  pub Distinct-delete : (k : K) (m : Map K V) → Distinct m → Distinct (delete k m)
  unfolding delete
  Distinct-delete k [] h = tt
  Distinct-delete k ((i, w) ∷ m) h = elim (Bool-cases (i == k)) [
    | inl same ↦ rw same (Distinct-delete k m h.1)
    | inr other ↦ rw other (rw (lookup-delete k i m) (ground (arith, h.0)), Distinct-delete k m h.1)
  ]

  lookup-delete_where-none :
      (p : V → Bool) (j : K) (m : Map K V) → lookup j m ≡ none → lookup j (delete_where p m) ≡ none
  unfolding lookup delete_where
  lookup-delete_where-none p j [] h = refl
  lookup-delete_where-none p j ((i, w) ∷ m) h = ground (arith, lookup-delete_where-none p j m)

  pub lookup-delete_where :
      (p : V → Bool) (j : K) (m : Map K V)
      → Distinct m
      → lookup j (delete_where p m)
        ≡ elim (lookup j m) [ none ↦ none | some v ↦ if p v then none else some v ]
  unfolding lookup delete_where
  lookup-delete_where p j [] h = refl
  lookup-delete_where p j ((i, w) ∷ m) h = elim (Bool-cases (i == j)) [
    | inl same ↦
        let gone : lookup j m ≡ none = rw (← (e.same_iff i j).0 same) h.0 in
        ground (arith, same, lookup-delete_where-none p j m gone)
    | inr other ↦ ground (arith, other, lookup-delete_where p j m h.1)
  ]

  pub Distinct-delete_where :
      (p : V → Bool) (m : Map K V) → Distinct m → Distinct (delete_where p m)
  unfolding delete_where
  Distinct-delete_where p [] h = tt
  Distinct-delete_where p ((i, w) ∷ m) h = elim (Bool-cases (p w)) [
    | inl gone ↦ rw gone (Distinct-delete_where p m h.1)
    | inr kept ↦ rw kept (lookup-delete_where-none p i m h.0, Distinct-delete_where p m h.1)
  ]

  -- The loop visits only values that the map holds and that pass the test.
  pub mem-values_where :
      (p : V → Bool) (v : V) (m : Map K V)
      → Distinct m
      → Memᴰ v (values_where p m)
      → (k : K) × (lookup k m ≡ some v) × (p v ≡ true)
  unfolding values_where
  mem-values_where p v [] h v_mem = elim v_mem [ ]
  mem-values_where p v ((i, w) ∷ m) h v_mem = elim (mem_of_append_if (p w) v_mem) [
    | inl here ↦ (i, unfold lookup in rw (==_refl i, here.0), rw here.0 here.1)
    | inr later ↦
        let (k, found, passes) = mem-values_where p v m h.1 later in
        let apart : i ≢ k = λ q. cc (h.0, found, ap (λ (x : K). lookup x m) q) in
        (k, rw (lookup_ne i k w m apart) found, passes)
  ]

  -- And all of those.
  pub values_where-mem :
      (p : V → Bool) (k : K) (v : V) (m : Map K V)
      → lookup k m ≡ some v
      → p v ≡ true
      → Memᴰ v (values_where p m)
  unfolding lookup values_where
  values_where-mem p k v [] h t = absurd (cc)
  values_where-mem p k v ((i, w) ∷ m) h t = elim (Bool-cases (i == k)) [
    | inl same ↦
        let v_first : v ≡ w = ground (arith, same) in
        rw (ap p (sym v_first) ∙ t) (Memᴰ.head v_first)
    | inr other ↦ mem_append_if_tail (p w) w (values_where-mem p k v m (ground (arith, other)) t)
  ]
