-- ===== src/Prelude/Sort.antt =====
-- `sort.Slice` with a `less` function, as insertion sort. Go's sort is not stable, so no statement
-- speaks of the order of items that `less` does not tell apart.
use Prim.Native.Nat.{suc}
use dumpster.Prelude.Lists.{length}
use mathlib.Core.Path.{◌≡◌, refl, ap, ◌∙◌}
use mathlib.Core.Logic.{inl, inr, ◌↔◌}
use mathlib.Core.Bool.{Bool, true, false}
use mathlib.Core.List.{List, [], ◌∷◌, Perm, Memᴰ}
use mathlib.Core.List.Perm
use dumpster.Prelude.Tests.{if◌then◌else◌, Bool-cases}

module _ {ℓ} {A : Type ℓ} where
  unfoldable pub place : (A → A → Bool) → A → List A → List A
  place less x [] = x ∷ []
  place less x (y ∷ ys) = let rest = place less x ys in if less y x then y ∷ rest else x ∷ y ∷ ys

  unfoldable pub sort_by : (A → A → Bool) → List A → List A
  sort_by less [] = []
  sort_by less (x ∷ xs) = place less x (sort_by less xs)

  place-perm : (less : A → A → Bool) (x : A) (ys : List A) → Perm (place less x ys) (x ∷ ys)
  unfolding place
  place-perm less x [] = Perm.refl (x ∷ [])
  place-perm less x (y ∷ ys) = elim (Bool-cases (less y x)) [
    | inl after ↦ rw after (Perm.trans (Perm.cons y (place-perm less x ys)) (Perm.swap x y ys))
    | inr here ↦ rw here (Perm.refl (x ∷ y ∷ ys))
  ]

  pub sort_by-perm : (less : A → A → Bool) (xs : List A) → Perm (sort_by less xs) xs
  unfolding sort_by
  sort_by-perm less [] = Perm.refl []
  sort_by-perm less (x ∷ xs) =
      Perm.trans (place-perm less x (sort_by less xs)) (Perm.cons x (sort_by-perm less xs))

  -- Sorting keeps the members.
  tail_mem :
      {x y : A} {xs ys : List A} → (Memᴰ y xs → Memᴰ y ys) → Memᴰ y (x ∷ xs) → Memᴰ y (x ∷ ys)
  tail_mem f (Memᴰ.head h) = Memᴰ.head h
  tail_mem f (Memᴰ.tail h) = Memᴰ.tail (f h)

  swap_head : {x y z : A} {xs : List A} → Memᴰ y (z ∷ x ∷ xs) → Memᴰ y (x ∷ z ∷ xs)
  swap_head (Memᴰ.head h) = Memᴰ.tail (Memᴰ.head h)
  swap_head (Memᴰ.tail (Memᴰ.head h)) = Memᴰ.head h
  swap_head (Memᴰ.tail (Memᴰ.tail h)) = Memᴰ.tail (Memᴰ.tail h)

  place-mem :
      (less : A → A → Bool) (x y : A) (ys : List A) → Memᴰ y (place less x ys) ↔ (Memᴰ y (x ∷ ys))
  unfolding place
  place-mem less x y [] = (λ h. h, λ h. h)
  place-mem less x y (z ∷ zs) = elim (Bool-cases (less z x)) [
    | inl after ↦ rw after (
        let rest = place-mem less x y zs in
        (λ h. swap_head (tail_mem rest.0 h), λ h. tail_mem rest.1 (swap_head h)))
    | inr here ↦ rw here (λ h. h, λ h. h)
  ]

  pub sort_by-mem :
      (less : A → A → Bool) (y : A) (xs : List A) → Memᴰ y (sort_by less xs) ↔ Memᴰ y xs
  unfolding sort_by
  sort_by-mem less y [] = (λ h. h, λ h. h)
  sort_by-mem less y (x ∷ xs) =
      let rest = sort_by-mem less y xs in
      let here = place-mem less x y (sort_by less xs) in
      (λ h. tail_mem rest.0 (here.0 h), λ h. here.1 (tail_mem rest.1 h))

  length-place :
      (less : A → A → Bool) (x : A) (ys : List A) → length (place less x ys) ≡ suc (length ys)
  unfolding place
  length-place less x [] = refl
  length-place less x (y ∷ ys) = elim (Bool-cases (less y x)) [
    | inl after ↦ rw after (ap suc (length-place less x ys))
    | inr here ↦ rw here refl
  ]

  pub length-sort_by : (less : A → A → Bool) (xs : List A) → length (sort_by less xs) ≡ length xs
  unfolding sort_by
  length-sort_by less [] = refl
  length-sort_by less (x ∷ xs) =
      length-place less x (sort_by less xs) ∙ ap suc (length-sort_by less xs)

  -- No item stands before one that is less.
  abbrev pub Least : (A → A → Bool) → A → List A → Type 0
  Least less x [] = Unit
  Least less x (y ∷ ys) = (less y x ≡ false) × Least less x ys

  abbrev pub Ordered : (A → A → Bool) → List A → Type 0
  Ordered less [] = Unit
  Ordered less (x ∷ xs) = Least less x xs × Ordered less xs

  -- `less` as `sort.Slice` documents it: a strict order whose "neither is less" is transitive.
  pub record IsStrictWeak (less : A → A → Bool) : Type ℓ where
    pub asym : (a b : A) → less a b ≡ true → less b a ≡ false
    pub trans : (a b c : A) → less b a ≡ false → less c b ≡ false → less c a ≡ false

module _ {ℓ} {A : Type ℓ} {less : A → A → Bool} (w : IsStrictWeak less) where
  Least-trans : (a b : A) (ys : List A) → less b a ≡ false → Least less b ys → Least less a ys
  Least-trans a b [] h l = tt
  Least-trans a b (y ∷ ys) h l = (w.trans a b y h l.0, Least-trans a b ys h l.1)

  Least-place :
      (a x : A) (ys : List A) → less x a ≡ false → Least less a ys → Least less a (place less x ys)
  unfolding place
  Least-place a x [] h l = (h, tt)
  Least-place a x (y ∷ ys) h l = elim (Bool-cases (less y x)) [
    | inl after ↦ rw after (l.0, Least-place a x ys h l.1)
    | inr here ↦ rw here (h, l)
  ]

  place-Ordered : (x : A) (ys : List A) → Ordered less ys → Ordered less (place less x ys)
  unfolding place
  place-Ordered x [] o = (tt, tt)
  place-Ordered x (y ∷ ys) o = elim (Bool-cases (less y x)) [
    | inl after ↦ rw after (Least-place y x ys (w.asym y x after) o.0, place-Ordered x ys o.1)
    | inr here ↦ rw here ((here, Least-trans x y ys here o.0), o)
  ]

  pub sort_by-Ordered : (xs : List A) → Ordered less (sort_by less xs)
  unfolding sort_by
  sort_by-Ordered [] = tt
  sort_by-Ordered (x ∷ xs) = place-Ordered x (sort_by less xs) (sort_by-Ordered xs)
