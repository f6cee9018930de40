-- ===== src/Chunk/Splitter/Align.antt =====
-- `alignToRuneBoundary` of internal/chunk/splitter.go.
use dumpster.Prelude.{
  ℕ, zero, suc, ◌≤◌, ◌<◌, ◌≡◌, refl, subst, ◌≢◌, ◌⊎◌, inl, inr, true, not, ◌&&◌, arith,
}
use native.Mathlib.Decide.{dec_le}
use native.Mathlib.Nat.{le_trans}
use dumpster.Prelude.Tests.{lt→ltb, ltb, Bool-cases}
use dumpster.Prelude.Lists.{length}
use dumpster.Chunk.Splitter.{Text, starts_rune, align_to_rune_boundary, align_after}

-- The text can be cut at `i`: its ends, and where a rune starts.
abbrev pub CanCut : Text → ℕ → Type 0
CanCut text i = (i ≡ 0) ⊎ (length text ≤ i) ⊎ (starts_rune text i ≡ true)

pub align-le : (text : Text) (i : ℕ) → align_to_rune_boundary text i ≤ i
unfolding align_to_rune_boundary
align-le text zero = omega arith
align-le text (suc i) = ground (arith, align-le text i)

align-CanCut : (text : Text) (i : ℕ) → CanCut text (align_to_rune_boundary text i)
unfolding align_to_rune_boundary
align-CanCut text zero = inl refl
align-CanCut text (suc i) =
    elim (Bool-cases (ltb (suc i) (length text) && not (starts_rune text (suc i)))) [
      | inl inside ↦ rw inside (align-CanCut text i)
      | inr fine ↦ rw fine (inr (ground arith))
    ]

inside_a_rune :
    (text : Text) (i : ℕ)
    → (ltb i (length text) && not (starts_rune text i)) ≡ true
    → 0 < i
    → ¬ CanCut text i
inside_a_rune text i inside h c = ground arith

align_greatest : (text : Text) (i j : ℕ) → j ≤ i → CanCut text j → j ≤ align_to_rune_boundary text i
unfolding align_to_rune_boundary
align_greatest text zero j h c = omega arith
align_greatest text (suc i) j h c =
    elim (Bool-cases (ltb (suc i) (length text) && not (starts_rune text (suc i)))) [
      | inl inside ↦
          let earlier : j ≢ suc i =
            λ e. inside_a_rune text (suc i) inside (omega arith) (subst (CanCut text) e c) in
          rw inside (align_greatest text i j (omega arith) c)
      | inr fine ↦ rw fine h
    ]

-- The result is a place up to `i` where the text can be cut, and no such place up to `i` comes
-- after it.
pub align_to_rune_boundary_lem :
    (text : Text) (i j : ℕ)
    → j ≤ i
    → CanCut text j
    → (j ≤ align_to_rune_boundary text i)
      × (align_to_rune_boundary text i ≤ i)
      × CanCut text (align_to_rune_boundary text i)
align_to_rune_boundary_lem text i j h c =
    (align_greatest text i j h c, align-le text i, align-CanCut text i)

module _ (text : Text) (start : ℕ) where
  -- An aligned offset lies after the start and not after the offset itself,
  pub align_after_bounds :
      (i : ℕ) → start < i → (start < align_after text start i) × (align_after text start i ≤ i)
  unfolding align_after
  align_after_bounds i h = ground (arith, align-le text i)

  -- keeps the order of offsets,
  pub align_after_mono : (i k : ℕ) → i ≤ k → align_after text start i ≤ align_after text start k
  unfolding align_after
  align_after_mono i k h = ground (
    arith,
    align-le text i,
    align-le text k,
    align_greatest text k (align_to_rune_boundary text i) (le_trans (align-le text i) h)
        (align-CanCut text i),
    mixed,
  )
    where
      mixed :
          start < align_to_rune_boundary text k
          → align_to_rune_boundary text i ≤ start
          → i ≤ align_to_rune_boundary text k
      mixed a b = elim (dec_le i (align_to_rune_boundary text k)) [
        | yes p ↦ p
        | no p ↦
            let back =
              align_greatest text i (align_to_rune_boundary text k) (omega arith)
                (align-CanCut text k) in
            absurd (omega (arith, back))
      ]

  -- and is a place to cut at, where the text has one between the start and the offset.
  pub align_after-CanCut :
      (i j : ℕ) → start < j → j ≤ i → CanCut text j → CanCut text (align_after text start i)
  unfolding align_after
  align_after-CanCut i j h k c =
      rw (lt→ltb _ _ (le_trans h (align_greatest text i j k c))) (align-CanCut text i)
