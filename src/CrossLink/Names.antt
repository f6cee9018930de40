-- ===== src/CrossLink/Names.antt =====
-- Which texts count as proper names: isCapitalized of internal/crosslink/memory/memory.go. The articles are
-- plain letters, so that they take as many code points as bytes.
use Prim.Native.Char.{Char}
use Prim.Native.String.{String, [], ◌∷◌}
use dumpster.Prelude.{Bool, false, Option, none, some}
use dumpster.Prelude.Tests.{if◌then◌else◌}

-- How Unicode tells letters: `strings.EqualFold` on two of them, and `unicode.IsUpper`.
pub record Letters : Type 0 where
  pub equal_fold : Char → Char → Bool
  pub is_upper : Char → Bool

module _ (letters : Letters) where
  -- What follows the article, where the text begins with it and is longer.
  unfoldable pub after_article : String → String → Option String
  after_article [] [] = none
  after_article [] (c ∷ s) = some (c ∷ s)
  after_article (a ∷ article) [] = none
  after_article (a ∷ article) (c ∷ s) =
      let rest = after_article article s in if letters.equal_fold c a then rest else none

  -- the loop over the three articles, which ends at the first that is there
  unfoldable pub without_article : String → String
  without_article s = elim (after_article "the " s) [
    | some rest ↦ rest
    | none ↦ elim (after_article "a " s) [
      | some rest ↦ rest
      | none ↦ elim (after_article "an " s) [ some rest ↦ rest | none ↦ s ]
    ]
  ]

  unfoldable pub starts_upper : String → Bool
  starts_upper [] = false
  starts_upper (c ∷ s) = letters.is_upper c

  -- `isCapitalized`
  unfoldable pub is_capitalized : String → Bool
  is_capitalized s = starts_upper (without_article s)
