-- ===== src/Prelude/Integer.antt =====
-- Go's signed counters as integers over the native numbers, under the library's names.
use Prim.Native.Nat.{ℕ, zero, suc, ◌+◌, ◌-◌}
use mathlib.Core.Path.{◌≡◌, refl}
use dumpster.Prelude.Tests.{if◌then◌else◌, ltb}

-- `negsuc n` is `-(n + 1)`.
pub data ℤ : Type 0 where
  pos negsuc : ℕ → ℤ

-- `x++`
unfoldable pub increment : ℤ → ℤ
increment (pos n) = pos (suc n)
increment (negsuc zero) = pos 0
increment (negsuc (suc n)) = negsuc n

-- `x--`
unfoldable pub decrement : ℤ → ℤ
decrement (pos zero) = negsuc 0
decrement (pos (suc n)) = pos n
decrement (negsuc n) = negsuc (suc n)

-- `m - (n + 1)` on naturals
abbrev difference : ℕ → ℕ → ℤ
difference m n = if ltb n m then pos (m - suc n) else negsuc (n - m)

infixl 60 ◌+ℤ◌
unfoldable pub ◌+ℤ◌ : ℤ → ℤ → ℤ
pos m +ℤ pos n = pos (m + n)
pos m +ℤ negsuc n = difference m n
negsuc m +ℤ pos n = difference n m
negsuc m +ℤ negsuc n = negsuc (suc (m + n))

pub decrement-increment : (x : ℤ) → decrement (increment x) ≡ x
unfolding decrement increment
decrement-increment (pos n) = refl
decrement-increment (negsuc zero) = refl
decrement-increment (negsuc (suc n)) = refl

-- `m - n` on naturals
unfoldable pub minus : ℕ → ℕ → ℤ
minus m zero = pos m
minus m (suc n) = difference m n
