-- ===== src/Chunk/Splitter.antt =====
-- The fixed-window splitter: internal/chunk/splitter.go. A Go string is its list of bytes. The window
-- sizes are taken as natural numbers: a negative `size` or `overlap` is left out.
pub mod Align
pub mod Windows
pub mod Rebuild
pub mod Runes
use dumpster.Prelude.{
  ℕ, zero, suc, ◌+◌, ◌-◌, ◌/◌, Bool, true, false, not, ◌&&◌, ◌||◌, Option, none, some, List, [],
  ◌∷◌,
}
use dumpster.Prelude.Tests.{if◌then◌else◌, ltb, leb, nat_beq}
use dumpster.Prelude.Lists.{length, get_elem?, take, drop}

abbrev pub Text : Type 0
Text = List ℕ

-- `utf8.RuneStart`: not a continuation byte, 10xxxxxx.
unfoldable pub rune_start : ℕ → Bool
rune_start b = ltb b 128 || leb 192 b

-- `utf8.RuneStart(text[i])`, asked for at an index in range only.
unfoldable pub starts_rune : Text → ℕ → Bool
unfolding rune_start
starts_rune text i = elim (get_elem? text i) [ none ↦ true | some b ↦ rune_start b ]

-- `alignToRuneBoundary`
unfoldable pub align_to_rune_boundary : Text → ℕ → ℕ
align_to_rune_boundary text zero = zero
align_to_rune_boundary text (suc i) =
    if ltb (suc i) (length text) && not (starts_rune text (suc i))
    then align_to_rune_boundary text i
    else suc i

pub record FixedWindow : Type 0 where
  pub size : ℕ
  pub overlap : ℕ

abbrev pub default_fixed_window : FixedWindow
default_fixed_window = record { size = 3000; overlap = 300 }

-- The fields of `Chunk` that `Split` sets.
pub record Chunk : Type 0 where
  pub ordinal : ℕ
  pub text : Text
  pub token_count : ℕ
  pub char_start : ℕ
  pub char_end : ℕ

-- `step`: where `size - overlap` is not positive, one byte.
unfoldable pub step_of : FixedWindow → ℕ
step_of f = if leb f.size f.overlap then 1 else f.size - f.overlap

-- `if aligned := alignToRuneBoundary(text, i); aligned > start { … }`
unfoldable pub align_after : Text → ℕ → ℕ → ℕ
align_after text start i =
    let aligned = align_to_rune_boundary text i in if ltb start aligned then aligned else i

unfoldable pub end_of : Text → ℕ → ℕ → ℕ
unfolding align_after
end_of text size start =
    if leb (length text) (start + size) then length text else align_after text start (start + size)

unfoldable pub next_of : Text → ℕ → ℕ → ℕ
unfolding align_after
next_of text step start = align_after text start (start + step)

-- `text[i:j]`
abbrev pub slice : Text → ℕ → ℕ → Text
slice text i j = take (j - i) (drop i text)

unfoldable pub chunk_at : Text → ℕ → ℕ → ℕ → Chunk
chunk_at text ordinal start stop = record {
  ordinal = ordinal;
  text = slice text start stop;
  token_count = length (slice text start stop) / 4;
  char_start = start;
  char_end = stop;
}

abbrev pub cons_some {ℓ} : {A : Type ℓ} → A → Option (List A) → Option (List A)
cons_some x none = none
cons_some x (some xs) = some (x ∷ xs)

-- The loop of `Split`; `none` means that the fuel ran out.
unfoldable pub split_loop : ℕ → Text → ℕ → ℕ → ℕ → ℕ → Option (List Chunk)
unfolding chunk_at end_of next_of
split_loop zero text size step ordinal start = none
split_loop (suc fuel) text size step ordinal start =
    let stop = end_of text size start in
    let chunk = chunk_at text ordinal start stop in
    let rest = split_loop fuel text size step (ordinal + 1) (next_of text step start) in
    if not (ltb start (length text))
    then some []
    else if nat_beq stop (length text)
    then some (chunk ∷ [])
    else cons_some chunk rest

-- `Split`. One round for each byte and one more are enough, since every round moves `start` forward.
unfoldable pub split : FixedWindow → Text → Option (List Chunk)
unfolding split_loop step_of
split f text =
    if nat_beq (length text) 0
    then some []
    else split_loop (length text + 1) text f.size (step_of f) 0 0
