-- ===== src/Chunk/Splitter/Windows.antt =====
-- What `Split` of internal/chunk/splitter.go returns: it ends, loses no byte and cuts no rune.
use native.Mathlib.Decide.{ℕ_discrete}
use dumpster.Prelude.{
  ℕ, zero, suc, ◌+◌, ◌-◌, ◌≤◌, ◌<◌, ◌≡◌, refl, subst, ◌≢◌, some, List, [], ◌∷◌, ◌++◌, arith, sym,
}
use dumpster.Prelude.Tests.{nat_beq_iff, beq_ne, lt→ltb}
use dumpster.Prelude.Lists.{length, take}
use dumpster.Chunk.Splitter.{Text, Chunk, end_of, next_of, chunk_at, split_loop}
use dumpster.Chunk.Splitter.Align.{align_after_bounds, align_after_mono}

-- The text, put together again from the chunks: of each but the last, the bytes before the next one.
abbrev pub rebuild : List Chunk → Text
rebuild [] = []
rebuild (c ∷ []) = c.text
rebuild (c ∷ d ∷ cs) = take (d.char_start - c.char_start) c.text ++ rebuild (d ∷ cs)

-- A chunk is its own slice of the text, not empty and at most `size` bytes wide.
abbrev pub IsWindow : Text → ℕ → ℕ → Chunk → Type 0
IsWindow text size ordinal c =
    (c ≡ chunk_at text ordinal c.char_start c.char_end)
    × (c.char_start < c.char_end)
    × (c.char_end ≤ length text)
    × (c.char_end ≤ c.char_start + size)

-- The chunks of `text` from `start` on: numbered from `ordinal`, each one starting after the one before
-- it and no later than where that ends, up to the end of the text.
abbrev pub Covers : Text → ℕ → ℕ → ℕ → List Chunk → Type 0
Covers text size ordinal start [] = ⊥
Covers text size ordinal start (c ∷ []) =
    IsWindow text size ordinal c × (c.char_start ≡ start) × (c.char_end ≡ length text)
Covers text size ordinal start (c ∷ d ∷ cs) =
    IsWindow text size ordinal c
    × (c.char_start ≡ start)
    × (start < d.char_start)
    × (d.char_start ≤ c.char_end)
    × Covers text size (ordinal + 1) d.char_start (d ∷ cs)

module _ (text : Text) (size step start : ℕ) (in_text : start < length text) (moves : 0 < step)
    (fits : step ≤ size) where
  end_bounds :
      (start < end_of text size start)
      × (end_of text size start ≤ length text)
      × (end_of text size start ≤ start + size)
  unfolding end_of
  end_bounds = ground (arith, align_after_bounds text start (start + size))

  next_bounds : (start < next_of text step start) × (next_of text step start ≤ start + step)
  unfolding next_of
  next_bounds = align_after_bounds text start (start + step) (omega arith)

  next-le-end :
      end_of text size start ≢ length text → next_of text step start ≤ end_of text size start
  unfolding next_of end_of
  next-le-end h = ground (arith, align_after_mono text start (start + step) (start + size))

  window :
      (ordinal : ℕ)
      → IsWindow text size ordinal (chunk_at text ordinal start (end_of text size start))
  unfolding chunk_at
  window ordinal = (refl, end_bounds.0, end_bounds.1, end_bounds.2)

pub Covers-start :
    (text : Text) (size ordinal start : ℕ) (d : Chunk) (cs : List Chunk)
    → Covers text size ordinal start (d ∷ cs)
    → start ≡ d.char_start
Covers-start text size ordinal start d [] h = sym h.1
Covers-start text size ordinal start d (e ∷ cs) h = sym h.1

Covers-cons :
    (text : Text) (size ordinal start next : ℕ) (c : Chunk) (cs : List Chunk)
    → IsWindow text size ordinal c
    → c.char_start ≡ start
    → start < next
    → next ≤ c.char_end
    → Covers text size (ordinal + 1) next cs
    → Covers text size ordinal start (c ∷ cs)
Covers-cons text size ordinal start next c [] w s a b h = absurd h
Covers-cons text size ordinal start next c (d ∷ cs) w s a b h =
    let e = Covers-start text size (ordinal + 1) next d cs h in
    (
      w,
      s,
      subst (λ n. start < n) e a,
      subst (λ n. n ≤ c.char_end) e b,
      subst (λ n. Covers text size (ordinal + 1) n (d ∷ cs)) e h,
    )

pub loop-Covers :
    (fuel : ℕ) (text : Text) (size step ordinal start : ℕ)
    → 0 < step
    → step ≤ size
    → start < length text
    → length text < start + fuel
    → (cs : List Chunk) × (split_loop fuel text size step ordinal start ≡ some cs)
      × Covers text size ordinal start cs
unfolding split_loop
loop-Covers zero text size step ordinal start moves fits inside enough = absurd (omega arith)
loop-Covers (suc fuel) text size step ordinal start moves fits inside enough =
    elim (ℕ_discrete (end_of text size start) (length text)) [
      | yes done ↦ (
        chunk_at text ordinal start (end_of text size start) ∷ [],
        rw (lt→ltb _ _ inside, (nat_beq_iff _ _).1 done) refl,
        (
          window text size step start inside moves fits ordinal,
          unfold chunk_at in refl,
          unfold chunk_at in done,
        ),
      )
      | no more ↦
          let onward = next-le-end text size step start inside moves fits more in
          let ahead = (next_bounds text size step start inside moves fits).0 in
          let stops = (end_bounds text size step start inside moves fits).1 in
          let (cs, returned, covers) =
            loop-Covers fuel text size step (ordinal + 1) (next_of text step start) moves fits
              (omega arith) (omega arith) in
          (
            chunk_at text ordinal start (end_of text size start) ∷ cs,
            rw (lt→ltb _ _ inside, beq_ne _ _ more, returned) refl,
            Covers-cons text size ordinal start (next_of text step start) _ cs
                (window text size step start inside moves fits ordinal) (unfold chunk_at in refl)
                ahead (unfold chunk_at in onward) covers,
          )
    ]
