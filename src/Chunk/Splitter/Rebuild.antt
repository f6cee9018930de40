-- ===== src/Chunk/Splitter/Rebuild.antt =====
-- The chunks of internal/chunk/splitter.go hold the whole text.
use dumpster.Prelude.{
  ℕ, ◌+◌, ◌-◌, ◌≤◌, ◌<◌, ◌≡◌, some, List, [], ◌∷◌, ◌++◌, arith, ap, ap₂, sym, ◌∙◌,
}
use dumpster.Prelude.Tests.{some_eq, beq_ne}
use dumpster.Prelude.Lists.{
  length, take, drop, take-append-drop, length-drop, take-take, take_of_length-le, drop-drop,
}
use dumpster.Chunk.Splitter.{Text, Chunk, FixedWindow, step_of, slice, chunk_at, split}
use dumpster.Chunk.Splitter.Windows.{Covers, rebuild, IsWindow, loop-Covers}

window-text :
    (text : Text) (size ordinal : ℕ) (c : Chunk)
    → IsWindow text size ordinal c
    → c.text ≡ slice text c.char_start c.char_end
unfolding chunk_at
window-text text size ordinal c w = ap (λ (x : Chunk). x.text) w.0

-- A prefix of a slice, and the text from where it ends.
slice-append-drop :
    (text : Text) (a b e : ℕ)
    → a ≤ b
    → b ≤ e
    → take (b - a) (slice text a e) ++ drop b text ≡ drop a text
slice-append-drop text a b e h k =
    ap₂ ◌++◌ (take-take (b - a) (e - a) (drop a text) (omega arith))
      (sym (drop-drop (b - a) a text ∙ ap (λ (n : ℕ). drop n text) (omega arith)))
    ∙ take-append-drop (b - a) (drop a text)

rebuild-drop :
    (text : Text) (size ordinal start : ℕ) (cs : List Chunk)
    → Covers text size ordinal start cs
    → rebuild cs ≡ drop start text
rebuild-drop text size ordinal start [] h = absurd h
rebuild-drop text size ordinal start (c ∷ []) h =
    window-text text size ordinal c h.0
    ∙ take_of_length-le (c.char_end - c.char_start) (drop c.char_start text)
        (omega (arith, length-drop c.char_start text))
    ∙ ap (λ (n : ℕ). drop n text) h.1
rebuild-drop text size ordinal start (c ∷ d ∷ cs) h =
    ap₂ (λ (xs ys : List ℕ). take (d.char_start - c.char_start) xs ++ ys)
      (window-text text size ordinal c h.0)
      (rebuild-drop text size (ordinal + 1) d.char_start (d ∷ cs) h.4)
    ∙ slice-append-drop text c.char_start d.char_start c.char_end (omega arith) h.3
    ∙ ap (λ (n : ℕ). drop n text) h.1

-- With an overlap smaller than the window, splitting a text that is not empty ends, and the chunks
-- cover it: they are numbered from 0, each is a slice of at most `size` bytes, the first starts at 0,
-- each later one starts after the one before it and no later than its end, and the last ends the text.
pub split-Covers :
    (f : FixedWindow) (text : Text)
    → f.overlap < f.size
    → 0 < length text
    → (cs : List Chunk) × (split f text ≡ some cs) × Covers text f.size 0 0 cs
unfolding split
split-Covers f text h some_text = rw (beq_ne (length text) 0 (omega arith)) (
    loop-Covers (length text + 1) text f.size (step_of f) 0 0 (unfold step_of in ground arith)
      (unfold step_of in ground arith) some_text (omega arith))

-- With an overlap smaller than the window, nothing is lost: put together without their overlaps,
-- the chunks that `Split` returns are the text.
pub rebuild-split :
    (f : FixedWindow) (text : Text) (cs : List Chunk)
    → f.overlap < f.size
    → split f text ≡ some cs
    → rebuild cs ≡ text
rebuild-split f [] cs h e = unfold split in ap rebuild (some_eq (sym e))
rebuild-split f (b ∷ text) cs h e =
    let (found, returned, covers) = split-Covers f (b ∷ text) h (omega arith) in
    ap rebuild (some_eq (sym e ∙ returned)) ∙ rebuild-drop (b ∷ text) f.size 0 0 found covers
