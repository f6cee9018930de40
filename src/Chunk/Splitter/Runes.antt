-- ===== src/Chunk/Splitter/Runes.antt =====
-- The chunks of internal/chunk/splitter.go cut no rune.
use native.Mathlib.Decide.{ℕ_discrete, dec_lt}
use dumpster.Prelude.{
  ℕ, zero, suc, ◌+◌, ◌≤◌, ◌<◌, ◌≡◌, refl, ◌≢◌, inl, inr, Option, none, some, List, [], ◌∷◌, arith,
  sym, ◌∙◌, subst,
}
use dumpster.Prelude.Tests.{some_eq, ltb_ne, lt→ltb, beq_ne, nat_beq_iff, leb, Bool-cases}
use dumpster.Prelude.Lists.{length}
use dumpster.Chunk.Splitter.{
  align_after, Text, Chunk, FixedWindow, step_of, end_of, next_of, chunk_at, split_loop, split,
  cons_some,
}
use dumpster.Chunk.Splitter.Align.{CanCut, align_after-CanCut}

-- Well-formed UTF-8, as far as it matters here: no rune is longer than four bytes.
abbrev pub HasRunes : Text → Type 0
HasRunes text = (i : ℕ) → i < length text → (j : ℕ) × (j ≤ i) × (i < j + 4) × CanCut text j

abbrev pub AllCut : Text → List Chunk → Type 0
AllCut text [] = Unit
AllCut text (c ∷ cs) = CanCut text c.char_start × CanCut text c.char_end × AllCut text cs

module _ (text : Text) (runes : HasRunes text) (start : ℕ) where
  cut_after : (n : ℕ) → 4 ≤ n → CanCut text (align_after text start (start + n))
  cut_after n h = elim (dec_lt (start + n) (length text)) [
    | yes inside ↦
        let (j, below, near, cut) = runes (start + n) inside in
        align_after-CanCut text start (start + n) j (omega arith) below cut
    | no past ↦
        align_after-CanCut text start (start + n) (start + n) (omega arith) (omega arith)
          (inr (inl (omega arith)))
  ]

  cut_end : (size : ℕ) → 4 ≤ size → CanCut text (end_of text size start)
  unfolding end_of
  cut_end size h = elim (Bool-cases (leb (length text) (start + size))) [
    | inl last ↦ rw last (inr (inl (omega arith)))
    | inr more ↦ rw more (cut_after size h)
  ]

cons_some-inv :
    {A : Type 0} (x : A) (o : Option (List A)) (xs : List A)
    → cons_some x o ≡ some xs
    → (ys : List A) × (o ≡ some ys) × (xs ≡ x ∷ ys)
cons_some-inv x none xs h = absurd (cc)
cons_some-inv x (some ys) xs h = (ys, refl, some_eq (sym h))

module _ (text : Text) (runes : HasRunes text) (size step : ℕ) (wide : 4 ≤ size)
    (far : 4 ≤ step) where
  loop-AllCut :
      (fuel ordinal start : ℕ) (cs : List Chunk)
      → CanCut text start
      → split_loop fuel text size step ordinal start ≡ some cs
      → AllCut text cs
  unfolding split_loop
  loop-AllCut zero ordinal start cs c h = absurd (cc)
  loop-AllCut (suc fuel) ordinal start cs c h = elim (dec_lt start (length text)) [
    | no past ↦
        let e : split_loop (suc fuel) text size step ordinal start ≡ some [] =
          rw (ltb_ne _ _ past) refl in
        subst (AllCut text) (some_eq (sym e ∙ h)) tt
    | yes inside ↦ elim (ℕ_discrete (end_of text size start) (length text)) [
      | yes done ↦
          let chunk = chunk_at text ordinal start (end_of text size start) in
          let e : split_loop (suc fuel) text size step ordinal start ≡ some (chunk ∷ []) =
            rw (lt→ltb _ _ inside, (nat_beq_iff _ _).1 done) refl in
          subst (AllCut text) (some_eq (sym e ∙ h))
            (unfold chunk_at in c, unfold chunk_at in cut_end text runes start size wide, tt)
      | no more ↦
          let chunk = chunk_at text ordinal start (end_of text size start) in
          let rest = split_loop fuel text size step (ordinal + 1) (next_of text step start) in
          let e : split_loop (suc fuel) text size step ordinal start ≡ cons_some chunk rest =
            rw (lt→ltb _ _ inside, beq_ne _ _ more) refl in
          let (ys, returned, made) = cons_some-inv chunk rest cs (sym e ∙ h) in
          subst (AllCut text) (sym made) (
            unfold chunk_at in c,
            unfold chunk_at in cut_end text runes start size wide,
            loop-AllCut fuel (ordinal + 1) (next_of text step start) ys
                (unfold next_of in cut_after text runes start step far) returned,
          )
    ]
  ]

-- In a text of runes of at most four bytes, with windows that advance by at least four, every
-- chunk that `Split` returns starts and ends between runes.
pub split-AllCut :
    (f : FixedWindow) (text : Text) (cs : List Chunk)
    → HasRunes text
    → f.overlap + 4 ≤ f.size
    → split f text ≡ some cs
    → AllCut text cs
unfolding split
split-AllCut f text cs runes h e = elim (ℕ_discrete (length text) 0) [
  | yes empty ↦ subst (AllCut text) (some_eq (sym (blank empty) ∙ e)) tt
  | no full ↦
      loop-AllCut text runes f.size (step_of f) (omega arith) (unfold step_of in ground arith)
        (length text + 1) 0 0 cs (inl refl) (sym (filled full) ∙ e)
]
  where
    blank : length text ≡ 0 → split f text ≡ some []
    blank z = rw ((nat_beq_iff _ _).1 z) refl

    filled :
        length text ≢ 0 → split f text ≡ split_loop (length text + 1) text f.size (step_of f) 0 0
    filled z = rw (beq_ne _ _ z) refl
