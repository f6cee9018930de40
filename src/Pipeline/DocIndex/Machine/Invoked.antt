-- ===== src/Pipeline/DocIndex/Machine/Invoked.antt =====
-- Which steps an execution of internal/pipeline/docindex/statemachine.asl.json invokes, in which state.
use dumpster.Prelude.{ℕ, zero, suc, ◌≡◌, refl, ◌∙◌, ◌⊎◌, inl, inr, true, false, Option, none, some}
use dumpster.Prelude.Tests.{Bool-cases}
use dumpster.Pipeline.{Error, StepError}
use dumpster.Pipeline.EmbedTail.{done, failing}
use dumpster.Pipeline.DocIndex.{Deps, Prepared, Input}
use dumpster.Pipeline.DocIndex.Machine.{
  Step, step_prepare, step_finalize, step_record_failure, Answer, handle, is_named_transient,
  or_again, retrying,
}

module _ {W : Type 0} (d : Deps W) (describe : Error → StepError)
    (embed : Prepared → W → Option StepError × W) where
  -- `Invoked i w step j u`: the execution that starts in `w` on the input `i` comes to invoke `step` on the
  -- input `j` in the state `u`. The constructors are the arrows of the state machine.
  pub data Invoked (i : Input) (w : W) : Step → Input → W → Type 0 where
    starts : Invoked i w step_prepare i w
    retries :
        {step : Step} {j : Input} {u v : W} {e : Error}
        → Invoked i w step j u
        → handle d step j u ≡ (failing e, v)
        → is_named_transient e ≡ true
        → Invoked i w step j v
    passes :
        {p : Prepared} {u v : W}
        → Invoked i w step_prepare i u
        → handle d step_prepare i u ≡ (done (some p), v)
        → p.embed ≡ false
        → Invoked i w step_finalize (record i { prepare = some p }) v
    embeds :
        {p : Prepared} {u v x : W}
        → Invoked i w step_prepare i u
        → handle d step_prepare i u ≡ (done (some p), v)
        → p.embed ≡ true
        → embed p v ≡ (none, x)
        → Invoked i w step_finalize (record i { prepare = some p }) x
    prepare_fails :
        {u v : W} {e : Error}
        → Invoked i w step_prepare i u
        → handle d step_prepare i u ≡ (failing e, v)
        → Invoked i w step_record_failure (record i { error = some (describe e) }) v
    embed_fails :
        {p : Prepared} {u v x : W} {e : StepError}
        → Invoked i w step_prepare i u
        → handle d step_prepare i u ≡ (done (some p), v)
        → p.embed ≡ true
        → embed p v ≡ (some e, x)
        → Invoked i w step_record_failure (record i { prepare = some p; error = some e }) x
    finalize_fails :
        {j : Input} {u v : W} {e : Error}
        → Invoked i w step_finalize j u
        → handle d step_finalize j u ≡ (failing e, v)
        → Invoked i w step_record_failure (record j { error = some (describe e) }) v

pub or_again-cases :
    {W : Type 0} (o again : Answer × W)
    → (or_again o again ≡ o)
      ⊎ ((e : Error) × (o ≡ (failing e, o.1))
          × (is_named_transient e ≡ true)
          × (or_again o again ≡ again))
or_again-cases (done p, w) again = inl refl
or_again-cases (failing e, w) again = elim (Bool-cases (is_named_transient e)) [
  | inl retry ↦ inr (e, refl, retry, rw retry refl)
  | inr stop ↦ inl (rw stop refl)
]

module _ {W : Type 0} (d : Deps W) (describe : Error → StepError)
    (embed : Prepared → W → Option StepError × W) (i : Input) (w : W) where
  -- The result of a retried step is that of its last invocation.
  pub retrying-last :
      (n : ℕ) (step : Step) (j : Input) (u : W)
      → Invoked d describe embed i w step j u
      → (v : W) × Invoked d describe embed i w step j v
        × (retrying d n step j u ≡ handle d step j v)
  unfolding retrying
  retrying-last zero step j u called = (u, called, refl)
  retrying-last (suc n) step j u called =
      let out = handle d step j u in
      elim (or_again-cases out (retrying d n step j out.1)) [
        | inl first ↦ (u, called, first)
        | inr (e, fails, retry, again) ↦
            let (v, later, last) =
              retrying-last n step j out.1 (Invoked.retries called fails retry) in
            (v, later, again ∙ last)
      ]
