-- ===== src/Queue/Stage/Path.antt =====
-- Which active jobs `ActiveStageKeys` (internal/queue/stage.go) leaves out.
use dumpster.Prelude.{
  String, ◌≡◌, ◌≢◌, ◌↔◌, refl, ◌⊎◌, inl, inr, Bool, true, false, List, [], ◌∷◌, Memᴰ, arith,
  str_eq_iff, str_eq, ap, subst,
}
use mathlib.Core.List.Memᴰ.{not-nil}
use dumpster.Prelude.Tests.{if◌then◌else◌, Bool-cases}
use dumpster.Prelude.Eq.{string_eq}
use dumpster.Queue.Types.{JobType, region_classification, other, JobStatus}
use dumpster.Queue.Stage.{stage_for, stages_for_document, active_stage_keys, phase_embedding}
use dumpster.Queue.Stage.Keys.{Shows, key_of_job, stage_keys, active_stage_keys-mem_iff}

-- The key is none of the listed ones.
differs : String → List String → Bool
differs key [] = true
differs key (k ∷ keys) = let rest = differs key keys in if str_eq key k then false else rest

absent : (key : String) (keys : List String) → differs key keys ≡ true → ¬ Memᴰ key keys
unfolding differs
absent key [] t h = not-nil h
absent key (k ∷ keys) t (Memᴰ.head e) = absurd (ground (arith, t, e, str_eq_iff key k))
absent key (k ∷ keys) t (Memᴰ.tail h) = elim (Bool-cases (str_eq key k)) [
  | inl same ↦ absurd (ground (arith, t, same))
  | inr apart_here ↦ absent key keys (ground (arith, t, apart_here)) h
]

-- The active jobs that no stage of the document's pipeline stands for: those of an unknown type, and a
-- region classification that is not embedding, of a document that is not classified.
abbrev pub OffPath : Bool → JobType → String → Type 0
OffPath has_region (other t) phase = Unit
OffPath false region_classification phase = phase ≢ phase_embedding
OffPath has_region t phase = ⊥

stage-or_OffPath :
    (has_region : Bool) (t : JobType) (phase : String)
    → OffPath has_region t phase
      ⊎ Memᴰ (stage_for t phase).key (stage_keys (stages_for_document has_region))
unfolding stage_for stages_for_document
stage-or_OffPath true region_classification phase =
    elim (Bool-cases (str_eq phase phase_embedding)) [
      | inl e ↦ rw e (inr (Memᴰ.tail (Memᴰ.tail (Memᴰ.head refl))))
      | inr e ↦ rw e (inr (Memᴰ.tail (Memᴰ.head refl)))
    ]
stage-or_OffPath false region_classification phase =
    elim (Bool-cases (str_eq phase phase_embedding)) [
      | inl e ↦ rw e (inr (Memᴰ.tail (Memᴰ.head refl)))
      | inr e ↦ inl (λ h. cc (e, (str_eq_iff phase phase_embedding).1 h))
    ]
stage-or_OffPath has_region (other t) phase = inl tt
stage-or_OffPath true _ phase = inr (search (Memᴰ.head, Memᴰ.tail))
stage-or_OffPath false _ phase = inr (search (Memᴰ.head, Memᴰ.tail))

OffPath-hidden :
    (has_region : Bool) (t : JobType) (phase : String)
    → OffPath has_region t phase
    → ¬ Memᴰ (stage_for t phase).key (stage_keys (stages_for_document has_region))
unfolding stage_for stages_for_document differs
OffPath-hidden true (other t) phase off h = absent _ _ refl h
OffPath-hidden false (other t) phase off h = absent _ _ refl h
OffPath-hidden false region_classification phase off h =
    elim (Bool-cases (str_eq phase phase_embedding)) [
      | inl e ↦ off ((str_eq_iff phase phase_embedding).0 e)
      | inr e ↦ absent "analyzing" _ refl (rw e at h)
    ]
OffPath-hidden _ _ phase off h = absurd off

mem-map_key :
    (job : JobStatus) (jobs : List JobStatus) → Memᴰ job jobs → Shows (key_of_job job) jobs
mem-map_key job [] h = elim h [ ]
mem-map_key job (x ∷ jobs) (Memᴰ.head e) = Memᴰ.head (ap key_of_job e)
mem-map_key job (x ∷ jobs) (Memᴰ.tail h) = Memᴰ.tail (mem-map_key job jobs h)

Shows-job :
    (key : String) (jobs : List JobStatus)
    → Shows key jobs
    → (job : JobStatus) × Memᴰ job jobs × (key ≡ key_of_job job)
Shows-job key [] h = absurd (not-nil h)
Shows-job key (x ∷ jobs) (Memᴰ.head e) = (x, Memᴰ.head refl, e)
Shows-job key (x ∷ jobs) (Memᴰ.tail h) =
    let (job, held, e) = Shows-job key jobs h in (job, Memᴰ.tail held, e)

nil_of_absent : (keys : List String) → ((key : String) → ¬ Memᴰ key keys) → keys ≡ []
nil_of_absent [] h = refl
nil_of_absent (k ∷ keys) h = absurd (h k (Memᴰ.head refl))

-- No key is reported exactly if every active job is off the document's pipeline.
pub active_stage_keys-OffPath_iff :
    (has_region : Bool) (jobs : List JobStatus)
    → (active_stage_keys has_region jobs ≡ [])
      ↔ ((job : JobStatus) → Memᴰ job jobs → OffPath has_region job.job_type job.phase)
active_stage_keys-OffPath_iff has_region jobs = (
  λ empty job held. elim (stage-or_OffPath has_region job.job_type job.phase) [
    | inl off ↦ off
    | inr stage ↦
        let shown =
          (active_stage_keys-mem_iff has_region jobs (key_of_job job)).1
            (stage, mem-map_key job jobs held) in
        absurd (not-nil (subst (Memᴰ (key_of_job job)) empty shown))
  ],
  λ off. nil_of_absent (active_stage_keys has_region jobs) (λ key shown.
      let (stage, shows) = (active_stage_keys-mem_iff has_region jobs key).0 shown in
      let (job, held, e) = Shows-job key jobs shows in
      OffPath-hidden has_region job.job_type job.phase (off job held)
        (subst (λ (k : String). Memᴰ k (stage_keys (stages_for_document has_region))) e stage)),
)
