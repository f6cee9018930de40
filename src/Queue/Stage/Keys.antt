-- ===== src/Queue/Stage/Keys.antt =====
-- What `ActiveStageKeys` (internal/queue/stage.go) reports.
use dumpster.Prelude.{
  String, ◌≡◌, ◌≢◌, ◌↔◌, refl, ◌⊎◌, inl, inr, Bool, true, false, List, [], ◌∷◌, Memᴰ, map, arith,
  str_eq_iff, str_eq, ◌∙◌, sym, ap,
}
use mathlib.Core.List.{Sublistᴰ}
use dumpster.Prelude.Tests.{Bool-cases}
use dumpster.Prelude.Eq.{string_eq}
use dumpster.Prelude.Map.{Map, lookup, insert, lookup-insert}
use dumpster.Prelude.Map.Iterate.{mem_of_append_if, mem_append_if_tail}
use dumpster.Queue.Types.{JobType, region_classification, JobStatus}
use dumpster.Queue.Stage.{
  DisplayStage, stage_for, stages_for_document, present_keys, holds, keys_present,
  active_stage_keys, stage_key_complete, phase_embedding,
}

abbrev pub key_of_job : JobStatus → String
key_of_job job = (stage_for job.job_type job.phase).key

-- Some active job shows as the stage `key`.
abbrev pub Shows : String → List JobStatus → Type 0
Shows key jobs = Memᴰ key (map key_of_job jobs)

holds-insert :
    (k j : String) (m : Map String Bool)
    → holds (lookup j (insert k true m)) ≡ true
    → (k ≡ j) ⊎ (holds (lookup j m) ≡ true)
unfolding holds
holds-insert k j m h = ground (arith, lookup-insert k j true m, str_eq_iff k j)

insert-holds :
    (k j : String) (m : Map String Bool)
    → (k ≡ j) ⊎ (holds (lookup j m) ≡ true)
    → holds (lookup j (insert k true m)) ≡ true
unfolding holds
insert-holds k j m h = ground (arith, lookup-insert k j true m, str_eq_iff k j)

present_keys_sound :
    (jobs : List JobStatus) (m : Map String Bool) (key : String)
    → holds (lookup key (present_keys jobs m)) ≡ true
    → Shows key jobs ⊎ (holds (lookup key m) ≡ true)
unfolding present_keys
present_keys_sound [] m key h = inr h
present_keys_sound (job ∷ jobs) m key h = elim (present_keys_sound jobs _ key h) [
  | inl later ↦ inl (Memᴰ.tail later)
  | inr now ↦ elim (holds-insert _ key m now) [
    | inl e ↦ inl (Memᴰ.head (sym e))
    | inr old ↦ inr old
  ]
]

present_keys_complete :
    (jobs : List JobStatus) (m : Map String Bool) (key : String)
    → Shows key jobs ⊎ (holds (lookup key m) ≡ true)
    → holds (lookup key (present_keys jobs m)) ≡ true
unfolding present_keys
present_keys_complete [] m key (inl h) = elim h [ ]
present_keys_complete [] m key (inr h) = h
present_keys_complete (job ∷ jobs) m key (inl (Memᴰ.head e)) =
    present_keys_complete jobs _ key (inr (insert-holds _ key m (inl (sym e))))
present_keys_complete (job ∷ jobs) m key (inl (Memᴰ.tail h)) =
    present_keys_complete jobs _ key (inl h)
present_keys_complete (job ∷ jobs) m key (inr h) =
    present_keys_complete jobs _ key (inr (insert-holds _ key m (inr h)))

abbrev pub stage_keys : List DisplayStage → List String
stage_keys = map (λ s. s.key)

keys_present_sound :
    (m : Map String Bool) (stages : List DisplayStage) (key : String)
    → Memᴰ key (keys_present m stages)
    → Memᴰ key (stage_keys stages) × (holds (lookup key m) ≡ true)
unfolding keys_present
keys_present_sound m [] key h = elim h [ ]
keys_present_sound m (s ∷ stages) key h = elim (mem_of_append_if (holds (lookup s.key m)) h) [
  | inl (e, t) ↦ (Memᴰ.head e, rw e t)
  | inr later ↦ let (a, b) = keys_present_sound m stages key later in (Memᴰ.tail a, b)
]

keys_present_complete :
    (m : Map String Bool) (stages : List DisplayStage) (key : String)
    → Memᴰ key (stage_keys stages)
    → holds (lookup key m) ≡ true
    → Memᴰ key (keys_present m stages)
unfolding keys_present
keys_present_complete m [] key h t = elim h [ ]
keys_present_complete m (s ∷ stages) key (Memᴰ.head e) t =
    rw (ap (λ (k : String). holds (lookup k m)) (sym e) ∙ t) (Memᴰ.head e)
keys_present_complete m (s ∷ stages) key (Memᴰ.tail h) t =
    mem_append_if_tail (holds (lookup s.key m)) s.key (keys_present_complete m stages key h t)

abbrev nothing : Map String Bool
nothing = []

holds_empty : (key : String) → holds (lookup key nothing) ≢ true
unfolding holds lookup
holds_empty key h = cc

module _ (has_region : Bool) (jobs : List JobStatus) where
  -- A key is reported exactly if the document passes through that stage and an active job shows as it.
  pub active_stage_keys-mem_iff :
      (key : String)
      → Memᴰ key (active_stage_keys has_region jobs)
        ↔ Memᴰ key (stage_keys (stages_for_document has_region)) × Shows key jobs
  unfolding active_stage_keys
  active_stage_keys-mem_iff key = (
    to,
    λ (a, b).
        keys_present_complete (present_keys jobs []) (stages_for_document has_region) key a
          (present_keys_complete jobs [] key (inl b)),
  )
    where
      to :
          Memᴰ key (active_stage_keys has_region jobs)
          → Memᴰ key (stage_keys (stages_for_document has_region)) × Shows key jobs
      to h =
          let (a, b) =
            keys_present_sound (present_keys jobs []) (stages_for_document has_region) key h in
          (
            a,
            elim (present_keys_sound jobs [] key b) [
              | inl shows ↦ shows
              | inr old ↦ absurd (holds_empty key old)
            ],
          )

-- Distinct literals.
apart : (a b : String) → str_eq a b ≡ false → a ≢ b
apart a b t h = cc (t, (str_eq_iff a b).1 h)

stage_for-ne_complete :
    (t : JobType) (phase : String) → (stage_for t phase).key ≢ stage_key_complete
unfolding stage_for
stage_for-ne_complete region_classification phase =
    elim (Bool-cases (str_eq phase phase_embedding)) [
      | inl e ↦ rw e (apart "embedding" "complete" refl)
      | inr e ↦ rw e (apart "analyzing" "complete" refl)
    ]
stage_for-ne_complete _ phase = apart _ _ refl

Shows-ne_complete : (jobs : List JobStatus) → ¬ Shows stage_key_complete jobs
Shows-ne_complete [] h = elim h [ ]
Shows-ne_complete (job ∷ jobs) (Memᴰ.head e) = stage_for-ne_complete job.job_type job.phase (sym e)
Shows-ne_complete (job ∷ jobs) (Memᴰ.tail h) = Shows-ne_complete jobs h

-- Whatever jobs are active, the final stage is not among the active ones.
pub active_stage_keys_not_complete :
    (has_region : Bool) (jobs : List JobStatus)
    → ¬ Memᴰ stage_key_complete (active_stage_keys has_region jobs)
active_stage_keys_not_complete has_region jobs h =
    Shows-ne_complete jobs ((active_stage_keys-mem_iff has_region jobs stage_key_complete).0 h).1

keys_present-Sublistᴰ :
    (m : Map String Bool) (stages : List DisplayStage)
    → Sublistᴰ (keys_present m stages) (stage_keys stages)
unfolding keys_present
keys_present-Sublistᴰ m [] = Sublistᴰ.slnil
keys_present-Sublistᴰ m (s ∷ stages) = elim (Bool-cases (holds (lookup s.key m))) [
  | inl t ↦ rw t (Sublistᴰ.cons-cons refl (keys_present-Sublistᴰ m stages))
  | inr t ↦ rw t (Sublistᴰ.cons (keys_present-Sublistᴰ m stages))
]

-- The keys come in the order of the document's stages, each at most once.
active_stage_keys-Sublistᴰ :
    (has_region : Bool) (jobs : List JobStatus)
    → Sublistᴰ (active_stage_keys has_region jobs) (stage_keys (stages_for_document has_region))
unfolding active_stage_keys
active_stage_keys-Sublistᴰ has_region jobs =
    keys_present-Sublistᴰ (present_keys jobs []) (stages_for_document has_region)
