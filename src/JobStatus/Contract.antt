-- ===== src/JobStatus/Contract.antt =====
-- The contract of `Writer` and `Getter` in internal/jobstatus/jobstatus.go: every store applies
-- `Enqueue` and `Transition` atomically per key. Clients take a store as a parameter.
pub mod Attempts
use dumpster.Prelude.{ℕ, String, ◌≡◌, ◌⊎◌, Option, none, some}
use dumpster.Prelude.Tests.{if◌then◌else◌}
use dumpster.Prelude.Eq.{◌==◌}
use dumpster.JobStatus.{
  Status, processing, succeeded, failed, Error, not_found, other, Key, key_eq, Record, Enqueued,
  enqueue, transition,
}

-- `(T, error)`
pub data Result {ℓ} (A : Type ℓ) : Type ℓ where
  ok : A → Result A
  err : Error → Result A

-- The methods, over the store's state. `error` is `Option Error`.
pub record Store (S : Type 0) : Type 0 where
  pub get : Key → S → Result Record
  pub enqueue : Key → S → Result Enqueued × S
  pub mark_processing : Key → ℕ → S → Option Error × S
  pub set_phase : Key → ℕ → String → S → Option Error × S
  pub mark_succeeded : Key → ℕ → S → Option Error × S
  pub mark_failed : Key → ℕ → String → S → Option Error × S

module _ {S : Type 0} (view : S → Key → Option Record) where
  -- Only the record at `key` is written, and it becomes `r`.
  abbrev pub Writes : Key → Option Record → S → S → Type 0
  Writes key r s t = (k : Key) → view t k ≡ (if key == k then r else view s k)

  abbrev pub Unchanged : S → S → Type 0
  Unchanged s t = (k : Key) → view t k ≡ view s k

  -- An enqueue applies the rule, or returns an error and changes nothing.
  abbrev pub EnqueueOutcome : Key → S → Result Enqueued × S → Type 0
  EnqueueOutcome key s (r, t) =
      ((r ≡ ok (enqueue (view s key) key).1) × Writes key (some (enqueue (view s key) key).0) s t)
      ⊎ ((e : Error) × (r ≡ err e) × Unchanged s t)

  -- A move applies the rule to the record at `key`; without one it is `ErrNotFound`; and a store may
  -- fail on its own, changing nothing.
  abbrev pub MoveOutcome : Key → ℕ → Status → String → String → S → Option Error × S → Type 0
  MoveOutcome key attempt to phase reason s (e, t) =
      ((r : Record) × (view s key ≡ some r)
        × (e ≡ (transition r attempt to phase reason).failure)
        × Writes key (some (transition r attempt to phase reason).next) s t)
      ⊎ ((view s key ≡ none) × (e ≡ some not_found) × Unchanged s t)
      ⊎ ((m : String) × (e ≡ some (other m)) × Unchanged s t)

-- What the interface's comments promise. `view` is what `Get` would return.
pub record IsAtomic {S : Type 0} (w : Store S) : Type 0 where
  pub view : S → Key → Option Record
  pub get_lem :
      (key : Key) (s : S) → w.get key s ≡ elim (view s key) [ none ↦ err not_found | some r ↦ ok r ]
  pub enqueue_lem : (key : Key) (s : S) → EnqueueOutcome view key s (w.enqueue key s)
  pub mark_processing_lem :
      (key : Key) (attempt : ℕ) (s : S)
      → MoveOutcome view key attempt processing "" "" s (w.mark_processing key attempt s)
  pub set_phase_lem :
      (key : Key) (attempt : ℕ) (phase : String) (s : S)
      → MoveOutcome view key attempt processing phase "" s (w.set_phase key attempt phase s)
  pub mark_succeeded_lem :
      (key : Key) (attempt : ℕ) (s : S)
      → MoveOutcome view key attempt succeeded "" "" s (w.mark_succeeded key attempt s)
  pub mark_failed_lem :
      (key : Key) (attempt : ℕ) (reason : String) (s : S)
      → MoveOutcome view key attempt failed "" reason s (w.mark_failed key attempt reason s)
