-- ===== src/JobStatus/Lifecycle.antt =====
-- What `Enqueue` and `Transition` (internal/jobstatus/jobstatus.go) do to one record.
use dumpster.Prelude.{
  ℕ, ◌≤◌, String, ◌≡◌, ◌↔◌, ◌⊎◌, ◌≢◌, Bool, true, false, none, some, str_eq_iff, arith,
}
use dumpster.JobStatus.{
  Status, pending, processing, succeeded, failed, other, status_beq_iff, Key, key_beq_iff, Record,
  record_beq, active, is_target, apply_move, transition, enqueue,
}

pub record_beq_iff : (a b : Record) → (record_beq a b ≡ true) ↔ (a ≡ b)
unfolding record_beq
record_beq_iff a b = ground (
  arith,
  key_beq_iff a.key b.key,
  status_beq_iff a.status b.status,
  str_eq_iff a.phase b.phase,
  str_eq_iff a.last_error b.last_error,
)

-- When a caller may report on a record: its attempt is the current one, the target is one of the
-- three that a job can be moved to, and the job still runs or has already ended that way.
abbrev pub Accepts : Record → ℕ → Status → Type 0
Accepts cur attempt to =
    (attempt ≡ cur.attempt)
    × ((to ≡ processing) ⊎ (to ≡ succeeded) ⊎ (to ≡ failed))
    × ((cur.status ≡ pending) ⊎ (cur.status ≡ processing) ⊎ (cur.status ≡ to))

is_target_iff :
    (s : Status) → (is_target s ≡ true) ↔ ((s ≡ processing) ⊎ (s ≡ succeeded) ⊎ (s ≡ failed))
unfolding is_target
is_target_iff s = ground arith

active_iff : (s : Status) → (active s ≡ true) ↔ ((s ≡ pending) ⊎ (s ≡ processing))
unfolding active
active_iff s = ground arith

module _ (cur : Record) (attempt : ℕ) (to : Status) (phase reason : String) where
  -- `Transition` returns no error exactly if the attempt is the current one, the target is
  -- processing, succeeded or failed, and the job is pending or processing, or already has the target's
  -- status.
  pub transition-Accepts_iff :
      ((transition cur attempt to phase reason).failure ≡ none) ↔ Accepts cur attempt to
  unfolding transition
  transition-Accepts_iff = (
    λ h. ground (arith, h, status_beq_iff cur.status to, is_target_iff to, active_iff cur.status),
    λ h. ground (arith, h, status_beq_iff cur.status to, is_target_iff to, active_iff cur.status),
  )

  -- A refused move leaves the record as it was and reports no change.
  pub transition_refused :
      (transition cur attempt to phase reason).failure ≢ none
      → ((transition cur attempt to phase reason).next ≡ cur)
        × ((transition cur attempt to phase reason).changed ≡ false)
  unfolding transition
  transition_refused h = ground (arith, status_beq_iff cur.status to)

  -- `changed` is false exactly if the new record is the old one.
  transition-changed_iff :
      ((transition cur attempt to phase reason).changed ≡ false)
      ↔ ((transition cur attempt to phase reason).next ≡ cur)
  unfolding transition
  transition-changed_iff = (λ h. ground (arith, same_iff), λ h. ground (arith, same_iff))
    where
      same_iff :
          (record_beq (apply_move (record cur { status = to }) to phase reason) cur ≡ true)
          ↔ (apply_move (record cur { status = to }) to phase reason ≡ cur)
      same_iff = record_beq_iff (apply_move (record cur { status = to }) to phase reason) cur

  -- Once a move to a status that is not active has been accepted, a second one by the same
  -- attempt is accepted too and changes nothing, whatever its phase and reason.
  pub transition_twice :
      (phase' reason' : String)
      → active to ≡ false
      → (transition cur attempt to phase reason).failure ≡ none
      → transition (transition cur attempt to phase reason).next attempt to phase' reason'
        ≡ record {
          next = (transition cur attempt to phase reason).next;
          changed = false;
          failure = none;
        }
  unfolding transition
  transition_twice phase' reason' fin h =
      ground (arith, status_beq_iff cur.status to, status_beq_iff to to)

  -- A move keeps the job's key and attempt, whether it is accepted or not.
  pub transition_keeps :
      ((transition cur attempt to phase reason).next.key ≡ cur.key)
      × ((transition cur attempt to phase reason).next.attempt ≡ cur.attempt)
  unfolding transition
  transition_keeps = ground arith

pub is_known : Status → Bool
is_known (other s) = false
is_known _ = true

-- What holds of every record that the rules produce.
pub record IsValid (r : Record) : Type 0 where
  pub attempt_positive : 1 ≤ r.attempt
  pub status_known : is_known r.status ≡ true
  pub pending_clear : r.status ≡ pending → r.phase ≡ ""
  pub active_clear : active r.status ≡ true → r.last_error ≡ ""
  pub succeeded_clear : r.status ≡ succeeded → (r.phase ≡ "") × (r.last_error ≡ "")

pub enqueue-IsValid-none : (key : Key) → IsValid (enqueue none key).0
unfolding enqueue is_known
enqueue-IsValid-none key = ground arith

pub enqueue-IsValid-some :
    (cur : Record) (key : Key) → IsValid cur → IsValid (enqueue (some cur) key).0
unfolding enqueue is_known
enqueue-IsValid-some cur key h = ground arith

-- A move keeps a valid record valid: its attempt is positive, its status is one of the four, a pending
-- record has no phase, an active one no error, and a succeeded one neither.
pub transition-IsValid :
    (cur : Record) (attempt : ℕ) (to : Status) (phase reason : String)
    → IsValid cur
    → IsValid (transition cur attempt to phase reason).next
unfolding transition is_known
transition-IsValid cur attempt to phase reason h = ground (arith, status_beq_iff cur.status to)
