-- ===== src/JobStatus.antt =====
-- The state rules of a document's background jobs: internal/jobstatus/jobstatus.go.
-- `Enqueue` and `Transition` are pure functions there, and every store applies them.
pub mod Lifecycle
pub mod Contract
pub mod Memory
use dumpster.Prelude.{
  ℕ, ◌+◌, String, ◌≡◌, refl, ◌↔◌, Bool, true, false, not, ◌&&◌, Option, none, some, str_eq,
  str_eq_iff, arith,
}
use dumpster.Prelude.Tests.{if◌then◌else◌, nat_beq, nat_beq_iff}
use dumpster.Prelude.Eq.{Eq, ◌==◌, string_eq, nat_eq}
use dumpster.Queue.{Uuid, JobType, job_type_eq, job_type_beq, job_type_beq_iff}

-- Go's `Status` is a string; `other` holds the strings that no constant names.
pub data Status : Type 0 where
  pending processing succeeded failed : Status
  other : String → Status

-- `s == t`
abbrev pub status_beq : Status → Status → Bool
status_beq pending pending = true
status_beq processing processing = true
status_beq succeeded succeeded = true
status_beq failed failed = true
status_beq (other a) (other b) = str_eq a b
status_beq _ _ = false

pub status_beq_iff : (a b : Status) → (status_beq a b ≡ true) ↔ (a ≡ b)
status_beq_iff (other a) (other b) = ground (arith, str_eq_iff a b)
status_beq_iff _ _ = ground arith

instance abbrev pub status_eq : Eq Status
status_eq = record { same = status_beq; same_iff = status_beq_iff }

-- `string(s)`
unfoldable pub status_string : Status → String
status_string pending = "pending"
status_string processing = "processing"
status_string succeeded = "succeeded"
status_string failed = "failed"
status_string (other s) = s

-- `Status.Active`
unfoldable pub active : Status → Bool
active pending = true
active processing = true
active _ = false

-- The package's errors, with what their messages carry. `other` is an error of a store's own, such
-- as a lost database connection.
pub data Error : Type 0 where
  not_found : Error
  attempt_superseded : ℕ → ℕ → Error
  not_active : Status → Status → Error
  invalid_transition : Status → Error
  other : String → Error

pub record Key : Type 0 where
  pub user_id : Uuid
  pub document_id : Uuid
  pub job_type : JobType

unfoldable pub key_beq : Key → Key → Bool
key_beq a b =
    nat_beq a.user_id b.user_id
    && (nat_beq a.document_id b.document_id && job_type_beq a.job_type b.job_type)

pub key_beq_iff : (a b : Key) → (key_beq a b ≡ true) ↔ (a ≡ b)
unfolding key_beq
key_beq_iff a b = ground (arith, job_type_beq_iff a.job_type b.job_type)

instance abbrev pub key_eq : Eq Key
key_eq = record { same = key_beq; same_iff = key_beq_iff }

-- `attempt` counts the runs of one job, and is left unbounded.
pub record Record : Type 0 where
  pub key : Key
  pub status : Status
  pub phase : String
  pub attempt : ℕ
  pub last_error : String

-- `a == b` on whole records
unfoldable pub record_beq : Record → Record → Bool
record_beq a b =
    key_beq a.key b.key
    && (status_beq a.status b.status
        && (str_eq a.phase b.phase
            && (nat_beq a.attempt b.attempt && str_eq a.last_error b.last_error)))

pub record Enqueued : Type 0 where
  pub attempt : ℕ
  pub started : Bool

-- A record for `key` in its first or next attempt: the other fields have Go's zero values.
unfoldable pub fresh : Key → ℕ → Record
fresh key attempt = record {
  key = key;
  status = pending;
  phase = "";
  attempt = attempt;
  last_error = "";
}

-- `Enqueue`
unfoldable pub enqueue : Option Record → Key → Record × Enqueued
unfolding active fresh
enqueue none key = (fresh key 1, record { attempt = 1; started = true })
enqueue (some cur) key =
    if active cur.status
    then (cur, record { attempt = cur.attempt; started = false })
    else (fresh cur.key (cur.attempt + 1), record { attempt = cur.attempt + 1; started = true })

-- The targets that the first `switch` of `Transition` lets through.
unfoldable pub is_target : Status → Bool
is_target processing = true
is_target succeeded = true
is_target failed = true
is_target _ = false

-- The second `switch`, on a record whose status is already `to`.
unfoldable pub apply_move : Record → Status → String → String → Record
apply_move next processing phase reason =
    if str_eq phase "" then next else record next { phase = phase }
apply_move next succeeded phase reason = record next { phase = ""; last_error = "" }
apply_move next failed phase reason = record next { last_error = reason }
apply_move next _ phase reason = next

-- `next`, `changed` and `err`
pub record Moved : Type 0 where
  pub next : Record
  pub changed : Bool
  pub failure : Option Error

-- `Transition`
unfoldable pub transition : Record → ℕ → Status → String → String → Moved
unfolding active is_target apply_move
transition cur attempt to phase reason =
    if not (nat_beq attempt cur.attempt)
    then stay (some (attempt_superseded attempt cur.attempt))
    else if not (is_target to)
    then stay (some (invalid_transition to))
    else if not (active cur.status)
    then (if status_beq cur.status to then stay none else stay (some (not_active cur.status to)))
    else record { next = next; changed = not (record_beq next cur); failure = none }
  where
    stay : Option Error → Moved
    stay e = record { next = cur; changed = false; failure = e }

    next : Record
    next = apply_move (record cur { status = to }) to phase reason
