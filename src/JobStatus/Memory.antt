-- ===== src/JobStatus/Memory.antt =====
-- The in-memory store of job status: internal/jobstatus/memory/memory.go. Its mutex makes each
-- method one step.
pub mod Refines
use dumpster.Prelude.{
  ℕ, ◌+◌, String, ◌≡◌, refl, ◌↔◌, Bool, true, false, not, ◌&&◌, ◌||◌, Option, none, some, List, [],
  ◌∷◌, ◌++◌, arith,
}
use dumpster.Prelude.Tests.{if◌then◌else◌, nat_beq, nat_beq_iff, ltb}
use dumpster.Prelude.Eq.{Eq, ◌==◌, nat_eq}
use dumpster.Prelude.Map.{Map, lookup, insert}
use dumpster.Prelude.Map.Iterate.{values_where}
use dumpster.Prelude.Sort.{sort_by}
use dumpster.Queue.{Uuid, JobType, job_type_beq, job_type_beq_iff, JobStatus}
use dumpster.JobStatus
use dumpster.JobStatus.{
  Status, processing, succeeded, failed, Error, not_found, Key, Record, Enqueued, active,
  status_string, transition,
}
use dumpster.JobStatus.Contract.{Result, ok, err}

-- The primary key of the table: the user is checked apart.
pub record RowKey : Type 0 where
  pub document_id : Uuid
  pub job_type : JobType

unfoldable pub row_key_beq : RowKey → RowKey → Bool
row_key_beq a b = nat_beq a.document_id b.document_id && job_type_beq a.job_type b.job_type

pub row_key_beq_iff : (a b : RowKey) → (row_key_beq a b ≡ true) ↔ (a ≡ b)
unfolding row_key_beq
row_key_beq_iff a b = ground (arith, job_type_beq_iff a.job_type b.job_type)

instance abbrev pub row_key_eq : Eq RowKey
row_key_eq = record { same = row_key_beq; same_iff = row_key_beq_iff }

pub record Row : Type 0 where
  pub rec : Record
  pub seq : ℕ

pub record Store : Type 0 where
  pub rows : Map RowKey Row
  pub seq : ℕ

abbrev pub new : Store
new = record { rows = []; seq = 0 }

-- `keyOf`
abbrev pub key_of : Key → RowKey
key_of k = record { document_id = k.document_id; job_type = k.job_type }

-- The row that `key` names and its user owns: `!ok || r.rec.UserID != key.UserID` is `none`.
own : Key → Option Row → Option Row
own key none = none
own key (some r) = if not (nat_beq r.rec.key.user_id key.user_id) then none else some r

found : Option Row → Result Record
found none = err not_found
found (some r) = ok r.rec

-- `Store.Get`
pub get : Key → Store → Result Record
unfolding own found
get key s = found (own key (lookup (key_of key) s.rows))

-- The tail of `Enqueue`: the rule on the current record, and a write if a run starts.
apply_enqueue : Key → Option Record → Store → Result Enqueued × Store
apply_enqueue key cur s =
    let (next, res) = JobStatus.enqueue cur key in
    if res.started
    then (
      ok res,
      record s {
        rows = insert (key_of key) (record { rec = next; seq = s.seq + 1 }) s.rows;
        seq = s.seq + 1;
      },
    )
    else (ok res, s)

enqueue_row : Key → Option Row → Store → Result Enqueued × Store
enqueue_row key none s = apply_enqueue key none s
enqueue_row key (some r) s =
    if not (nat_beq r.rec.key.user_id key.user_id)
    then (err not_found, s)
    else apply_enqueue key (some r.rec) s

-- `Store.Enqueue`
pub enqueue : Key → Store → Result Enqueued × Store
unfolding enqueue_row apply_enqueue
enqueue key s = enqueue_row key (lookup (key_of key) s.rows) s

move_row : Key → ℕ → Status → String → String → Option Row → Store → Option Error × Store
move_row key attempt to phase reason none s = (some not_found, s)
move_row key attempt to phase reason (some r) s =
    let m = JobStatus.transition r.rec attempt to phase reason in
    elim m.failure [
      | some e ↦ (some e, s)
      | none ↦ (none, record s { rows = insert (key_of key) (record r { rec = m.next }) s.rows })
    ]

-- `Store.transition`
pub move : Key → ℕ → Status → String → String → Store → Option Error × Store
unfolding move_row own
move key attempt to phase reason s =
    move_row key attempt to phase reason (own key (lookup (key_of key) s.rows)) s

pub mark_processing : Key → ℕ → Store → Option Error × Store
mark_processing key attempt = move key attempt processing "" ""

pub set_phase : Key → ℕ → String → Store → Option Error × Store
set_phase key attempt phase = move key attempt processing phase ""

pub mark_succeeded : Key → ℕ → Store → Option Error × Store
mark_succeeded key attempt = move key attempt succeeded "" ""

pub mark_failed : Key → ℕ → String → Store → Option Error × Store
mark_failed key attempt reason = move key attempt failed "" reason

-- `wanted[id]`
wanted : Uuid → List Uuid → Bool
wanted id [] = false
wanted id (x ∷ xs) = nat_beq x id || wanted id xs

-- The rows that the first loop of `ActiveJobsForDocuments` keeps.
matches : Uuid → List Uuid → Row → Bool
unfolding wanted active
matches user document_ids r =
    nat_beq r.rec.key.user_id user
    && (wanted r.rec.key.document_id document_ids && active r.rec.status)

display : Row → JobStatus
unfolding status_string
display r = record {
  job_type = r.rec.key.job_type;
  phase = r.rec.phase;
  status = status_string r.rec.status;
  last_error = r.rec.last_error;
}

abbrev pub or_nil {ℓ} : {A : Type ℓ} → Option (List A) → List A
or_nil none = []
or_nil (some xs) = xs

-- The second loop: each row is appended to its document's list.
group : Map Uuid (List JobStatus) → List Row → Map Uuid (List JobStatus)
unfolding display
group out [] = out
group out (r ∷ rs) =
    group
      (insert r.rec.key.document_id (or_nil (lookup r.rec.key.document_id out) ++ display r ∷ [])
        out)
      rs

-- `Store.ActiveJobsForDocuments`
pub active_jobs_for_documents : Uuid → List Uuid → Store → Map Uuid (List JobStatus)
unfolding group matches
active_jobs_for_documents user document_ids s =
    group [] (sort_by (λ a b. ltb a.seq b.seq) (values_where (matches user document_ids) s.rows))
