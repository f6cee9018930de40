-- ===== src/JobStatus/Memory/Refines.antt =====
-- The in-memory store keeps the contract of `JobStatus.Contract`.
use dumpster.Prelude.{
  ℕ, ◌+◌, ◌≤◌, String, ◌≡◌, refl, inl, inr, Option, none, some, arith, ◌&&◌, sym, ap, ◌∙◌, ◌≢◌,
}
use dumpster.Prelude.Tests.{if◌then◌else◌, nat_beq, nat_beq_iff, beq_ne, Bool-cases, Option-cases}
use native.Mathlib.Decide.{ℕ_discrete}
use dumpster.Prelude.Eq.{◌==◌}
use dumpster.Prelude.Map.{Distinct, lookup, insert, lookup-insert}
use dumpster.JobStatus
use dumpster.JobStatus.{
  not_found, Status, succeeded, failed, processing, Key, key_eq, key_beq, key_beq_iff, Record,
  transition,
}
use dumpster.JobStatus.Lifecycle.{transition_keeps, transition_refused}
use dumpster.JobStatus.Contract
use dumpster.JobStatus.Contract.{ok, err, IsAtomic, EnqueueOutcome, MoveOutcome}
use dumpster.JobStatus.Memory.{
  RowKey, row_key_eq, row_key_beq, row_key_beq_iff, Row, Store, own, found, get, enqueue,
  enqueue_row, apply_enqueue, move, move_row, mark_processing, set_phase, mark_succeeded,
  mark_failed, key_of,
}

record_of : Option Row → Option Record
record_of none = none
record_of (some r) = some r.rec

-- The record that `key`'s tenant can see.
pub view : Store → Key → Option Record
unfolding own record_of
view s key = record_of (own key (lookup (key_of key) s.rows))

-- Each row stands under its own record's key, at most once, and was enqueued no later than now.
pub record IsValid (s : Store) : Type 0 where
  pub distinct : Distinct s.rows
  pub keyed : (k : RowKey) (r : Row) → lookup k s.rows ≡ some r → key_of r.rec.key ≡ k
  pub stamped : (k : RowKey) (r : Row) → lookup k s.rows ≡ some r → r.seq ≤ s.seq

-- Rows of `user` alone: no row, or one of theirs.
abbrev Owned : ℕ → Option Row → Type 0
Owned user none = Unit
Owned user (some r) = r.rec.key.user_id ≡ user

key_split :
    (a b : Key) → (key_beq a b ≡ (nat_beq a.user_id b.user_id && row_key_beq (key_of a) (key_of b)))
unfolding key_beq row_key_beq
key_split a b = refl

own_written :
    (key k : Key) (r : Row) (old : Option Row)
    → r.rec.key.user_id ≡ key.user_id
    → Owned key.user_id old
    → record_of (own k (some r))
      ≡ (if nat_beq key.user_id k.user_id then some r.rec else record_of (own k old))
unfolding own record_of
own_written key k r none u o = ground arith
own_written key k r (some q) u o = ground arith

-- A write of a row of the key's own tenant is seen at that key and nowhere else.
view-insert :
    (key : Key) (r : Row) (s : Store) (n : ℕ)
    → r.rec.key.user_id ≡ key.user_id
    → Owned key.user_id (lookup (key_of key) s.rows)
    → (k : Key)
    → view (record { rows = insert (key_of key) r s.rows; seq = n }) k
      ≡ (if key == k then some r.rec else view s k)
unfolding view
view-insert key r s n u o k =
    rw (lookup-insert (key_of key) (key_of k) r s.rows, key_split key k)
      (elim (Bool-cases (row_key_beq (key_of key) (key_of k))) [
        | inl same ↦
            rw (same, ← (row_key_beq_iff (key_of key) (key_of k)).0 same)
              (own_written key k r (lookup (key_of key) s.rows) u o ∙ ground arith)
        | inr other ↦ rw other (ground arith)
      ])

view_of_row :
    (key : Key) (s : Store) (old : Option Row)
    → lookup (key_of key) s.rows ≡ old
    → view s key ≡ record_of (own key old)
unfolding view
view_of_row key s old e = rw e

-- A row of the key's own tenant is visible; another tenant's is not.
own_mine : (key : Key) (r : Row) → r.rec.key.user_id ≡ key.user_id → own key (some r) ≡ some r
unfolding own
own_mine key r u = ground arith

own_foreign : (key : Key) (r : Row) → r.rec.key.user_id ≢ key.user_id → own key (some r) ≡ none
unfolding own
own_foreign key r u = ground arith

-- Writing back the record that is there changes nothing.
view_again :
    (key : Key) (s : Store) (r : Record)
    → view s key ≡ some r
    → (k : Key) → view s k ≡ (if key == k then some r else view s k)
view_again key s r h k = elim (Bool-cases (key == k)) [
  | inl same ↦ rw same (rw (← (key_beq_iff key k).0 same) h)
  | inr other ↦ rw other refl
]

module _ (key : Key) (s : Store) where
  apply_enqueue-outcome_none :
      lookup (key_of key) s.rows ≡ none → EnqueueOutcome view key s (apply_enqueue key none s)
  unfolding apply_enqueue JobStatus.enqueue JobStatus.fresh record_of own
  apply_enqueue-outcome_none e =
      rw (view_of_row key s none e)
        (inl (refl, λ k. view-insert key _ s (s.seq + 1) refl (rw e tt) k))

  apply_enqueue-outcome_some :
      (r : Row)
      → lookup (key_of key) s.rows ≡ some r
      → r.rec.key.user_id ≡ key.user_id
      → EnqueueOutcome view key s (apply_enqueue key (some r.rec) s)
  unfolding apply_enqueue JobStatus.enqueue JobStatus.fresh record_of
  apply_enqueue-outcome_some r e u =
      let visible : view s key ≡ some r.rec =
        view_of_row key s (some r) e ∙ ap record_of (own_mine key r u) in
      elim (Bool-cases (JobStatus.active r.rec.status)) [
        | inl busy ↦ rw (visible, busy) (inl (refl, view_again key s r.rec visible))
        | inr over ↦
            rw (visible, over) (inl (refl, λ k. view-insert key _ s (s.seq + 1) u (rw e u) k))
      ]

enqueue_row-outcome :
    (key : Key) (s : Store) (old : Option Row)
    → lookup (key_of key) s.rows ≡ old
    → EnqueueOutcome view key s (enqueue_row key old s)
unfolding enqueue_row
enqueue_row-outcome key s none e = apply_enqueue-outcome_none key s e
enqueue_row-outcome key s (some r) e = elim (ℕ_discrete r.rec.key.user_id key.user_id) [
  | yes mine ↦ rw ((nat_beq_iff _ _).1 mine) (apply_enqueue-outcome_some key s r e mine)
  | no foreign ↦ rw (beq_ne _ _ foreign) (inr (not_found, refl, λ k. refl))
]

-- `Enqueue` of the in-memory store applies the rule atomically.
enqueue-outcome : (key : Key) (s : Store) → EnqueueOutcome view key s (enqueue key s)
unfolding enqueue
enqueue-outcome key s = enqueue_row-outcome key s (lookup (key_of key) s.rows) refl

module _ (key : Key) (attempt : ℕ) (to : Status) (phase reason : String) (s : Store) where
  move_row-outcome_some :
      (r : Row)
      → lookup (key_of key) s.rows ≡ some r
      → r.rec.key.user_id ≡ key.user_id
      → MoveOutcome view key attempt to phase reason s
          (move_row key attempt to phase reason (some r) s)
  unfolding move_row record_of
  move_row-outcome_some r e u =
      let visible : view s key ≡ some r.rec =
        view_of_row key s (some r) e ∙ ap record_of (own_mine key r u) in
      let keeps = transition_keeps r.rec attempt to phase reason in
      elim (Option-cases (transition r.rec attempt to phase reason).failure) [
        | inl fine ↦
            rw (fine, move_row)
              (inl (
                r.rec,
                visible,
                sym fine,
                view-insert key _ s s.seq (ap (λ (k : Key). k.user_id) keeps.0 ∙ u) (rw e u),
              ))
        | inr (x, bad) ↦
            let same = (transition_refused r.rec attempt to phase reason (λ h. cc (h, bad))).0 in
            rw (bad, move_row)
              (inl (r.rec, visible, sym bad, rw same (view_again key s r.rec visible)))
      ]

  move_row-outcome :
      (old : Option Row)
      → lookup (key_of key) s.rows ≡ old
      → MoveOutcome view key attempt to phase reason s
          (move_row key attempt to phase reason (own key old) s)
  unfolding move_row own record_of
  move_row-outcome none e = inr (inl (view_of_row key s none e, refl, λ k. refl))
  move_row-outcome (some r) e = elim (ℕ_discrete r.rec.key.user_id key.user_id) [
    | yes mine ↦ rw (own_mine key r mine) (move_row-outcome_some r e mine)
    | no foreign ↦ rw (own_foreign key r foreign) (
        inr (
          inl (
            view_of_row key s (some r) e ∙ ap record_of (own_foreign key r foreign),
            refl,
            λ k. refl,
          )))
  ]

  pub move-outcome :
      MoveOutcome view key attempt to phase reason s (move key attempt to phase reason s)
  unfolding move
  move-outcome = move_row-outcome (lookup (key_of key) s.rows) refl

found-record_of :
    (o : Option Row) → found o ≡ elim (record_of o) [ none ↦ err not_found | some r ↦ ok r ]
unfolding found record_of
found-record_of none = refl
found-record_of (some r) = refl

get-view :
    (key : Key) (s : Store) → get key s ≡ elim (view s key) [ none ↦ err not_found | some r ↦ ok r ]
unfolding get view
get-view key s = found-record_of (own key (lookup (key_of key) s.rows))

-- The store's methods as the interface.
unfoldable pub store : Contract.Store Store
store = record {
  get = get;
  enqueue = enqueue;
  mark_processing = mark_processing;
  set_phase = set_phase;
  mark_succeeded = mark_succeeded;
  mark_failed = mark_failed;
}

-- The in-memory store keeps the contract of `Writer` and `Getter`: `Get` returns the record at
-- the key, and every other method applies its rule to the record at its key and to no other, or
-- returns an error and changes nothing.
pub store-IsAtomic : IsAtomic store
unfolding store mark_processing set_phase mark_succeeded mark_failed
store-IsAtomic = record {
  view = view;
  get_lem = get-view;
  enqueue_lem = enqueue-outcome;
  mark_processing_lem = λ key attempt s. move-outcome key attempt processing "" "" s;
  set_phase_lem = λ key attempt phase s. move-outcome key attempt processing phase "" s;
  mark_succeeded_lem = λ key attempt s. move-outcome key attempt succeeded "" "" s;
  mark_failed_lem = λ key attempt reason s. move-outcome key attempt failed "" reason s;
}
