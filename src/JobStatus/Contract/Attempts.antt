-- ===== src/JobStatus/Contract/Attempts.antt =====
-- What every store that keeps the contract of internal/jobstatus/jobstatus.go guarantees over any
-- sequence of calls, by any callers, on any keys.
use dumpster.Prelude.{
  ℕ, suc, ◌+◌, String, ◌≡◌, ◌≢◌, refl, sym, ap, ◌∙◌, subst, ◌⊎◌, inl, inr, true, false, Option,
  none, some, List, [], ◌∷◌, arith,
}
use dumpster.Prelude.Tests.{if◌then◌else◌, Bool-cases}
use dumpster.Prelude.Lists.{length}
use dumpster.Prelude.Eq.{◌==◌, ==_refl}
use dumpster.JobStatus
use dumpster.JobStatus.{Key, key_eq, key_beq_iff, Record, Enqueued, Error, Status}
use dumpster.JobStatus.Lifecycle.{transition_keeps}
use dumpster.JobStatus.Contract.{
  Store, Result, ok, err, IsAtomic, Writes, MoveOutcome, EnqueueOutcome,
}

-- One call of a `Writer`.
pub data Call : Type 0 where
  enqueue : Key → Call
  mark_processing : Key → ℕ → Call
  set_phase : Key → ℕ → String → Call
  mark_succeeded : Key → ℕ → Call
  mark_failed : Key → ℕ → String → Call

abbrev pub key_of_call : Call → Key
key_of_call (enqueue k) = k
key_of_call (mark_processing k _) = k
key_of_call (set_phase k _ _) = k
key_of_call (mark_succeeded k _) = k
key_of_call (mark_failed k _ _) = k

-- The attempt whose run the caller must now start, if any.
abbrev started_by : Result Enqueued → Option ℕ
started_by (ok q) = if q.started then some q.attempt else none
started_by (err e) = none

-- The current attempt of a record, 0 before the first.
abbrev pub attempt_of : Option Record → ℕ
attempt_of none = 0
attempt_of (some r) = r.attempt

abbrev cons_if {ℓ} : {A : Type ℓ} → Option A → List A → List A
cons_if none xs = xs
cons_if (some x) xs = x ∷ xs

abbrev pub count_up : ℕ → ℕ → List ℕ
count_up n Prim.Native.Nat.zero = []
count_up n (suc k) = (n + 1) ∷ count_up (n + 1) k

count_up-cons_if :
    (n m : ℕ) (a : Option ℕ) (rest : List ℕ)
    → rest ≡ count_up m (length rest)
    → ((a ≡ none) × (m ≡ n)) ⊎ ((a ≡ some (n + 1)) × (m ≡ n + 1))
    → cons_if a rest ≡ count_up n (length (cons_if a rest))
count_up-cons_if n m a rest ih (inl (e, k)) = rw e (rw (← k) ih)
count_up-cons_if n m a rest ih (inr (e, k)) =
    rw e (ap (◌∷◌ (n + 1)) (subst (λ i. rest ≡ count_up i (length rest)) k ih))

module _ {S : Type 0} (w : Store S) where
  -- A call, with the attempt that it starts and the state that it leaves.
  pub call : Call → S → Option ℕ × S
  call (enqueue k) s = (started_by (w.enqueue k s).0, (w.enqueue k s).1)
  call (mark_processing k a) s = (none, (w.mark_processing k a s).1)
  call (set_phase k a p) s = (none, (w.set_phase k a p s).1)
  call (mark_succeeded k a) s = (none, (w.mark_succeeded k a s).1)
  call (mark_failed k a r) s = (none, (w.mark_failed k a r s).1)

  -- The attempts of `key` whose runs a sequence of calls starts, in order.
  pub starts : Key → S → List Call → List ℕ
  starts key s [] = []
  starts key s (c ∷ cs) =
      let rest = starts key (call c s).1 cs in
      if key_of_call c == key then cons_if (call c s).0 rest else rest

module _ {S : Type 0} (view : S → Key → Option Record) where
  -- What one call may do to the attempt of `key`.
  abbrev Advance : Key → S → Option ℕ × S → Type 0
  Advance key s (a, t) =
      ((a ≡ none) × (attempt_of (view t key) ≡ attempt_of (view s key)))
      ⊎ ((a ≡ some (attempt_of (view s key) + 1))
          × (attempt_of (view t key) ≡ attempt_of (view s key) + 1))

  attempt-Writes :
      (key j : Key) (r : Record) (s t : S)
      → Writes view key (some r) s t
      → r.attempt ≡ attempt_of (view s key)
      → attempt_of (view t j) ≡ attempt_of (view s j)
  attempt-Writes key j r s t h same = elim (Bool-cases (key == j)) [
    | inl eq ↦ rw (h j, eq) (rw (← (key_beq_iff key j).0 eq) same)
    | inr ne ↦ rw (h j, ne) refl
  ]

  attempt-move :
      (key j : Key) (n : ℕ) (to : Status) (phase reason : String) (s : S) (o : Option Error × S)
      → MoveOutcome view key n to phase reason s o
      → attempt_of (view o.1 j) ≡ attempt_of (view s j)
  attempt-move key j n to phase reason s o (inl (r, there, e, h)) =
      attempt-Writes key j (JobStatus.transition r n to phase reason).next s o.1 h
        ((transition_keeps r n to phase reason).1 ∙ ap attempt_of (sym there))
  attempt-move key j n to phase reason s o (inr (inl (gone, e, h))) = ap attempt_of (h j)
  attempt-move key j n to phase reason s o (inr (inr (m, e, h))) = ap attempt_of (h j)

  enqueue_rule :
      (key : Key) (cur : Option Record)
      → let (r, q) = JobStatus.enqueue cur key in
        ((q.started ≡ false) × (r.attempt ≡ attempt_of cur))
        ⊎ ((q.started ≡ true) × (q.attempt ≡ attempt_of cur + 1) × (r.attempt ≡ attempt_of cur + 1))
  unfolding JobStatus.enqueue JobStatus.fresh
  enqueue_rule key none = inr (refl, refl, refl)
  enqueue_rule key (some r) = ground arith

  attempt-enqueue :
      (key : Key) (s : S) (o : Result Enqueued × S)
      → EnqueueOutcome view key s o
      → Advance key s (started_by o.0, o.1)
  attempt-enqueue key s o (inl (e, h)) = rw e (elim (enqueue_rule key (view s key)) [
    | inl (idle, kept) ↦ inl (rw idle refl, written ∙ kept)
    | inr (run, n, m) ↦ inr (rw run (ap some n), written ∙ m)
  ])
    where
      written : attempt_of (view o.1 key) ≡ (JobStatus.enqueue (view s key) key).0.attempt
      written = rw (h key, ==_refl key) refl
  attempt-enqueue key s o (inr (x, e, h)) = inl (rw e refl, ap attempt_of (h key))

  -- A write at one key leaves the records of the others.
  Writes-ne :
      (key j : Key) (r : Option Record) (s t : S)
      → Writes view key r s t
      → key ≢ j
      → view t j ≡ view s j
  Writes-ne key j r s t h ne = elim (Bool-cases (key == j)) [
    | inl eq ↦ absurd (ne ((key_beq_iff key j).0 eq))
    | inr other ↦ h j ∙ rw other refl
  ]

  move_ne :
      (key j : Key) (n : ℕ) (to : Status) (phase reason : String) (s : S) (o : Option Error × S)
      → MoveOutcome view key n to phase reason s o
      → key ≢ j
      → view o.1 j ≡ view s j
  move_ne key j n to phase reason s o (inl (r, there, e, h)) ne = Writes-ne key j _ s o.1 h ne
  move_ne key j n to phase reason s o (inr (inl (gone, e, h))) ne = h j
  move_ne key j n to phase reason s o (inr (inr (m, e, h))) ne = h j

  enqueue_ne :
      (key j : Key) (s : S) (o : Result Enqueued × S)
      → EnqueueOutcome view key s o
      → key ≢ j
      → view o.1 j ≡ view s j
  enqueue_ne key j s o (inl (e, h)) ne = Writes-ne key j _ s o.1 h ne
  enqueue_ne key j s o (inr (x, e, h)) ne = h j

module _ {S : Type 0} (w : Store S) (atomic : IsAtomic w) where
  open atomic use {
    view, enqueue_lem, mark_processing_lem, set_phase_lem, mark_succeeded_lem, mark_failed_lem,
  }

  -- With any store that keeps its contract, a call changes no record but that of its own key, of
  -- which the user is a part.
  call_frame : (c : Call) (j : Key) (s : S) → key_of_call c ≢ j → view (call w c s).1 j ≡ view s j
  unfolding call
  call_frame (enqueue k) j s ne = enqueue_ne view k j s (w.enqueue k s) (enqueue_lem k s) ne
  call_frame (mark_processing k a) j s ne =
      move_ne view k j _ _ _ _ s _ (mark_processing_lem k a s) ne
  call_frame (set_phase k a p) j s ne = move_ne view k j _ _ _ _ s _ (set_phase_lem k a p s) ne
  call_frame (mark_succeeded k a) j s ne =
      move_ne view k j _ _ _ _ s _ (mark_succeeded_lem k a s) ne
  call_frame (mark_failed k a r) j s ne = move_ne view k j _ _ _ _ s _ (mark_failed_lem k a r s) ne

  call-Advance : (c : Call) (s : S) → Advance view (key_of_call c) s (call w c s)
  unfolding call
  call-Advance (enqueue k) s = attempt-enqueue view k s (w.enqueue k s) (enqueue_lem k s)
  call-Advance (mark_processing k a) s =
      inl (refl, attempt-move view k k _ _ _ _ s _ (mark_processing_lem k a s))
  call-Advance (set_phase k a p) s =
      inl (refl, attempt-move view k k _ _ _ _ s _ (set_phase_lem k a p s))
  call-Advance (mark_succeeded k a) s =
      inl (refl, attempt-move view k k _ _ _ _ s _ (mark_succeeded_lem k a s))
  call-Advance (mark_failed k a r) s =
      inl (refl, attempt-move view k k _ _ _ _ s _ (mark_failed_lem k a r s))

  -- With any store that keeps its contract, over any calls, the runs that are started for a key
  -- are its next attempts, one after another: none is started twice and none is skipped.
  pub starts-count_up :
      (key : Key) (s : S) (cs : List Call)
      → starts w key s cs ≡ count_up (attempt_of (view s key)) (length (starts w key s cs))
  unfolding starts
  starts-count_up key s [] = refl
  starts-count_up key s (c ∷ cs) = elim (Bool-cases (key_of_call c == key)) [
    | inl own ↦ rw own (
        count_up-cons_if (attempt_of (view s key)) (attempt_of (view (call w c s).1 key)) _ _
          (starts-count_up key (call w c s).1 cs)
          (rw (← (key_beq_iff (key_of_call c) key).0 own) (call-Advance c s)))
    | inr other ↦ rw other (
        rw (call_frame c key s (λ e. cc (other, (key_beq_iff (key_of_call c) key).1 e))) at
          (starts-count_up key (call w c s).1 cs))
  ]
