-- ===== src/Document/Memory/Scope.antt =====
-- Tenant scoping of the in-memory document repository, internal/document/memory/memory.go.
use dumpster.Prelude.{
  String, ◌≡◌, ◌≢◌, ◌↔◌, refl, sym, subst, ◌∙◌, ◌⊎◌, inl, inr, Bool, true, false, Option, none,
  some, List, [], ◌∷◌, Memᴰ, arith, ◌&&◌, str_eq, str_eq_iff,
}
use mathlib.Core.Option
use dumpster.Prelude.Tests.{if◌then◌else◌, nat_beq, nat_beq_iff, Bool-cases, and_iff}
use dumpster.Prelude.Eq.{nat_eq}
use dumpster.Prelude.Map.{Map, Distinct, lookup, lookup-insert, lookup-delete}
use dumpster.Prelude.Map.Iterate.{
  mem_of_append_if, values_where, mem-values_where, values_where-mem, Distinct-insert,
  Distinct-delete,
}
use dumpster.Queue.Types.{Uuid}
use dumpster.Document
use dumpster.Document.{Status, Time, Document, Error, not_found, Result, ok, err, own, IsScoped}
use dumpster.Document.Memory.{
  Repository, first, create, found, update, remove, get, get_by_s3_key, list_by_kb, update_status,
  delete,
}

-- The map holds each row once, under its own ID.
record IsValid (r : Repository) : Type 0 where
  pub distinct : Distinct r.rows
  pub keyed : (id : Uuid) (d : Document) → lookup id r.rows ≡ some d → d.id ≡ id

create-IsValid :
    (id : Uuid) (now : Time) (d : Document) (r : Repository)
    → IsValid r
    → IsValid (create id now d r).1
unfolding create
create-IsValid id now d r v = record {
  distinct = Distinct-insert id _ r.rows v.distinct;
  keyed = λ j e h. ground (
    arith,
    lookup-insert id j (record d { id = id; created_at = now; updated_at = now }) r.rows,
    v.keyed j e,
  );
}

update-IsValid :
    (now : Time) (user id : Uuid) (status : Status) (r : Repository) (o : Option Document)
    → lookup id r.rows ≡ o
    → IsValid r
    → IsValid (update id now status (found user o) r).1
update-IsValid now user id status r none e v = v
update-IsValid now user id status r (some d) e v = elim (Bool-cases (nat_beq d.user_id user)) [
  | inl mine ↦ rw mine (record {
    distinct = Distinct-insert id _ r.rows v.distinct;
    keyed = λ j x h. ground (
      arith,
      lookup-insert id j (record d { status = status; updated_at = now }) r.rows,
      v.keyed j x,
      v.keyed id d e,
    );
  })
  | inr foreign ↦ rw foreign v
]

update_status-IsValid :
    (now : Time) (user id : Uuid) (status : Status) (r : Repository)
    → IsValid r
    → IsValid (update_status now user id status r).1
unfolding update_status
update_status-IsValid now user id status r =
    update-IsValid now user id status r (lookup id r.rows) refl

remove-IsValid :
    (id : Uuid) (r : Repository) (o : Result Document) → IsValid r → IsValid (remove id o r).1
remove-IsValid id r (err e) v = v
remove-IsValid id r (ok d) v = record {
  distinct = Distinct-delete id r.rows v.distinct;
  keyed = λ j x h. ground (arith, lookup-delete id j r.rows, v.keyed j x);
}

delete-IsValid : (user id : Uuid) (r : Repository) → IsValid r → IsValid (delete user id r).1
unfolding delete
delete-IsValid user id r = remove-IsValid id r (found user (lookup id r.rows))

-- In a valid repository, a document listed for a user is a row of that user in that knowledge
-- base, and each such row is listed.
list_by_kb-mem_iff :
    (user kb : Uuid) (d : Document) (r : Repository)
    → IsValid r
    → Memᴰ d (list_by_kb user kb r)
      ↔ ((lookup d.id r.rows ≡ some d) × (d.user_id ≡ user) × (d.kb_id ≡ kb))
unfolding list_by_kb
list_by_kb-mem_iff user kb d r v = (
  λ m.
      let (k, at, passes) = mem-values_where _ d r.rows v.distinct m in
      let test = (and_iff _ _).0 passes in
      (
        subst (λ (i : Uuid). lookup i r.rows ≡ some d) (sym (v.keyed k d at)) at,
        (nat_beq_iff _ _).0 test.0,
        (nat_beq_iff _ _).0 test.1,
      ),
  λ (at, u, k).
      values_where-mem _ d.id d r.rows at
        ((and_iff _ _).1 ((nat_beq_iff _ _).1 u, (nat_beq_iff _ _).1 k)),
)

pub get-found :
    (user : Uuid) (o : Option Document)
    → found user o ≡ elim (own user o) [ none ↦ err not_found | some d ↦ ok d ]
get-found user none = refl
get-found user (some d) = ground arith

-- What a status update makes of a row: its status and its time, if the row is the one named and is the
-- caller's.
abbrev pub updated : Time → Uuid → Uuid → Status → Uuid → Document → Document
updated now user id status j d =
    if nat_beq id j && nat_beq d.user_id user
    then record d { status = status; updated_at = now }
    else d

update-lookup :
    (now : Time) (user id : Uuid) (status : Status) (r : Repository) (j : Uuid)
    (o : Option Document)
    → lookup id r.rows ≡ o
    → lookup j (update id now status (found user o) r).1.rows
      ≡ Option.map (updated now user id status j) (lookup j r.rows)
update-lookup now user id status r j none e = ground arith
update-lookup now user id status r j (some d) e =
    ground (arith, lookup-insert id j (record d { status = status; updated_at = now }) r.rows)

-- `UpdateStatus` sets the status and the time of the row of the given ID if it is the caller's,
-- and leaves every other row.
pub update_status-lookup :
    (now : Time) (user id : Uuid) (status : Status) (r : Repository) (j : Uuid)
    → lookup j (update_status now user id status r).1.rows
      ≡ Option.map (updated now user id status j) (lookup j r.rows)
unfolding update_status
update_status-lookup now user id status r j =
    update-lookup now user id status r j (lookup id r.rows) refl

abbrev pub owned_by : Uuid → Option Document → Bool
owned_by user none = false
owned_by user (some d) = nat_beq d.user_id user

remove-lookup :
    (user id : Uuid) (r : Repository) (j : Uuid) (o : Option Document)
    → lookup id r.rows ≡ o
    → lookup j (remove id (found user o) r).1.rows
      ≡ (if nat_beq id j && owned_by user o then none else lookup j r.rows)
remove-lookup user id r j none e = ground arith
remove-lookup user id r j (some d) e = ground (arith, lookup-delete id j r.rows)

-- `Delete` removes the row of the given ID if it is the caller's, and leaves every other row.
pub delete-lookup :
    (user id : Uuid) (r : Repository) (j : Uuid)
    → lookup j (delete user id r).1.rows
      ≡ (if nat_beq id j && owned_by user (lookup id r.rows) then none else lookup j r.rows)
unfolding delete
delete-lookup user id r j = remove-lookup user id r j (lookup id r.rows) refl

first-mem : (ds : List Document) (d : Document) → first ds ≡ ok d → Memᴰ d ds
first-mem [] d h = absurd (cc)
first-mem (x ∷ ds) d h = Memᴰ.head (cc)

values_where-passes :
    (p : Document → Bool) (d : Document) (m : Map Uuid Document)
    → Memᴰ d (values_where p m)
    → p d ≡ true
unfolding values_where
values_where-passes p d [] h = elim h [ ]
values_where-passes p d ((k, v) ∷ m) h = elim (mem_of_append_if (p v) h) [
  | inl (e, t) ↦ rw e t
  | inr later ↦ values_where-passes p d m later
]

-- `GetByS3Key` returns only a document of the caller stored under that key.
pub get_by_s3_key-owned :
    (user : Uuid) (key : String) (r : Repository) (d : Document)
    → get_by_s3_key user key r ≡ ok d
    → (d.user_id ≡ user) × (d.s3_key ≡ key)
unfolding get_by_s3_key
get_by_s3_key-owned user key r d h =
    let passes = values_where-passes _ d r.rows (first-mem _ d h) in
    let test = (and_iff (str_eq d.s3_key key) (nat_beq d.user_id user)).0 passes in
    ((nat_beq_iff d.user_id user).0 test.1, (str_eq_iff d.s3_key key).0 test.0)

module _ (clock : Repository → Time) where
  -- The repository's methods as the interface; `clock` is `time.Now`.
  unfoldable pub repository : Document.Repository Repository
  repository = record {
    get = get;
    get_by_s3_key = get_by_s3_key;
    update_status = λ user id status r. update_status (clock r) user id status r;
    delete = delete;
  }

  pub update_status-frame :
      (user id : Uuid) (status : Status) (r : Repository) (j : Uuid) (d : Document)
      → lookup j r.rows ≡ some d
      → (j ≢ id) ⊎ (d.user_id ≢ user)
      → lookup j (update_status (clock r) user id status r).1.rows ≡ some d
  update_status-frame user id status r j d h apart =
      update_status-lookup (clock r) user id status r j ∙ rw h (ground arith)

  pub delete-frame :
      (user id : Uuid) (r : Repository) (j : Uuid) (d : Document)
      → lookup j r.rows ≡ some d
      → (j ≢ id) ⊎ (d.user_id ≢ user)
      → lookup j (delete user id r).1.rows ≡ some d
  delete-frame user id r j d h apart = delete-lookup user id r j ∙ ground (arith, h)

  -- The in-memory repository, with any clock, keeps the contract of `Repository`: `Get` and
  -- `GetByS3Key` return only the caller's documents, and `UpdateStatus` and `Delete` leave every
  -- other row.
  pub repository-IsScoped : IsScoped repository
  unfolding repository get
  repository-IsScoped = record {
    row = λ r id. lookup id r.rows;
    get_lem = λ user id r. inl (get-found user (lookup id r.rows));
    get_by_s3_key_lem = get_by_s3_key-owned;
    update_status_frame = update_status-frame;
    delete_frame = delete-frame;
  }
