-- ===== src/Document/Memory.antt =====
-- The in-memory repository of documents: internal/document/memory/memory.go. `uuid.New()` and
-- `time.Now()` are arguments. A row is a value here: that `Get` returns a pointer into the map, through
-- which a caller could write, is not modelled.
pub mod Scope
use dumpster.Prelude.{ℕ, String, Bool, ◌&&◌, Option, none, some, List, [], ◌∷◌, str_eq, not}
use dumpster.Prelude.Tests.{if◌then◌else◌, nat_beq}
use dumpster.Prelude.Eq.{nat_eq}
use dumpster.Prelude.Map
use dumpster.Prelude.Map.{Map, lookup, insert}
use dumpster.Prelude.Map.Iterate.{values_where}
use dumpster.Queue.Types.{Uuid}
use dumpster.Document.{Status, Time, Document, Error, not_found, Result, ok, err}

pub record Repository : Type 0 where
  pub rows : Map Uuid Document

abbrev pub new : Repository
new = record { rows = [] }

-- `Create`
unfoldable pub create : Uuid → Time → Document → Repository → Result Document × Repository
create id now d r =
    let cp = record d { id = id; created_at = now; updated_at = now } in
    (ok cp, record { rows = insert id cp r.rows })

-- `if !ok || d.UserID != userID { return document.ErrNotFound }`
abbrev pub found : Uuid → Option Document → Result Document
found user none = err not_found
found user (some d) = if not (nat_beq d.user_id user) then err not_found else ok d

-- `Get`
unfoldable pub get : Uuid → Uuid → Repository → Result Document
get user id r = found user (lookup id r.rows)

abbrev first : List Document → Result Document
first [] = err not_found
first (d ∷ ds) = ok d

-- `GetByS3Key`: the first match of the iteration
unfoldable pub get_by_s3_key : Uuid → String → Repository → Result Document
get_by_s3_key user key r =
    first (values_where (λ d. str_eq d.s3_key key && nat_beq d.user_id user) r.rows)

-- `ListByKB`
unfoldable pub list_by_kb : Uuid → Uuid → Repository → List Document
list_by_kb user kb r = values_where (λ d. nat_beq d.user_id user && nat_beq d.kb_id kb) r.rows

-- `ListByUserID`
unfoldable pub list_by_user_id : Uuid → Repository → List Document
list_by_user_id user r = values_where (λ d. nat_beq d.user_id user) r.rows

abbrev pub update : Uuid → Time → Status → Result Document → Repository → Option Error × Repository
update id now status (err e) r = (some e, r)
update id now status (ok d) r =
    (none, record { rows = insert id (record d { status = status; updated_at = now }) r.rows })

-- `UpdateStatus`
unfoldable pub update_status : Time → Uuid → Uuid → Status → Repository → Option Error × Repository
update_status now user id status r = update id now status (found user (lookup id r.rows)) r

abbrev remove : Uuid → Result Document → Repository → Option Error × Repository
remove id (err e) r = (some e, r)
remove id (ok d) r = (none, record { rows = Map.delete id r.rows })

-- `Delete`
unfoldable pub delete : Uuid → Uuid → Repository → Option Error × Repository
delete user id r = remove id (found user (lookup id r.rows)) r
