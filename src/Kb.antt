-- ===== src/Kb.antt =====
-- Knowledge bases and their in-memory repository: internal/kb/kb.go, internal/kb/memory/memory.go.
-- `uuid.New()` and `time.Now()` are arguments, and a row is a value, as for documents.
pub mod Tenancy
use dumpster.Prelude.{ℕ, String, Bool, Option, none, some, List, [], ◌∷◌, not}
use dumpster.Prelude.Tests.{if◌then◌else◌, nat_beq}
use dumpster.Prelude.Eq.{nat_eq}
use dumpster.Prelude.Map
use dumpster.Prelude.Map.{Map, lookup, insert}
use dumpster.Prelude.Map.Iterate.{values_where}
use dumpster.Queue.Types.{Uuid}
use dumpster.Document.{Time}

pub record KnowledgeBase : Type 0 where
  pub id : Uuid
  pub user_id : Uuid
  pub name : String
  pub created_at : Time
  pub updated_at : Time

-- `ErrNotFound`, or an error of another implementation's own.
pub data Error : Type 0 where
  not_found : Error
  other : String → Error

pub data Result {ℓ} (A : Type ℓ) : Type ℓ where
  ok : A → Result A
  err : Error → Result A

pub record Repository : Type 0 where
  pub rows : Map Uuid KnowledgeBase

abbrev pub new : Repository
new = record { rows = [] }

-- `Create`
unfoldable pub create : Uuid → Time → Uuid → String → Repository → Result KnowledgeBase × Repository
create id now user name r =
    let k : KnowledgeBase = record {
      id = id;
      user_id = user;
      name = name;
      created_at = now;
      updated_at = now;
    } in
    (ok k, record { rows = insert id k r.rows })

-- `if !ok || k.UserID != userID { return kb.ErrNotFound }`
abbrev pub found : Uuid → Option KnowledgeBase → Result KnowledgeBase
found user none = err not_found
found user (some k) = if not (nat_beq k.user_id user) then err not_found else ok k

-- `Get`
unfoldable pub get : Uuid → Uuid → Repository → Result KnowledgeBase
get user id r = found user (lookup id r.rows)

-- `List`
unfoldable pub list : Uuid → Repository → List KnowledgeBase
list user r = values_where (λ k. nat_beq k.user_id user) r.rows

abbrev pub set_name :
    Uuid → Time → String → Result KnowledgeBase → Repository → Result KnowledgeBase × Repository
set_name id now name (err e) r = (err e, r)
set_name id now name (ok k) r =
    let renamed : KnowledgeBase = record k { name = name; updated_at = now } in
    (ok renamed, record { rows = insert id renamed r.rows })

-- `Rename`
unfoldable pub rename : Time → Uuid → Uuid → String → Repository → Result KnowledgeBase × Repository
rename now user id name r = set_name id now name (found user (lookup id r.rows)) r

abbrev pub remove : Uuid → Result KnowledgeBase → Repository → Option Error × Repository
remove id (err e) r = (some e, r)
remove id (ok k) r = (none, record { rows = Map.delete id r.rows })

-- `Delete`
unfoldable pub delete : Uuid → Uuid → Repository → Option Error × Repository
delete user id r = remove id (found user (lookup id r.rows)) r
