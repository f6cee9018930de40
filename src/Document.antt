-- ===== src/Document.antt =====
-- Documents and the contract of their repository: internal/document/document.go.
pub mod Memory
use dumpster.Prelude.{
  ℕ, String, ◌≡◌, ◌↔◌, ◌⊎◌, ◌≢◌, Bool, true, false, Option, none, some, str_eq, str_eq_iff, arith,
}
use dumpster.Prelude.Tests.{if◌then◌else◌, nat_beq}
use dumpster.Queue.Types.{Uuid}

-- Go's `Status` is a string; `other` holds the strings that no constant names.
pub data Status : Type 0 where
  pending processing indexed failed : Status
  other : String → Status

-- `s == t`
abbrev pub status_beq : Status → Status → Bool
status_beq pending pending = true
status_beq processing processing = true
status_beq indexed indexed = true
status_beq failed failed = true
status_beq (other a) (other b) = str_eq a b
status_beq _ _ = false

pub status_beq_iff : (a b : Status) → (status_beq a b ≡ true) ↔ (a ≡ b)
status_beq_iff (other a) (other b) = ground (arith, str_eq_iff a b)
status_beq_iff _ _ = ground arith

-- An instant, in nanoseconds.
abbrev pub Time : Type 0
Time = ℕ

pub record Document : Type 0 where
  pub id : Uuid
  pub kb_id : Uuid
  pub user_id : Uuid
  pub filename : String
  pub s3_key : String
  pub content_type : String
  pub size_bytes : ℕ
  pub status : Status
  pub created_at : Time
  pub updated_at : Time

-- `ErrNotFound`, or an error of the implementation's own.
pub data Error : Type 0 where
  not_found : Error
  other : String → Error

pub data Result {ℓ} (A : Type ℓ) : Type ℓ where
  ok : A → Result A
  err : Error → Result A

-- The methods that the handlers call, over the repository's state. `time.Now` is the implementation's.
pub record Repository (S : Type 0) : Type 0 where
  pub get : Uuid → Uuid → S → Result Document
  pub get_by_s3_key : Uuid → String → S → Result Document
  pub update_status : Uuid → Uuid → Status → S → Option Error × S
  pub delete : Uuid → Uuid → S → Option Error × S

-- The row of `id`, if `user` owns it: `!ok || d.UserID != userID` is `none`.
abbrev pub own : Uuid → Option Document → Option Document
own user none = none
own user (some d) = if nat_beq d.user_id user then some d else none

-- What the interface promises: every method is scoped to its user. A method may also fail on its own,
-- and then changes nothing.
pub record IsScoped {S : Type 0} (r : Repository S) : Type 0 where
  pub row : S → Uuid → Option Document
  pub get_lem :
      (user id : Uuid) (s : S)
      → (r.get user id s ≡ elim (own user (row s id)) [ none ↦ err not_found | some d ↦ ok d ])
        ⊎ ((m : String) × (r.get user id s ≡ err (other m)))
  pub get_by_s3_key_lem :
      (user : Uuid) (key : String) (s : S) (d : Document)
      → r.get_by_s3_key user key s ≡ ok d
      → (d.user_id ≡ user) × (d.s3_key ≡ key)
  pub update_status_frame :
      (user id : Uuid) (status : Status) (s : S) (j : Uuid) (d : Document)
      → row s j ≡ some d
      → (j ≢ id) ⊎ (d.user_id ≢ user)
      → row (r.update_status user id status s).1 j ≡ some d
  pub delete_frame :
      (user id : Uuid) (s : S) (j : Uuid) (d : Document)
      → row s j ≡ some d
      → (j ≢ id) ⊎ (d.user_id ≢ user)
      → row (r.delete user id s).1 j ≡ some d
