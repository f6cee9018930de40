-- ===== src/Server/Pagination.antt =====
-- The pages of a list endpoint: internal/server/pagination.go. `paginateKBs` and `paginateDocs`
-- are the same code at two types, so it is written once over an item's `ID` and `CreatedAt`. An id is
-- its 128-bit value, whose order is that of the strings that Go compares.
pub mod Walk
use dumpster.Prelude.{
  ℕ, suc, ◌+◌, ◌-◌, String, Bool, ◌&&◌, Option, none, some, List, [], ◌∷◌, str_eq,
}
use mathlib.Core.Option
use dumpster.Prelude.Tests.{if◌then◌else◌, ltb, nat_beq}
use dumpster.Prelude.Lists.{length, take, drop, get_elem?}
use dumpster.Prelude.Sort.{sort_by}
use dumpster.Queue.Types.{Uuid}
use dumpster.Document.{Document, Time}
use dumpster.Kb.{KnowledgeBase}

abbrev pub default_page_limit : ℕ
default_page_limit = 50

abbrev pub max_page_limit : ℕ
max_page_limit = 200

-- `uuid.Nil`
abbrev pub nil_uuid : Uuid
nil_uuid = 0

-- `KBPage` and `DocumentPage`: an empty `NextCursor` is `none`.
pub record Page (A : Type 0) : Type 0 where
  pub items : List A
  pub next_cursor : Option Uuid

-- The limit of `parsePagination`. `query` is the value of `?limit=`, "" if absent, and `atoi` is
-- `strconv.Atoi`, with `none` for an error and 0 for a negative number.
unfoldable pub parse_limit : (String → Option ℕ) → String → ℕ
parse_limit atoi query =
    let limit = asked (if str_eq query "" then none else atoi query) in
    if ltb max_page_limit limit then max_page_limit else limit
  where
    asked : Option ℕ → ℕ
    asked none = default_page_limit
    asked (some n) = if ltb 0 n then n else default_page_limit

-- The cursor of `parsePagination`, with `uuid.Parse` as a parameter.
unfoldable pub parse_after : (String → Option Uuid) → String → Uuid
parse_after parse query = or_nil (if str_eq query "" then none else parse query)
  where
    or_nil : Option Uuid → Uuid
    or_nil none = nil_uuid
    or_nil (some id) = id

module _ {A : Type 0} (id : A → Uuid) where
  unfoldable pub cursor_loop : ℕ → List A → Uuid → ℕ
  cursor_loop i [] after = 0
  cursor_loop i (x ∷ xs) after =
      let rest = cursor_loop (i + 1) xs after in if nat_beq (id x) after then i + 1 else rest

  -- `kbCursorPos` and `docCursorPos`
  unfoldable pub cursor_pos : List A → Uuid → ℕ
  cursor_pos items after = if nat_beq after nil_uuid then 0 else cursor_loop 0 items after

  -- What follows the sort.
  unfoldable pub page_of : List A → ℕ → Uuid → Page A
  page_of items limit after =
      let start = cursor_pos items after in
      let stop = start + limit in
      let has_more = ltb stop (length items) in
      let last = if ltb (length items) stop then length items else stop in
      let slice = take (last - start) (drop start items) in
      record {
        items = slice;
        next_cursor =
            if has_more && ltb 0 (length slice)
            then Option.map id (get_elem? slice (length slice - 1))
            else none;
      }

module _ {A : Type 0} (id : A → Uuid) (created_at : A → Time) where
  -- The `less` function that both pass to `sort.Slice`.
  unfoldable pub before : A → A → Bool
  before a b =
      if nat_beq (created_at a) (created_at b)
      then ltb (id a) (id b)
      else ltb (created_at a) (created_at b)

  unfoldable pub paginate : List A → ℕ → Uuid → Page A
  paginate items limit after = page_of id (sort_by before items) limit after

-- `paginateKBs`
unfoldable pub paginate_kbs : List KnowledgeBase → ℕ → Uuid → Page KnowledgeBase
paginate_kbs = paginate (λ k. k.id) (λ k. k.created_at)

-- `paginateDocs`
unfoldable pub paginate_docs : List Document → ℕ → Uuid → Page Document
paginate_docs = paginate (λ d. d.id) (λ d. d.created_at)
