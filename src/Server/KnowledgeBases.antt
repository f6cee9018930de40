-- ===== src/Server/KnowledgeBases.antt =====
-- The endpoints of knowledge bases: internal/server/kbhandler.go. JSON is a parameter: a body is its
-- decoded name, `none` where it does not decode.
pub mod Guarded
use dumpster.Prelude.{ℕ, String, Option, none, some, List, str_eq}
use dumpster.Prelude.Tests.{if◌then◌else◌}
use dumpster.Queue.Types.{Uuid}
use dumpster.Kb
use dumpster.Kb.{KnowledgeBase, Result, ok, err, not_found, other}
use dumpster.Server.Pagination.{Page, paginate_kbs}

-- The methods of `kb.Repository`, over its state.
pub record Repository (W : Type 0) : Type 0 where
  pub create : Uuid → String → W → Result KnowledgeBase × W
  pub get : Uuid → Uuid → W → Result KnowledgeBase
  pub list : Uuid → W → Result (List KnowledgeBase)
  pub rename : Uuid → Uuid → String → W → Result KnowledgeBase × W
  pub delete : Uuid → Uuid → W → Option Kb.Error × W

pub data Response : Type 0 where
  error : ℕ → String → Response
  one : ℕ → KnowledgeBase → Response
  page : ℕ → Page KnowledgeBase → Response
  header : ℕ → Response

-- A request to one of the five routes: the authenticated user, the parsed path value, the body.
pub data Request : Type 0 where
  create : Option Uuid → Option String → Request
  list : Option Uuid → ℕ → Uuid → Request
  get : Option Uuid → Option Uuid → Request
  rename : Option Uuid → Option Uuid → Option String → Request
  delete : Option Uuid → Option Uuid → Request

-- `writeKBError`
write_kb_error : Kb.Error → Response
write_kb_error not_found = error 404 "knowledge base not found"
write_kb_error (other m) = error 500 "internal error"

created : {W : Type 0} → Result KnowledgeBase × W → Response × W
created (err e, w) = (error 500 "failed to create knowledge base", w)
created (ok k, w) = (one 201 k, w)

listed : ℕ → Uuid → Result (List KnowledgeBase) → Response
listed limit after (err e) = error 500 "failed to list knowledge bases"
listed limit after (ok ks) = page 200 (paginate_kbs ks limit after)

shown : Result KnowledgeBase → Response
unfolding write_kb_error
shown (err e) = write_kb_error e
shown (ok k) = one 200 k

renamed : {W : Type 0} → Result KnowledgeBase × W → Response × W
unfolding shown
renamed (r, w) = (shown r, w)

deleted : {W : Type 0} → Option Kb.Error × W → Response × W
unfolding write_kb_error
deleted (some e, w) = (write_kb_error e, w)
deleted (none, w) = (header 204, w)

module _ {W : Type 0} (repo : Repository W) where
  -- What the decoded body leads to: an absent or an empty name is refused.
  with_name : Option String → (String → W → Response × W) → W → Response × W
  with_name none next w = (error 400 "name is required", w)
  with_name (some name) next w =
      if str_eq name "" then (error 400 "name is required", w) else next name w

  -- `create`, `list`, `get`, `rename` and `delete`
  unfoldable pub serve : Request → W → Response × W
  unfolding with_name created listed shown renamed deleted
  serve (create none body) w = (error 401 "unauthorized", w)
  serve (create (some u) body) w = with_name body (λ name v. created (repo.create u name v)) w
  serve (list none limit after) w = (error 401 "unauthorized", w)
  serve (list (some u) limit after) w = (listed limit after (repo.list u w), w)
  serve (get none id) w = (error 401 "unauthorized", w)
  serve (get (some u) none) w = (error 400 "invalid id", w)
  serve (get (some u) (some i)) w = (shown (repo.get u i w), w)
  serve (rename none id body) w = (error 401 "unauthorized", w)
  serve (rename (some u) none body) w = (error 400 "invalid id", w)
  serve (rename (some u) (some i) body) w =
      with_name body (λ name v. renamed (repo.rename u i name v)) w
  serve (delete none id) w = (error 401 "unauthorized", w)
  serve (delete (some u) none) w = (error 400 "invalid id", w)
  serve (delete (some u) (some i)) w = deleted (repo.delete u i w)
