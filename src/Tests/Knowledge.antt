-- ===== src/Tests/Knowledge.antt =====
-- The endpoints of knowledge bases over the in-memory repository.
use dumpster.Prelude.{some}
use dumpster.Kb
use dumpster.Kb.{ok}
use dumpster.Server.KnowledgeBases.{Repository, Request, create, serve}
use dumpster.Server.KnowledgeBases.Guarded.{Change, serve-Change}

-- Every new knowledge base gets ID 4, at time 9.
abbrev repo : Repository Kb.Repository
repo = record {
  create = Kb.create 4 9;
  get = Kb.get;
  list = λ u r. ok (Kb.list u r);
  rename = Kb.rename 9;
  delete = Kb.delete;
}

abbrev request : Request
request = create (some 7) (some "papers")

serve-Change_example : Change repo request Kb.new (serve repo request Kb.new).1
serve-Change_example = serve-Change repo request Kb.new
