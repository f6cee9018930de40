-- ===== src/Tests/Rows.antt =====
-- Examples of the theorems on the in-memory repositories.
use dumpster.Prelude.{◌≡◌, refl, List, [], ◌∷◌}
use dumpster.Prelude.Eq.{nat_eq}
use dumpster.Prelude.Map.{lookup, insert}
use dumpster.Document.{ok, IsScoped}
use dumpster.Document.Memory as Docs
use dumpster.Document.Memory.Scope.{get_by_s3_key-owned, repository, repository-IsScoped}
use dumpster.Prelude.Map.Iterate.{values_where}
use dumpster.Kb
use dumpster.Kb.{new, get}
use dumpster.Kb.Tenancy.{Write, create, rename, delete, write, writes, IsFresh, writes-get}
use dumpster.Tests.World.{report}

abbrev one_row : Docs.Repository
one_row = (Docs.create 5 1 report Docs.new).1

found : Docs.get_by_s3_key 7 report.s3_key one_row ≡ ok report
unfolding Docs.get_by_s3_key Docs.create insert values_where
found = refl

get_by_s3_key-owned_example : (report.user_id ≡ 7) × (report.s3_key ≡ report.s3_key)
get_by_s3_key-owned_example = get_by_s3_key-owned 7 report.s3_key one_row report found

repository-IsScoped_example : IsScoped (repository (λ r. 0))
repository-IsScoped_example = repository-IsScoped (λ r. 0)

abbrev changes : List Write
changes = create 1 10 "papers" ∷ create 2 11 "notes" ∷ rename 12 1 "articles" ∷ delete 2 ∷ []

changes-IsFresh : IsFresh 7 changes new
unfolding IsFresh write lookup insert Kb.create Kb.rename Kb.delete
changes-IsFresh = (refl, (refl, tt))

writes-get_example : get 8 1 (writes 7 changes new) ≡ get 8 1 new
writes-get_example = writes-get 7 8 changes new 1 (λ e. cc) changes-IsFresh
