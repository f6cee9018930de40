-- ===== src/Kb/Tenancy.antt =====
-- Tenant scoping of the in-memory repository of knowledge bases, internal/kb/memory/memory.go.
use dumpster.Prelude.{String, ◌≡◌, ◌≢◌, refl, ◌∙◌, Option, none, some, List, [], ◌∷◌, arith}
use dumpster.Prelude.Eq.{nat_eq}
use dumpster.Prelude.Map.{lookup, lookup-insert, lookup-delete}
use dumpster.Prelude.Map.Iterate.{}
use dumpster.Queue.Types.{Uuid}
use dumpster.Document.{Time}
use dumpster.Kb
use dumpster.Kb.{KnowledgeBase, Repository, found, get, set_name, remove}

-- The writes that one user can ask for.
pub data Write : Type 0 where
  create : Uuid → Time → String → Write
  rename : Time → Uuid → String → Write
  delete : Uuid → Write

unfoldable pub write : Uuid → Write → Repository → Repository
write user (create id now name) r = (Kb.create id now user name r).1
write user (rename now id name) r = (Kb.rename now user id name r).1
write user (delete id) r = (Kb.delete user id r).1

unfoldable pub writes : Uuid → List Write → Repository → Repository
writes user [] r = r
writes user (w ∷ ws) r = writes user ws (write user w r)

-- Each create draws an ID that no row has.
unfoldable pub IsFresh : Uuid → List Write → Repository → Type 0
IsFresh user [] r = Unit
IsFresh user (create id now name ∷ ws) r =
    (lookup id r.rows ≡ none) × IsFresh user ws (write user (create id now name) r)
IsFresh user (w ∷ ws) r = IsFresh user ws (write user w r)

set_name-other :
    (user v id j : Uuid) (now : Time) (name : String) (r : Repository) (o : Option KnowledgeBase)
    → lookup id r.rows ≡ o
    → user ≢ v
    → found v (lookup j (set_name id now name (found user o) r).1.rows) ≡ found v (lookup j r.rows)
set_name-other user v id j now name r none e ne = ground arith
set_name-other user v id j now name r (some k) e ne =
    ground (arith, lookup-insert id j (record k { name = name; updated_at = now }) r.rows)

remove-other :
    (user v id j : Uuid) (r : Repository) (o : Option KnowledgeBase)
    → lookup id r.rows ≡ o
    → user ≢ v
    → found v (lookup j (remove id (found user o) r).1.rows) ≡ found v (lookup j r.rows)
remove-other user v id j r none e ne = ground arith
remove-other user v id j r (some k) e ne = ground (arith, lookup-delete id j r.rows)

create-other :
    (user v id j : Uuid) (now : Time) (name : String) (r : Repository)
    → lookup id r.rows ≡ none
    → user ≢ v
    → get v j (Kb.create id now user name r).1 ≡ get v j r
unfolding Kb.create get
create-other user v id j now name r e ne = ground (
  arith,
  lookup-insert id j
      (record { id = id; user_id = user; name = name; created_at = now; updated_at = now }) r.rows,
)

-- Whatever one user creates, renames and deletes, what another user gets for an ID is unchanged, where
-- each create draws an ID that no row has.
pub writes-get :
    (user v : Uuid) (ws : List Write) (r : Repository) (j : Uuid)
    → user ≢ v
    → IsFresh user ws r
    → get v j (writes user ws r) ≡ get v j r
unfolding writes IsFresh write get Kb.rename Kb.delete
writes-get user v [] r j ne fresh = refl
writes-get user v (create id now name ∷ ws) r j ne fresh =
    writes-get user v ws _ j ne fresh.1 ∙ create-other user v id j now name r fresh.0 ne
writes-get user v (rename now id name ∷ ws) r j ne fresh =
    writes-get user v ws _ j ne fresh ∙ set_name-other user v id j now name r _ refl ne
writes-get user v (delete id ∷ ws) r j ne fresh =
    writes-get user v ws _ j ne fresh ∙ remove-other user v id j r _ refl ne
