-- ===== src/Tests/Entities.antt =====
-- Canonical entities of one document in the in-memory repositories.
use dumpster.Prelude.{ℕ, String, ◌≡◌, ap, refl, ◌≤◌, ◌+◌, true, none, some, List, [], ◌∷◌, arith}
use dumpster.Prelude.Tests.{if◌then◌else◌}
use dumpster.Prelude.Eq.{◌==◌, nat_eq, string_eq}
use dumpster.Prelude.Map.{lookup, insert, Distinct}
use dumpster.Prelude.Sort.{place, sort_by}
use dumpster.Prelude.Map.Iterate.{values_where}
use dumpster.Queue.Types.{Uuid}
use dumpster.Entity.{Entity}
use dumpster.Entity.Memory as Mentions
use dumpster.Entity.Memory.{list_by_document, link_all, bulk_set_canonical_entity_id}
use dumpster.Canonical.{CanonicalEntity, Mention, ok, resolve_new, pending_of}
use dumpster.Canonical.Memory.{
  doc_key_eq, Repository, new, start, canonicalize_one, canonicalize_all, find_locked,
  decrement_for_document,
}
use dumpster.Canonical.Memory
use dumpster.Canonical.Memory.Counts.{IsBalanced}
use dumpster.Canonical.Memory.Balance.{owed_by_user}
use dumpster.Canonical.Memory.Calls.{
  canonicalize, Call, merge_into, call, calls, IsFresh, AreFresh, calls-IsBalanced,
}
use dumpster.Canonical.Memory.Reverse.{IsRestored, decrement_for_document-canonicalize}
use dumpster.Canonical.Alias.{AliasJudge, answered, resolve_aliases}
use dumpster.Canonical.Alias.Merges.{repository, beside}
use dumpster.Canonical.Alias.Rounds.{IsFromJudge, resolve_aliases-IsGood}
use dumpster.Canonical.Repeat.{entities, entities_of, resolve_new_again}
use dumpster.Document
use dumpster.Queue.Types.{canonicalization}
use dumpster.Worker.{Job}
use dumpster.Worker.Canonicalization.{CanonicalizationHandler, handle}
use dumpster.Worker.Canonicalization.Again.{Stores, plain, handle_again}
use dumpster.Tests.World.{report}

abbrev keep : String → String
keep s = s

-- A text of two names has the tokens of both.
abbrev words : String → List String
words s = if s == "rosalind kade" then "rosalind" ∷ "kade" ∷ [] else s ∷ []

-- A mention of user 7 in knowledge base 3.
abbrev entity : Uuid → Uuid → String → Entity
entity id document text = record {
  id = id;
  document_id = document;
  kb_id = 3;
  user_id = 7;
  chunk_id = 9;
  kind = "person";
  text = text;
  start = 0;
  end = 4;
  score = 0;
  canonical_entity_id = none;
}

-- Document 5 mentions one name twice, document 6 another.
abbrev first_document : List Mention
first_document = (21, 1, entity 11 5 "kade") ∷ (22, 2, entity 12 5 "kade") ∷ []

abbrev second_document : List Mention
second_document = (23, 3, entity 13 6 "rosalind kade") ∷ (24, 4, entity 14 6 "kade") ∷ []

new-IsBalanced : IsBalanced new
unfolding lookup owed_by_user
new-IsBalanced = record {
  named = λ k ce h. absurd (cc);
  rows = tt;
  documents = tt;
  entities = tt;
  balanced = λ user id. refl;
}

abbrev all_calls : List Call
all_calls = canonicalize first_document ∷ canonicalize second_document ∷ merge_into 7 23 21 ∷ []

all_calls-AreFresh : AreFresh keep all_calls new
unfolding AreFresh IsFresh lookup insert canonicalize_one canonicalize_all call find_locked
    values_where Memory.canonicalize
all_calls-AreFresh = ((refl, (refl, tt)), ((refl, (refl, tt)), tt))

calls-IsBalanced_example : IsBalanced (calls keep all_calls new)
calls-IsBalanced_example = calls-IsBalanced keep all_calls new all_calls-AreFresh new-IsBalanced

-- Document 6's mentions are known before document 5 comes.
abbrev known : Repository
known = (Memory.canonicalize keep second_document new).1

second_document-AreFresh : AreFresh keep (canonicalize second_document ∷ []) new
unfolding AreFresh IsFresh lookup insert canonicalize_one canonicalize_all find_locked values_where
second_document-AreFresh = ((refl, (refl, tt)), tt)

known-IsBalanced : IsBalanced known
unfolding call calls
known-IsBalanced =
    calls-IsBalanced keep (canonicalize second_document ∷ []) new second_document-AreFresh
      new-IsBalanced

first_document-IsFresh : IsFresh keep first_document (start known)
unfolding IsFresh lookup insert canonicalize_one canonicalize_all find_locked values_where
    Memory.canonicalize
first_document-IsFresh = (refl, (refl, tt))

known-IsPositive :
    (k : Uuid) (ce : CanonicalEntity) → lookup k known.rows ≡ some ce → 1 ≤ ce.mention_count
unfolding lookup insert canonicalize_one canonicalize_all find_locked values_where
    Memory.canonicalize
known-IsPositive k ce h = ground (arith, h)

nothing_yet : lookup (record { user_id = 7; document_id = 5 }) known.doc_contribution ≡ none
unfolding lookup insert canonicalize_one canonicalize_all find_locked values_where
    Memory.canonicalize
nothing_yet = refl

decrement_for_document-canonicalize_example :
    IsRestored known (decrement_for_document 7 5 (Memory.canonicalize keep first_document known).1)
decrement_for_document-canonicalize_example =
    decrement_for_document-canonicalize keep 7 5 first_document known (refl, (refl, tt))
      first_document-IsFresh known-IsBalanced known-IsPositive nothing_yet

-- Both rows of document 6 and then those of document 5, where a judge says that all are the same.
abbrev judge : AliasJudge ℕ
judge = record { same_entity_batch = λ kind text cands j. (answered (true ∷ true ∷ []), j + 1) }

resolve_aliases-IsGood_example :
    IsFromJudge
      (resolve_aliases
        (repository keep words)
        (beside judge)
        7
        3
        ((13, 23) ∷ (14, 24) ∷ [])
        (known, 0)).0
    × IsBalanced
        (resolve_aliases
          (repository keep words)
          (beside judge)
          7
          3
          ((13, 23) ∷ (14, 24) ∷ [])
          (known, 0)).1.0
resolve_aliases-IsGood_example =
    resolve_aliases-IsGood keep words judge 7 3 ((13, 23) ∷ (14, 24) ∷ []) known 0 known-IsBalanced

-- The mentions of document 5, one of them linked.
abbrev stored : Mentions.Repository
stored = record {
  rows =
      (11, entity 11 5 "kade")
      ∷ (12, record (entity 12 5 "kade") { canonical_entity_id = some 24 })
      ∷ [];
}

abbrev listed : List Mention
listed =
    (31, 5, entity 11 5 "kade")
    ∷ (32, 5, record (entity 12 5 "kade") { canonical_entity_id = some 24 })
    ∷ []

abbrev relisted : List Mention
relisted =
    (33, 6, record (entity 11 5 "kade") { canonical_entity_id = some 24 })
    ∷ (34, 6, record (entity 12 5 "kade") { canonical_entity_id = some 24 })
    ∷ []

stored-Distinct : Distinct stored.rows
unfolding lookup
stored-Distinct = (refl, (refl, tt))

stored-named : (k : Uuid) (x : Entity) → lookup k stored.rows ≡ some x → x.id ≡ k
unfolding lookup
stored-named k x h = ground (arith, h)

listed_lem : entities_of listed ≡ list_by_document 7 5 stored
unfolding list_by_document sort_by place values_where
listed_lem = refl

relisted_lem :
    entities_of relisted
    ≡ list_by_document 7 5
        (resolve_new (repository keep words) entities 7 listed (known, stored)).1.1
unfolding list_by_document sort_by place values_where resolve_new pending_of lookup insert
    canonicalize_one canonicalize_all find_locked Memory.canonicalize link_all
    bulk_set_canonical_entity_id
relisted_lem = refl

resolve_new_again_example :
    resolve_new
      (repository keep words)
      entities
      7
      relisted
      (resolve_new (repository keep words) entities 7 listed (known, stored)).1
    ≡ (ok none, (resolve_new (repository keep words) entities 7 listed (known, stored)).1)
resolve_new_again_example =
    resolve_new_again keep words 7 5 listed relisted known stored stored-Distinct stored-named
      listed_lem relisted_lem

-- The mentions with draws from `n` on.
drawn : ℕ → List Entity → List Mention
drawn n [] = []
drawn n (e ∷ es) = (n, 6, e) ∷ drawn (n + 1) es

entities_of-drawn : (n : ℕ) (es : List Entity) → entities_of (drawn n es) ≡ es
unfolding drawn
entities_of-drawn n [] = refl
entities_of-drawn n (e ∷ es) = ap (◌∷◌ e) (entities_of-drawn (n + 1) es)

-- Documents whose one row is `report`.
abbrev one_document : Document.Repository Stores
one_document = record {
  get = λ u i w. Document.ok report;
  get_by_s3_key = λ u k w. Document.ok report;
  update_status = λ u i s w. (none, w);
  delete = λ u i w. (none, w);
}

abbrev draw : Uuid → Uuid → Stores → List Mention
draw user document w = drawn 50 (list_by_document user document w.1)

abbrev handler : CanonicalizationHandler Stores
handler = plain keep words one_document draw (λ m. none)

abbrev job : Job
job = record { job_type = canonicalization; document_id = 5; user_id = 7 }

handle_again_example :
    handle handler job (handle handler job (known, stored)).1
    ≡ (none, (handle handler job (known, stored)).1)
handle_again_example =
    handle_again keep words one_document draw (λ m. none) job report known stored (λ w. refl)
      (λ w. entities_of-drawn 50 (list_by_document 7 5 w.1)) stored-Distinct stored-named
