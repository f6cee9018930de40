-- ===== src/Worker/Canonicalization.antt =====
-- The handler that resolves a document's mentions, merges aliases and reviews links across chunks:
-- internal/worker/canonicalizationhandler.go, over collaborators with one state `W`. Logging is left out.
pub mod Again
use dumpster.Prelude.{ℕ, String, Option, none, some, List, [], ◌∷◌}
use dumpster.Prelude.Tests.{if◌then◌else◌, nat_beq}
use dumpster.Prelude.Map.{Map}
use dumpster.Queue.Types.{Uuid}
use dumpster.Document
use dumpster.Document.{Document}
use dumpster.Entity
use dumpster.Canonical
use dumpster.Canonical.{Mention, resolve_new}
use dumpster.Canonical.Alias.{
  AliasJudge, Failure, in_list, in_candidates, in_merge, in_judge, resolve_aliases,
}
use dumpster.CrossLink.{Candidate, Update}
use dumpster.Pipeline.{Error, document, foreign, wrapped}
use dumpster.Pipeline.EmbedTail.{Outcome, done, failing}
use dumpster.Worker.{Job, Handler, retryable}

abbrev pub default_max_cross_link_candidates_per_run : ℕ
default_max_cross_link_candidates_per_run = 20

-- `crosslink.Repository`, as far as the handler calls it, with `crosslink.Extractor` and the limit.
pub record CrossLinker (W : Type 0) : Type 0 where
  pub candidate_chains : Uuid → Uuid → ℕ → W → Outcome (List Candidate)
  pub extract : List Candidate → W → Outcome (List Update)
  pub apply_updates : Uuid → Uuid → List Update → W → Option Error × W
  pub limit : ℕ

-- `CanonicalizationHandler`. The optional fields are `none` where they are nil; a repository and an
-- extractor for links come together. `list_mentions` gives each mention with the draws for its row.
pub record CanonicalizationHandler (W : Type 0) : Type 0 where
  pub docs : Document.Repository W
  pub list_mentions : Uuid → Uuid → W → Outcome (List Mention)
  pub entities : Entity.Repository W
  pub canonical : Canonical.Repository W
  pub alias_judge : Option (AliasJudge W)
  pub cross_linker : Option (CrossLinker W)
  pub sql_state : String → Option (List ℕ)

-- The errors of internal/canonical in a chain.
abbrev canonical_error : Canonical.Error → Error
canonical_error Canonical.not_found = foreign "canonical: not found"
canonical_error (Canonical.other m) = foreign m

abbrev alias_error : Failure → Error
alias_error (in_list e) = wrapped (canonical_error e)
alias_error (in_candidates e) = wrapped (canonical_error e)
alias_error (in_merge e) = wrapped (canonical_error e)
alias_error (in_judge m) = wrapped (foreign m)

module _ {W : Type 0} where
  abbrev applied : Option Error × W → Option Error × W
  applied (none, w) = (none, w)
  applied (some e, w) = (some (wrapped e), w)

  abbrev extracted : CrossLinker W → Uuid → Uuid → Outcome (List Update) → W → Option Error × W
  extracted x user kb (failing e) w = (some (wrapped e), w)
  extracted x user kb (done updates) w = applied (x.apply_updates user kb updates w)

  abbrev reviewed : CrossLinker W → Uuid → Uuid → Outcome (List Candidate) → W → Option Error × W
  reviewed x user kb (failing e) w = (some (wrapped e), w)
  reviewed x user kb (done []) w = (none, w)
  reviewed x user kb (done (c ∷ cs)) w = extracted x user kb (x.extract (c ∷ cs) w) w

  -- `runCrossLink`
  unfoldable pub run_cross_link : CrossLinker W → Uuid → Uuid → W → Option Error × W
  run_cross_link x user kb w =
      let limit =
        if nat_beq x.limit 0 then default_max_cross_link_candidates_per_run else x.limit in
      reviewed x user kb (x.candidate_chains user kb limit w) w

module _ {W : Type 0} (h : CanonicalizationHandler W) where
  abbrev retried : Error → Option Error
  retried e = some (wrapped (retryable h.sql_state e))

  abbrev linked : Option Error × W → Option Error × W
  linked (none, w) = (none, w)
  linked (some e, w) = (retried e, w)

  abbrev after_aliases : Job → Uuid → Option Failure × W → Option Error × W
  after_aliases job kb (some f, w) = (retried (alias_error f), w)
  after_aliases job kb (none, w) = elim h.cross_linker [
    | none ↦ (none, w)
    | some x ↦ linked (run_cross_link x job.user_id kb w)
  ]

  -- `if h.aliasJudge != nil && len(resolved) > 0`; the nil map is `none`
  abbrev with_aliases : Job → Uuid → Option (Map Uuid Uuid) → W → Option Failure × W
  with_aliases job kb none w = (none, w)
  with_aliases job kb (some []) w = (none, w)
  with_aliases job kb (some (r ∷ rs)) w = elim h.alias_judge [
    | none ↦ (none, w)
    | some judge ↦ resolve_aliases h.canonical judge job.user_id kb (r ∷ rs) w
  ]

  abbrev after_resolve :
      Job → Uuid → Canonical.Result (Option (Map Uuid Uuid)) × W → Option Error × W
  after_resolve job kb (Canonical.err e, w) = (retried (canonical_error e), w)
  after_resolve job kb (Canonical.ok resolved, w) =
      after_aliases job kb (with_aliases job kb resolved w)

  abbrev with_mentions : Job → Uuid → Outcome (List Mention) → W → Option Error × W
  with_mentions job kb (failing e) w = (retried e, w)
  with_mentions job kb (done []) w = (none, w)
  with_mentions job kb (done (m ∷ ms)) w =
      after_resolve job kb (resolve_new h.canonical h.entities job.user_id (m ∷ ms) w)

  abbrev with_document : Job → Document.Result Document → W → Option Error × W
  with_document job (Document.err e) w = (retried (document e), w)
  with_document job (Document.ok doc) w =
      with_mentions job doc.kb_id (h.list_mentions job.user_id job.document_id w) w

  -- `Handle`
  unfoldable pub handle : Job → W → Option Error × W
  handle job w = with_document job (h.docs.get job.user_id job.document_id w) w

  -- `OnFailed` only logs.
  abbrev pub handler : Handler W
  handler = record { handle = handle; on_failed = λ job w. w }
