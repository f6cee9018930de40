-- ===== src/Canonical/Memory/Calls.antt =====
-- Sequences of calls of the in-memory repository of canonical entities,
-- internal/canonical/memory/memory.go.
use dumpster.Prelude.{String, ◌≡◌, none, List, [], ◌∷◌}
use dumpster.Prelude.Eq.{nat_eq}
use dumpster.Prelude.Map.{lookup}
use dumpster.Queue.Types.{Uuid}
use dumpster.Canonical.{Mention}
use dumpster.Canonical.Memory
use dumpster.Canonical.Memory.{Repository, Progress, start, canonicalize_one, canonicalize_all}
use dumpster.Canonical.Memory.Counts.{
  IsBalanced, canonicalize_one-IsBalanced, decrement_for_document-IsBalanced, merge_into-IsBalanced,
}

-- The calls that change the repository, by any users.
pub data Call : Type 0 where
  canonicalize : List Mention → Call
  decrement_for_document : Uuid → Uuid → Call
  merge_into : Uuid → Uuid → Uuid → Call

module _ (normalize : String → String) where
  unfoldable pub call : Call → Repository → Repository
  call (canonicalize ms) r = (Memory.canonicalize normalize ms r).1
  call (decrement_for_document user document) r = Memory.decrement_for_document user document r
  call (merge_into user source to) r = (Memory.merge_into user source to r).1

  unfoldable pub calls : List Call → Repository → Repository
  calls [] r = r
  calls (c ∷ cs) r = calls cs (call c r)

  -- No row has the ID that a mention draws, when its turn comes.
  unfoldable pub IsFresh : List Mention → Progress → Type 0
  IsFresh [] p = Unit
  IsFresh ((id, now, m) ∷ ms) p =
      (lookup id p.repo.rows ≡ none) × IsFresh ms (canonicalize_one normalize (id, now, m) p)

  unfoldable pub AreFresh : List Call → Repository → Type 0
  AreFresh [] r = Unit
  AreFresh (canonicalize ms ∷ cs) r = IsFresh ms (start r) × AreFresh cs (call (canonicalize ms) r)
  AreFresh (c ∷ cs) r = AreFresh cs (call c r)

  canonicalize_all-IsBalanced :
      (ms : List Mention) (p : Progress)
      → IsFresh ms p
      → IsBalanced p.repo
      → IsBalanced (canonicalize_all normalize ms p).repo
  unfolding IsFresh canonicalize_all
  canonicalize_all-IsBalanced [] p fresh b = b
  canonicalize_all-IsBalanced ((id, now, m) ∷ ms) p fresh b =
      canonicalize_all-IsBalanced ms (canonicalize_one normalize (id, now, m) p) fresh.1
        (canonicalize_one-IsBalanced normalize id now m p fresh.0 b)

  -- Whatever sequence of Canonicalize, DecrementForDocument and MergeInto is called, by any users,
  -- every row stands under its own ID, no key stands twice, and what a user's row counts as mentions
  -- is what that user's documents contribute to it, 0 where the user has no row with the ID. Each
  -- mention draws an ID that no row has, and this holds of the repository before.
  pub calls-IsBalanced :
      (cs : List Call) (r : Repository) → AreFresh cs r → IsBalanced r → IsBalanced (calls cs r)
  unfolding calls call AreFresh Memory.canonicalize
  calls-IsBalanced [] r fresh b = b
  calls-IsBalanced (canonicalize ms ∷ cs) r fresh b =
      calls-IsBalanced cs _ fresh.1 (canonicalize_all-IsBalanced ms (start r) fresh.0 b)
  calls-IsBalanced (decrement_for_document user document ∷ cs) r fresh b =
      calls-IsBalanced cs _ fresh (decrement_for_document-IsBalanced user document r b)
  calls-IsBalanced (merge_into user source to ∷ cs) r fresh b =
      calls-IsBalanced cs _ fresh (merge_into-IsBalanced user source to r b)
