-- ===== src/Tests/Links.antt =====
-- Two candidates for links across chunks, one of them between texts that are no names.
use Prim.Native.Char.{Char, code}
use dumpster.Prelude.{ℕ, ◌≡◌, refl, sym, subst, Bool, [], ◌∷◌, Memᴰ, ◌+◌, ◌&&◌, String}
use dumpster.Prelude.Tests.{if◌then◌else◌, ltb}
use dumpster.Prelude.Eq.{◌==◌, nat_eq}
use dumpster.Prelude.Map.{lookup, insert, delete}
use dumpster.Queue.Types.{Uuid}
use dumpster.CrossLink.Names.{Letters, is_capitalized, starts_upper, without_article, after_article}
use dumpster.CrossLink.{
  Candidate, Update, Repository, new, seed_candidates, pair_of, candidate_chains, apply_updates,
  list_confirmed, purge_low_quality, relation_of, confirmed, purge, record_updates,
}
use dumpster.CrossLink.Reviewed.{IsApart, candidate_chains-apply_updates}
use dumpster.CrossLink.Proper.{Shown, list_confirmed-purge_low_quality}

abbrev candidate : Uuid → Uuid → String → String → Candidate
candidate a b a_text b_text = record {
  entity_a_id = a;
  entity_a_text = a_text;
  chunk_a_id = 41;
  chunk_a_text = "";
  entity_b_id = b;
  entity_b_text = b_text;
  chunk_b_id = 42;
  chunk_b_text = "";
  bridge_chunk_text = "";
}

abbrev names : Candidate
names = candidate 21 22 "Kade" "the Harbor"

abbrev words : Candidate
words = candidate 23 24 "region" "Harbor"

abbrev seeds : Repository
seeds = seed_candidates 7 3 (names ∷ words ∷ []) new

abbrev update : Uuid → Uuid → Update
update a b = record {
  entity_a_id = a;
  entity_b_id = b;
  relation_type = "renamed";
  chunk_a_id = 41;
  chunk_b_id = 42;
}

candidate_chains-apply_updates_example :
    ((limit : ℕ)
      → Memᴰ words (candidate_chains 7 3 limit (apply_updates 7 (update 21 22 ∷ []) seeds))
      → Memᴰ words (candidate_chains 7 3 0 seeds) × IsApart (pair_of words) (update 21 22 ∷ []))
    × (Memᴰ words (candidate_chains 7 3 0 seeds) × IsApart (pair_of words) (update 21 22 ∷ [])
        → Memᴰ words (candidate_chains 7 3 0 (apply_updates 7 (update 21 22 ∷ []) seeds)))
candidate_chains-apply_updates_example =
    candidate_chains-apply_updates 7 3 (update 21 22 ∷ []) seeds words

-- The letters of plain ASCII.
abbrev is_upper : Char → Bool
is_upper c = ltb 64 (code c) && ltb (code c) 91

abbrev lower : Char → ℕ
lower c = if is_upper c then code c + 32 else code c

abbrev letters : Letters
letters = record { equal_fold = λ a b. lower a == lower b; is_upper = is_upper }

abbrev both : Repository
both = apply_updates 7 (update 21 22 ∷ update 23 24 ∷ []) seeds

shown : list_confirmed 7 3 (purge_low_quality letters 7 3 both).1 ≡ relation_of names "renamed" ∷ []
unfolding list_confirmed confirmed purge_low_quality purge apply_updates record_updates
    seed_candidates lookup insert delete is_capitalized starts_upper without_article after_article
shown = refl

list_confirmed-purge_low_quality_example : Shown letters (relation_of names "renamed")
list_confirmed-purge_low_quality_example =
    list_confirmed-purge_low_quality letters 7 3 both (relation_of names "renamed")
      (subst (Memᴰ (relation_of names "renamed")) (sym shown) (Memᴰ.head refl))
