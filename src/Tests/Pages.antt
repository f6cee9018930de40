-- ===== src/Tests/Pages.antt =====
-- Examples of the theorems on chunks, stages, pages and request limits.
use Prim.Native.String.{◌++◌}
use mathlib.Core.List.{Perm}
use dumpster.Prelude.{
  String, ◌≡◌, ◌↔◌, ◌+◌, ◌-◌, min, zero, suc, refl, inl, inr, Bool, true, Option, none, some, List,
  [], ◌∷◌, Memᴰ, ℕ, arith,
}
use dumpster.Prelude.Lists.{length}
use dumpster.Prelude.Sort.{sort_by}
use dumpster.Prelude.Map.{lookup}
use dumpster.Prelude.Eq.{string_eq}
use dumpster.Queue.Types.{JobStatus, region_classification, entity_extraction}
use dumpster.Queue.Stage.{active_stage_keys, stages_for_document}
use dumpster.Queue.Stage.Keys.{Shows, stage_keys, active_stage_keys-mem_iff}
use dumpster.Chunk.Splitter.{
  Text, Chunk, FixedWindow, split, chunk_at, split_loop, end_of, next_of, align_after,
  align_to_rune_boundary, starts_rune, rune_start, step_of,
}
use dumpster.Chunk.Splitter.Windows.{Covers, rebuild}
use dumpster.Chunk.Splitter.Rebuild.{split-Covers, rebuild-split}
use dumpster.Chunk.Splitter.Runes.{HasRunes, AllCut, split-AllCut}
use dumpster.Document.{Document}
use dumpster.Server.Pagination.{paginate, before, nil_uuid}
use dumpster.Server.Pagination.Walk.{HasIds, follow, follow-paginate}
use dumpster.RateLimit.{new, after_last_comma, client_ip, middleware}
use dumpster.RateLimit.Window.{Call, asked, allowed, Until, allowed-min}
use dumpster.RateLimit.Proxy.{middleware-client_ip}
use dumpster.Tests.World.{report}

-- "aé漢bcdef" in UTF-8, and windows of eight bytes that advance by five.
abbrev text : Text
text = 97 ∷ 195 ∷ 169 ∷ 230 ∷ 188 ∷ 162 ∷ 98 ∷ 99 ∷ 100 ∷ 101 ∷ 102 ∷ []

abbrev windows : FixedWindow
windows = record { size = 8; overlap = 3 }

-- The cut at byte 5 would fall within the third rune, so the second chunk starts at byte 3.
abbrev two_chunks : List Chunk
two_chunks = chunk_at text 0 0 8 ∷ chunk_at text 1 3 11 ∷ []

two_chunks-split : split windows text ≡ some two_chunks
unfolding split split_loop end_of next_of align_after align_to_rune_boundary starts_rune rune_start
    step_of
two_chunks-split = refl

split-Covers_example :
    (cs : List Chunk) × (split windows text ≡ some cs) × Covers text windows.size 0 0 cs
split-Covers_example = split-Covers windows text (omega arith) (omega arith)

rebuild-split_example : rebuild two_chunks ≡ text
rebuild-split_example = rebuild-split windows text two_chunks (omega arith) two_chunks-split

text-HasRunes : HasRunes text
unfolding starts_rune rune_start
text-HasRunes zero h = (0, omega arith, omega arith, inl refl)
text-HasRunes (suc zero) h = (1, omega arith, omega arith, inr (inr refl))
text-HasRunes (suc (suc zero)) h = (1, omega arith, omega arith, inr (inr refl))
text-HasRunes (suc (suc (suc zero))) h = (3, omega arith, omega arith, inr (inr refl))
text-HasRunes (suc (suc (suc (suc zero)))) h = (3, omega arith, omega arith, inr (inr refl))
text-HasRunes (suc (suc (suc (suc (suc zero))))) h = (3, omega arith, omega arith, inr (inr refl))
text-HasRunes (suc (suc (suc (suc (suc (suc zero)))))) h =
    (6, omega arith, omega arith, inr (inr refl))
text-HasRunes (suc (suc (suc (suc (suc (suc (suc zero))))))) h =
    (7, omega arith, omega arith, inr (inr refl))
text-HasRunes (suc (suc (suc (suc (suc (suc (suc (suc zero)))))))) h =
    (8, omega arith, omega arith, inr (inr refl))
text-HasRunes (suc (suc (suc (suc (suc (suc (suc (suc (suc zero))))))))) h =
    (9, omega arith, omega arith, inr (inr refl))
text-HasRunes (suc (suc (suc (suc (suc (suc (suc (suc (suc (suc zero)))))))))) h =
    (10, omega arith, omega arith, inr (inr refl))
text-HasRunes (suc (suc (suc (suc (suc (suc (suc (suc (suc (suc (suc i))))))))))) h =
    absurd (omega arith)

split-AllCut_example : AllCut text two_chunks
split-AllCut_example =
    split-AllCut windows text two_chunks text-HasRunes (omega arith) two_chunks-split

-- Three documents, two of them created at the same time.
abbrev items : List Document
items =
    record report { id = 9; created_at = 4 }
    ∷ record report { id = 6; created_at = 2 }
    ∷ record report { id = 5; created_at = 4 }
    ∷ []

abbrev id_of : Document → ℕ
id_of d = d.id

abbrev created : Document → ℕ
created d = d.created_at

items-HasIds : HasIds id_of items
items-HasIds = ground arith

-- Pages of two.
follow-paginate_example :
    (follow id_of (suc (length items)) (paginate id_of created items 2) nil_uuid
      ≡ some (sort_by (before id_of created) items))
    × Perm (sort_by (before id_of created) items) items
follow-paginate_example = follow-paginate id_of created items 1 items-HasIds

abbrev jobs : List JobStatus
jobs =
    record { job_type = entity_extraction; phase = ""; status = "pending"; last_error = "" }
    ∷ record {
      job_type = region_classification;
      phase = "embedding";
      status = "processing";
      last_error = "";
    }
    ∷ []

active_stage_keys-mem_iff_example :
    Memᴰ "entities" (active_stage_keys true jobs)
    ↔ Memᴰ "entities" (stage_keys (stages_for_document true)) × Shows "entities" jobs
active_stage_keys-mem_iff_example = active_stage_keys-mem_iff true jobs "entities"

abbrev extraction : JobStatus
extraction = record {
  job_type = entity_extraction;
  phase = "";
  status = "pending";
  last_error = "";
}

-- Four requests of one client in a window of sixty, at most two allowed, and one of another.
abbrev requests : List Call
requests =
    record { at = 11; key = "10.0.0.1" }
    ∷ record { at = 12; key = "10.0.0.2" }
    ∷ record { at = 30; key = "10.0.0.1" }
    ∷ record { at = 70; key = "10.0.0.1" }
    ∷ []

allowed-min_example :
    allowed "10.0.0.1" (record { at = 10; key = "10.0.0.1" } ∷ requests) (new 2 60)
    ≡ 1 + min (asked "10.0.0.1" requests) (2 - 1)
unfolding lookup
allowed-min_example = allowed-min 10 "10.0.0.1" requests (new 2 60) (inl first) within
  where
    first : lookup "10.0.0.1" (new 2 60).counters ≡ none
    first = refl

    within : Until 70 requests
    within = (omega arith, (omega arith, (omega arith, (omega arith, tt))))

-- A limiter that counts what it is asked.
abbrev counting : String → ℕ → Option Bool × ℕ
counting key n = (some true, n + 1)

abbrev served : ℕ → ℕ × ℕ
served n = (200, n)

middleware-client_ip_example :
    middleware counting served 429
      (client_ip (λ s. s) (λ s. none) ("1.2.3.4, 5.6.7.8" ++ ("," ++ "10.0.0.1")) "10.0.0.9:80")
      0
    ≡ (200, 1)
unfolding after_last_comma
middleware-client_ip_example =
    middleware-client_ip counting served 429 (λ s. s) (λ s. none) "1.2.3.4, 5.6.7.8" "10.0.0.1"
      "10.0.0.9:80" 0 one_part
  where
    one_part : after_last_comma "10.0.0.1" ≡ none
    one_part = refl
