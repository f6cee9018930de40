-- ===== src/Tests/Workers.antt =====
-- The edges of a document of three mentions, and a stateless job over the in-memory job store.
use dumpster.Prelude.{◌≡◌, ◌≤◌, ◌*◌, refl, none, List, [], ◌∷◌, Memᴰ}
use dumpster.Prelude.Eq.{nat_eq}
use dumpster.Prelude.Lists.{length}
use dumpster.Prelude.Map.{lookup, insert}
use dumpster.Queue.Types.{Uuid, edge_extraction}
use dumpster.Entity.{Entity}
use dumpster.GraphEdge.{new_edge}
use dumpster.Worker.{Handler}
use dumpster.Worker.Steps.{Input, StepHandler, key_of, run}
use dumpster.Worker.Steps.Recorded.{Ran, run-Ran}
use dumpster.Worker.Edges.{derive, edges_of, edges_within, edges_from, group_by_chunk}
use dumpster.Worker.Edges.Derived.{derive-Bounded}
use dumpster.Worker.Edges.Sound.{HaveIds, Derived, derive-Derived}
use dumpster.Tests.World.{World, jobs, jobs-IsAtomic, uploaded}

abbrev entity : Uuid → Uuid → Entity
entity id chunk = record {
  id = id;
  document_id = 5;
  kb_id = 3;
  user_id = 7;
  chunk_id = chunk;
  kind = "person";
  text = "kade";
  start = 0;
  end = 4;
  score = 0;
  canonical_entity_id = none;
}

-- Two mentions of one chunk, the higher ID first, and one of another chunk.
abbrev mentions : List Entity
mentions = entity 12 41 ∷ entity 11 41 ∷ entity 13 42 ∷ []

mentions_edges : derive 5 3 7 mentions ≡ new_edge 5 3 7 41 11 12 ∷ []
unfolding derive edges_of edges_within edges_from group_by_chunk lookup insert new_edge
mentions_edges = refl

derive-Bounded_example : length (derive 5 3 7 mentions) ≤ 12 * length mentions
derive-Bounded_example = derive-Bounded 5 3 7 mentions

mentions-HaveIds : HaveIds mentions
mentions-HaveIds = (((λ e. cc), ((λ e. cc), tt)), (((λ e. cc), tt), (tt, tt)))

derive-Derived_example : Derived 5 3 7 mentions (new_edge 5 3 7 41 12 11)
unfolding derive edges_of edges_within edges_from group_by_chunk lookup insert
derive-Derived_example =
    derive-Derived 5 3 7 mentions (new_edge 5 3 7 41 12 11) mentions-HaveIds (Memᴰ.head refl)

abbrev succeeds : Handler World
succeeds = record { handle = λ job w. (none, w); on_failed = λ job w. w }

abbrev steps : StepHandler World
steps = record {
  handlers = (edge_extraction, succeeds) ∷ [];
  status = jobs;
  sql_state = λ m. none;
  reason = λ e. "failed";
}

abbrev input : Input
input = record {
  job_type = edge_extraction;
  document_id = 5;
  user_id = 7;
  attempt = 1;
  error = none;
}

abbrev waiting : World
waiting = (jobs.enqueue (key_of input) uploaded).1

run-Ran_example :
    Ran steps succeeds jobs-IsAtomic (λ i w. refl) input waiting (run steps succeeds input waiting)
run-Ran_example = run-Ran steps succeeds jobs-IsAtomic (λ i w. refl) input waiting
