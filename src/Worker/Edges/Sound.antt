-- ===== src/Worker/Edges/Sound.antt =====
-- Which mentions the edges of internal/worker/edgehandler.go join.
use mathlib.Core.List.Memᴰ.{append_cases, not-nil}
use mathlib.Core.List.{Sublistᴰ}
use mathlib.Core.List.Sublistᴰ as Sub
use dumpster.Prelude.{
  ◌<◌, ◌≡◌, ◌≢◌, ◌⊎◌, refl, sym, ap, ◌∙◌, subst, inl, inr, true, false, List, [], ◌∷◌, ◌++◌, Memᴰ,
  arith,
}
use dumpster.Prelude.Tests.{ltb, Bool-cases}
use dumpster.Prelude.Eq.{nat_eq}
use dumpster.Prelude.Lists.{length}
use dumpster.Prelude.Map.{Map}
use dumpster.Queue.Types.{Uuid}
use dumpster.Entity.{Entity}
use dumpster.GraphEdge.{Edge, new_edge}
use dumpster.Worker.Edges.{
  max_entities_for_edges, group_by_chunk, edges_from, edges_within, edges_of, derive,
}
use dumpster.Worker.Edges.Groups.{IsGroup, AreGrouped, AreOf-mem, group_by_chunk-AreGrouped}

-- No mention of the list has the ID.
abbrev Lacks : Uuid → List Entity → Type 0
Lacks id [] = Unit
Lacks id (x ∷ xs) = (id ≢ x.id) × Lacks id xs

-- The mentions have different IDs.
abbrev pub HaveIds : List Entity → Type 0
HaveIds [] = Unit
HaveIds (x ∷ xs) = Lacks x.id xs × HaveIds xs

Lacks-mem : (id : Uuid) (xs : List Entity) (y : Entity) → Lacks id xs → Memᴰ y xs → id ≢ y.id
Lacks-mem id [] y h absent = absurd (not-nil absent)
Lacks-mem id (x ∷ xs) y (here, rest) (Memᴰ.head same) =
    λ e. here (e ∙ ap (λ (z : Entity). z.id) same)
Lacks-mem id (x ∷ xs) y (here, rest) (Memᴰ.tail later) = Lacks-mem id xs y rest later

-- Two places of the list hold `x` and, after it, `y`.
abbrev pub Before : Entity → Entity → List Entity → Type 0
Before x y xs = Sublistᴰ (x ∷ y ∷ []) xs

single : (y : Entity) (xs : List Entity) → Memᴰ y xs → Sublistᴰ (y ∷ []) xs
single y [] absent = absurd (not-nil absent)
single y (x ∷ xs) (Memᴰ.head same) = Sublistᴰ.cons-cons same (Sub.nil-sublist xs)
single y (x ∷ xs) (Memᴰ.tail later) = Sublistᴰ.cons (single y xs later)

single-mem : (y : Entity) (xs : List Entity) → Sublistᴰ (y ∷ []) xs → Memᴰ y xs
single-mem y [] absent = elim absent [ ]
single-mem y (x ∷ xs) (Sublistᴰ.cons s) = Memᴰ.tail (single-mem y xs s)
single-mem y (x ∷ xs) (Sublistᴰ.cons-cons same s) = Memᴰ.head same

Before-mem : (x y : Entity) (xs : List Entity) → Before x y xs → Memᴰ x xs × Memᴰ y xs
Before-mem x y [] absent = elim absent [ ]
Before-mem x y (z ∷ zs) (Sublistᴰ.cons s) =
    let (a, b) = Before-mem x y zs s in (Memᴰ.tail a, Memᴰ.tail b)
Before-mem x y (z ∷ zs) (Sublistᴰ.cons-cons same s) =
    (Memᴰ.head same, Memᴰ.tail (single-mem y zs s))

Before-HaveIds : (x y : Entity) (xs : List Entity) → Before x y xs → HaveIds xs → x.id ≢ y.id
Before-HaveIds x y [] absent ids = elim absent [ ]
Before-HaveIds x y (z ∷ zs) (Sublistᴰ.cons s) (here, rest) = Before-HaveIds x y zs s rest
Before-HaveIds x y (z ∷ zs) (Sublistᴰ.cons-cons same s) (here, rest) =
    λ e. Lacks-mem z.id zs y here (single-mem y zs s) (sym (ap (λ (k : Entity). k.id) same) ∙ e)

module _ (doc kb user : Uuid) where
  -- The edge is the one that NewEdge makes of a mention of the list and a later one.
  pub record Joins (xs : List Entity) (e : Edge) : Type 0 where
    pub first : Entity
    pub second : Entity
    pub placed : Before first second xs
    pub made : e ≡ new_edge doc kb user first.chunk_id first.id second.id

  edges_from-Joins :
      (x : Entity) (ys : List Entity) (e : Edge)
      → Memᴰ e (edges_from doc kb user x ys)
      → (y : Entity) × Memᴰ y ys × (e ≡ new_edge doc kb user x.chunk_id x.id y.id)
  unfolding edges_from
  edges_from-Joins x [] e absent = absurd (not-nil absent)
  edges_from-Joins x (y ∷ ys) e (Memᴰ.head made) = (y, Memᴰ.head refl, made)
  edges_from-Joins x (y ∷ ys) e (Memᴰ.tail later) =
      let (z, held, made) = edges_from-Joins x ys e later in (z, Memᴰ.tail held, made)

  edges_within-Joins :
      (xs : List Entity) (e : Edge) → Memᴰ e (edges_within doc kb user xs) → Joins xs e
  unfolding edges_within
  edges_within-Joins [] e absent = absurd (not-nil absent)
  edges_within-Joins (x ∷ xs) e held = elim (append_cases (edges_from doc kb user x xs) held) [
    | inl from ↦
        let (y, later, made) = edges_from-Joins x xs e from in
        record {
          first = x;
          second = y;
          placed = Sublistᴰ.cons-cons refl (single y xs later);
          made = made;
        }
    | inr within ↦
        let j = edges_within-Joins xs e within in
        record {
          first = j.first;
          second = j.second;
          placed = Sublistᴰ.cons j.placed;
          made = j.made;
        }
  ]

  -- The edge joins a mention and a later one of the same chunk; it is of that chunk, and its two ends are
  -- the IDs of the two, the lower first.
  pub record Derived (es : List Entity) (e : Edge) : Type 0 where
    pub joins : Joins es e
    pub together : joins.first.chunk_id ≡ joins.second.chunk_id
    pub of_chunk : e.chunk_id ≡ joins.first.chunk_id
    pub ends :
        ((e.entity_a_id ≡ joins.first.id) × (e.entity_b_id ≡ joins.second.id))
        ⊎ ((e.entity_a_id ≡ joins.second.id) × (e.entity_b_id ≡ joins.first.id))
    pub ordered : e.entity_a_id < e.entity_b_id

  new_edge-ends :
      (chunk a b : Uuid)
      → let e = new_edge doc kb user chunk a b in
        ((e.entity_a_id ≡ a) × (e.entity_b_id ≡ b)) ⊎ ((e.entity_a_id ≡ b) × (e.entity_b_id ≡ a))
  unfolding new_edge
  new_edge-ends chunk a b = ground arith

  new_edge-ordered :
      (chunk a b : Uuid)
      → a ≢ b
      → (new_edge doc kb user chunk a b).entity_a_id < (new_edge doc kb user chunk a b).entity_b_id
  unfolding new_edge
  new_edge-ordered chunk a b ne = ground (arith, ne)

  of_group :
      (es : List Entity) (chunk : Uuid) (group : List Entity) (e : Edge)
      → HaveIds es
      → IsGroup es chunk group
      → Joins group e
      → Derived es e
  unfolding new_edge
  of_group es chunk group e ids g j =
      let (x, y) = Before-mem j.first j.second group j.placed in
      let at = AreOf-mem chunk group j.first g.of_chunk x in
      let there = AreOf-mem chunk group j.second g.of_chunk y in
      let placed : Before j.first j.second es = Sub.trans j.placed g.within in
      record {
        joins = record { first = j.first; second = j.second; placed = placed; made = j.made };
        together = at ∙ sym there;
        of_chunk = ap (λ (k : Edge). k.chunk_id) j.made;
        ends =
            subst
              (λ (k : Edge).
                ((k.entity_a_id ≡ j.first.id) × (k.entity_b_id ≡ j.second.id))
                ⊎ ((k.entity_a_id ≡ j.second.id) × (k.entity_b_id ≡ j.first.id)))
              (sym j.made) (new_edge-ends j.first.chunk_id j.first.id j.second.id);
        ordered =
            subst (λ (k : Edge). k.entity_a_id < k.entity_b_id) (sym j.made)
              (new_edge-ordered j.first.chunk_id j.first.id j.second.id
                (Before-HaveIds j.first j.second es placed ids));
      }

  edges_of-Derived :
      (es : List Entity) (m : Map Uuid (List Entity)) (e : Edge)
      → HaveIds es
      → AreGrouped es m
      → Memᴰ e (edges_of doc kb user m)
      → Derived es e
  unfolding edges_of AreGrouped
  edges_of-Derived es [] e ids h absent = absurd (not-nil absent)
  edges_of-Derived es ((c, g) ∷ m) e ids (here, rest) held =
      elim (Bool-cases (ltb max_entities_for_edges (length g))) [
        | inl large ↦ edges_of-Derived es m e ids rest (subst (Memᴰ e) (skip large) held)
        | inr small ↦
            elim (append_cases (edges_within doc kb user g) (subst (Memᴰ e) (join small) held)) [
              | inr later ↦ edges_of-Derived es m e ids rest later
              | inl within ↦ of_group es c g e ids here (edges_within-Joins g e within)
            ]
      ]
    where
      skip :
          ltb max_entities_for_edges (length g) ≡ true
          → edges_of doc kb user ((c, g) ∷ m) ≡ edges_of doc kb user m
      skip large = rw large refl

      join :
          ltb max_entities_for_edges (length g) ≡ false
          → edges_of doc kb user ((c, g) ∷ m) ≡ edges_within doc kb user g ++ edges_of doc kb user m
      join small = rw small refl

  -- Where the mentions of a document have different IDs, every edge that is derived for it is the one that
  -- NewEdge makes of a mention and another one, later in the list and of the same chunk; the edge is of
  -- that chunk, and its two ends are the IDs of the two mentions, the first lower than the second.
  pub derive-Derived :
      (es : List Entity) (e : Edge) → HaveIds es → Memᴰ e (derive doc kb user es) → Derived es e
  unfolding derive AreGrouped
  derive-Derived es e ids =
      edges_of-Derived es (group_by_chunk es []) e ids (group_by_chunk-AreGrouped [] es [] tt)
