-- ===== src/Worker/Edges/Derived.antt =====
-- Which edges internal/worker/edgehandler.go derives, and how many.
use native.Mathlib.Nat.{mul-le-mul_right}
use dumpster.Prelude.{
  ℕ, suc, ◌+◌, ◌*◌, ◌≤◌, ◌≡◌, refl, ap, inl, inr, false, List, [], ◌∷◌, ◌++◌, arith,
}
use dumpster.Prelude.Tests.{ltb, Bool-cases}
use dumpster.Prelude.Eq.{◌==◌, nat_eq}
use dumpster.Prelude.Lists.{length, length-append}
use dumpster.Prelude.Map.{Map, lookup, insert}
use dumpster.Queue.Types.{Uuid}
use dumpster.Entity.{Entity}
use dumpster.Worker.Edges.{
  max_entities_for_edges, group_at, add_to_group, group_by_chunk, edges_from, edges_within,
  edges_of, derive,
}

-- The mentions in all groups.
total : Map Uuid (List Entity) → ℕ
total [] = 0
total ((chunk, group) ∷ m) = length group + total m

total-insert :
    (chunk : Uuid) (group : List Entity) (m : Map Uuid (List Entity))
    → total (insert chunk group m) + length (group_at chunk m) ≡ total m + length group
unfolding total insert lookup
total-insert chunk group [] = omega arith
total-insert chunk group ((c, g) ∷ m) = elim (Bool-cases (c == chunk)) [
  | inl same ↦
      let at : group_at chunk ((c, g) ∷ m) ≡ g = ground (arith, same) in
      rw same (omega (arith, ap length at))
  | inr other ↦
      let at : group_at chunk ((c, g) ∷ m) ≡ group_at chunk m = ground (arith, other) in
      let rest = total-insert chunk group m in rw other (omega (arith, rest, ap length at))
]

group_by_chunk-total :
    (es : List Entity) (m : Map Uuid (List Entity))
    → total (group_by_chunk es m) ≡ total m + length es
unfolding group_by_chunk
group_by_chunk-total [] m = omega arith
group_by_chunk-total (e ∷ es) m =
    let g = group_at e.chunk_id m in
    omega (
      arith,
      group_by_chunk-total es (add_to_group e m),
      total-insert e.chunk_id (g ++ e ∷ []) m,
      length-append g (e ∷ []),
    )

module _ (doc kb user : Uuid) where
  length-edges_from :
      (x : Entity) (ys : List Entity) → length (edges_from doc kb user x ys) ≡ length ys
  unfolding edges_from
  length-edges_from x [] = refl
  length-edges_from x (y ∷ ys) = ap suc (length-edges_from x ys)

  length-edges_within :
      (xs : List Entity)
      → 2 * length (edges_within doc kb user xs) + length xs ≡ length xs * length xs
  unfolding edges_within
  length-edges_within [] = omega arith
  length-edges_within (x ∷ xs) = omega (
    arith,
    length-append (edges_from doc kb user x xs) (edges_within doc kb user xs),
    length-edges_from x xs,
    length-edges_within xs,
  )

  edges_within-Bounded :
      (xs : List Entity)
      → length xs ≤ max_entities_for_edges
      → length (edges_within doc kb user xs) ≤ 12 * length xs
  edges_within-Bounded xs h =
      let square : length xs * length xs ≤ 25 * length xs = mul-le-mul_right (length xs) h in
      omega (arith, length-edges_within xs, square)

  edges_of-Bounded : (m : Map Uuid (List Entity)) → length (edges_of doc kb user m) ≤ 12 * total m
  unfolding edges_of total
  edges_of-Bounded [] = omega arith
  edges_of-Bounded ((c, g) ∷ m) =
      let rest = edges_of-Bounded m in
      elim (Bool-cases (ltb max_entities_for_edges (length g))) [
        | inl large ↦ rw large (omega (arith, rest))
        | inr small ↦ rw small (
            omega (
              arith,
              rest,
              length-append (edges_within doc kb user g) (edges_of doc kb user m),
              edges_within-Bounded g (not_large g small),
            ))
      ]
    where
      not_large :
          (g : List Entity)
          → ltb max_entities_for_edges (length g) ≡ false
          → length g ≤ max_entities_for_edges
      not_large g small = ground (arith, small)

  -- A document has at most twelve derived edges for each of its mentions.
  pub derive-Bounded : (es : List Entity) → length (derive doc kb user es) ≤ 12 * length es
  unfolding derive total
  derive-Bounded es =
      omega (arith, edges_of-Bounded (group_by_chunk es []), group_by_chunk-total es [])
