-- ===== src/Worker/Edges/Groups.antt =====
-- The groups of mentions by chunk of internal/worker/edgehandler.go.
use mathlib.Core.List.Memᴰ.{not-nil}
use mathlib.Core.List.{Sublistᴰ, append-nil, append_assoc}
use mathlib.Core.List.Sublistᴰ as Sub
use dumpster.Prelude.{◌≡◌, refl, sym, ap, ◌∙◌, subst, inl, inr, List, [], ◌∷◌, ◌++◌, Memᴰ, arith}
use dumpster.Prelude.Tests.{Bool-cases}
use dumpster.Prelude.Eq.{◌==◌, nat_eq}
use dumpster.Prelude.Map.{Map, lookup, insert}
use dumpster.Queue.Types.{Uuid}
use dumpster.Entity.{Entity}
use dumpster.Worker.Edges.{group_at, add_to_group, group_by_chunk}

-- All mentions are of the chunk.
abbrev pub AreOf : Uuid → List Entity → Type 0
AreOf chunk [] = Unit
AreOf chunk (x ∷ xs) = (x.chunk_id ≡ chunk) × AreOf chunk xs

-- A group holds mentions of its chunk, each at its own place of the document's list and in its order.
pub record IsGroup (es : List Entity) (chunk : Uuid) (group : List Entity) : Type 0 where
  pub within : Sublistᴰ group es
  pub of_chunk : AreOf chunk group

unfoldable pub AreGrouped : List Entity → Map Uuid (List Entity) → Type 0
AreGrouped es [] = Unit
AreGrouped es ((chunk, group) ∷ m) = IsGroup es chunk group × AreGrouped es m

AreOf-snoc :
    (chunk : Uuid) (group : List Entity) (e : Entity)
    → AreOf chunk group
    → e.chunk_id ≡ chunk
    → AreOf chunk (group ++ e ∷ [])
AreOf-snoc chunk [] e h now = (now, tt)
AreOf-snoc chunk (x ∷ xs) e (here, rest) now = (here, AreOf-snoc chunk xs e rest now)

pub AreOf-mem :
    (chunk : Uuid) (group : List Entity) (x : Entity)
    → AreOf chunk group
    → Memᴰ x group
    → x.chunk_id ≡ chunk
AreOf-mem chunk [] x h absent = absurd (not-nil absent)
AreOf-mem chunk (y ∷ ys) x (here, rest) (Memᴰ.head same) =
    ap (λ (z : Entity). z.chunk_id) same ∙ here
AreOf-mem chunk (y ∷ ys) x (here, rest) (Memᴰ.tail later) = AreOf-mem chunk ys x rest later

group_at-IsGroup :
    (es : List Entity) (chunk : Uuid) (m : Map Uuid (List Entity))
    → AreGrouped es m
    → IsGroup es chunk (group_at chunk m)
unfolding AreGrouped lookup
group_at-IsGroup es chunk [] h = record { within = Sub.nil-sublist es; of_chunk = tt }
group_at-IsGroup es chunk ((c, g) ∷ m) (here, rest) = elim (Bool-cases (c == chunk)) [
  | inl same ↦
      let at : group_at chunk ((c, g) ∷ m) ≡ g = ground (arith, same) in
      subst (IsGroup es chunk) (sym at)
        (subst (λ (k : Uuid). IsGroup es k g) ((nat_eq.same_iff c chunk).0 same) here)
  | inr other ↦
      let at : group_at chunk ((c, g) ∷ m) ≡ group_at chunk m = ground (arith, other) in
      subst (IsGroup es chunk) (sym at) (group_at-IsGroup es chunk m rest)
]

insert-AreGrouped :
    (es : List Entity) (chunk : Uuid) (group : List Entity) (m : Map Uuid (List Entity))
    → IsGroup es chunk group
    → AreGrouped es m
    → AreGrouped es (insert chunk group m)
unfolding AreGrouped insert
insert-AreGrouped es chunk group [] now h = (now, tt)
insert-AreGrouped es chunk group ((c, g) ∷ m) now (here, rest) = elim (Bool-cases (c == chunk)) [
  | inl same ↦ rw same (now, rest)
  | inr other ↦ rw other (here, insert-AreGrouped es chunk group m now rest)
]

-- Groups stay groups when the list goes on.
AreGrouped-snoc :
    (es : List Entity) (e : Entity) (m : Map Uuid (List Entity))
    → AreGrouped es m
    → AreGrouped (es ++ e ∷ []) m
unfolding AreGrouped
AreGrouped-snoc es e [] h = tt
AreGrouped-snoc es e ((c, g) ∷ m) (here, rest) = (
  record { within = Sub.trans here.within (prefix es e); of_chunk = here.of_chunk },
  AreGrouped-snoc es e m rest,
)
  where
    prefix : (xs : List Entity) (x : Entity) → Sublistᴰ xs (xs ++ x ∷ [])
    prefix [] x = Sub.nil-sublist (x ∷ [])
    prefix (y ∷ ys) x = Sublistᴰ.cons-cons refl (prefix ys x)

Sublistᴰ-snoc :
    {xs ys : List Entity} (e : Entity) → Sublistᴰ xs ys → Sublistᴰ (xs ++ e ∷ []) (ys ++ e ∷ [])
Sublistᴰ-snoc e Sublistᴰ.slnil = Sublistᴰ.cons-cons refl Sublistᴰ.slnil
Sublistᴰ-snoc e (Sublistᴰ.cons s) = Sublistᴰ.cons (Sublistᴰ-snoc e s)
Sublistᴰ-snoc e (Sublistᴰ.cons-cons same s) = Sublistᴰ.cons-cons same (Sublistᴰ-snoc e s)

add_to_group-AreGrouped :
    (es : List Entity) (e : Entity) (m : Map Uuid (List Entity))
    → AreGrouped es m
    → AreGrouped (es ++ e ∷ []) (add_to_group e m)
add_to_group-AreGrouped es e m h =
    let g = group_at-IsGroup es e.chunk_id m h in
    insert-AreGrouped (es ++ e ∷ []) e.chunk_id _ m
      (record {
        within = Sublistᴰ-snoc e g.within;
        of_chunk = AreOf-snoc e.chunk_id _ e g.of_chunk refl;
      })
      (AreGrouped-snoc es e m h)

pub group_by_chunk-AreGrouped :
    (es xs : List Entity) (m : Map Uuid (List Entity))
    → AreGrouped es m
    → AreGrouped (es ++ xs) (group_by_chunk xs m)
unfolding group_by_chunk
group_by_chunk-AreGrouped es [] m h =
    subst (λ (l : List Entity). AreGrouped l m) (sym (append-nil es)) h
group_by_chunk-AreGrouped es (x ∷ xs) m h =
    subst (λ (l : List Entity). AreGrouped l (group_by_chunk xs (add_to_group x m)))
      (append_assoc es (x ∷ []) xs)
      (group_by_chunk-AreGrouped (es ++ x ∷ []) xs (add_to_group x m)
        (add_to_group-AreGrouped es x m h))
