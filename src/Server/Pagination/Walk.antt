-- ===== src/Server/Pagination/Walk.antt =====
-- A client that follows the cursors of internal/server/pagination.go.
use dumpster.Prelude.{
  ℕ, zero, suc, ◌+◌, ◌-◌, ◌≤◌, ◌<◌, min, ◌≡◌, ◌≢◌, refl, sym, ap, ◌∙◌, inl, inr, Bool, true, false,
  Option, none, some, List, [], ◌∷◌, ◌++◌, arith,
}
use mathlib.Core.List.{Perm}
use mathlib.Core.Option
use dumpster.Prelude.Tests.{
  if◌then◌else◌, nat_beq, ltb, Bool-cases, beq_ne, nat_beq_iff, some_eq, ltb_ne, lt→ltb, ltb→lt,
}
use dumpster.Prelude.Lists.{
  length, get_elem?, take, drop, take-append-drop, length-take, length-drop, drop-drop,
  take_of_length-le, get_elem?-take, get_elem?-drop, get_elem?-some,
}
use dumpster.Prelude.Sort.{place, sort_by, sort_by-perm, length-sort_by}
use dumpster.Queue.Types.{Uuid}
use dumpster.Document.{Time}
use dumpster.Server.Pagination.{Page, nil_uuid, before, cursor_loop, cursor_pos, page_of, paginate}

module _ {A : Type 0} (id : A → Uuid) where
  -- The ids are real, and no two items share one.
  abbrev pub NotIn : Uuid → List A → Type 0
  NotIn i [] = Unit
  NotIn i (x ∷ xs) = (i ≢ id x) × NotIn i xs

  abbrev pub HasIds : List A → Type 0
  HasIds [] = Unit
  HasIds (x ∷ xs) = (id x ≢ nil_uuid) × NotIn (id x) xs × HasIds xs

  NotIn-place :
      (less : A → A → Bool) (i : Uuid) (x : A) (ys : List A)
      → i ≢ id x
      → NotIn i ys
      → NotIn i (place less x ys)
  unfolding place
  NotIn-place less i x [] ne h = (ne, tt)
  NotIn-place less i x (y ∷ ys) ne h = elim (Bool-cases (less y x)) [
    | inl after ↦ rw after (h.0, NotIn-place less i x ys ne h.1)
    | inr here ↦ rw here (ne, h)
  ]

  HasIds-place :
      (less : A → A → Bool) (x : A) (ys : List A) → HasIds (x ∷ ys) → HasIds (place less x ys)
  unfolding place
  HasIds-place less x [] h = h
  HasIds-place less x (y ∷ ys) h = elim (Bool-cases (less y x)) [
    | inl after ↦ rw after (
      h.2.0,
      NotIn-place less (id y) x ys (λ e. h.1.0 (sym e)) h.2.1,
      HasIds-place less x ys (h.0, h.1.1, h.2.2),
    )
    | inr here ↦ rw here h
  ]

  NotIn-sort_by :
      (less : A → A → Bool) (i : Uuid) (xs : List A) → NotIn i xs → NotIn i (sort_by less xs)
  unfolding sort_by
  NotIn-sort_by less i [] h = tt
  NotIn-sort_by less i (x ∷ xs) h =
      NotIn-place less i x (sort_by less xs) h.0 (NotIn-sort_by less i xs h.1)

  HasIds-sort_by : (less : A → A → Bool) (xs : List A) → HasIds xs → HasIds (sort_by less xs)
  unfolding sort_by
  HasIds-sort_by less [] h = tt
  HasIds-sort_by less (x ∷ xs) h =
      HasIds-place less x (sort_by less xs)
        (h.0, NotIn-sort_by less (id x) xs h.1, HasIds-sort_by less xs h.2)

  NotIn-get :
      (i : Uuid) (xs : List A) (k : ℕ) (x : A)
      → NotIn i xs
      → get_elem? xs k ≡ some x
      → nat_beq i (id x) ≡ false
  NotIn-get i [] k x h e = absurd (cc)
  NotIn-get i (y ∷ ys) zero x h e = beq_ne i (id x) (λ q. h.0 (q ∙ ap id (sym (some_eq e))))
  NotIn-get i (y ∷ ys) (suc k) x h e = NotIn-get i ys k x h.1 e

  -- The cursor that an item gives is the position just after it.
  cursor_loop-get :
      (xs : List A) (i k : ℕ) (x : A)
      → HasIds xs
      → get_elem? xs k ≡ some x
      → cursor_loop id i xs (id x) ≡ i + k + 1
  unfolding cursor_loop
  cursor_loop-get [] i k x h e = absurd (cc)
  cursor_loop-get (y ∷ ys) i zero x h e =
      ground (arith, nat_beq_iff (id y) (id x), ap id (some_eq e))
  cursor_loop-get (y ∷ ys) i (suc k) x h e =
      rw (NotIn-get (id y) ys k x h.1 e) (omega (arith, cursor_loop-get ys (i + 1) k x h.2 e))

  HasIds-get : (xs : List A) (k : ℕ) (x : A) → HasIds xs → get_elem? xs k ≡ some x → id x ≢ nil_uuid
  HasIds-get [] k x h e = absurd (cc)
  HasIds-get (y ∷ ys) zero x h e = λ q. h.0 (ap id (some_eq e) ∙ q)
  HasIds-get (y ∷ ys) (suc k) x h e = HasIds-get ys k x h.2 e

  cursor_pos-get :
      (xs : List A) (k : ℕ) (x : A)
      → HasIds xs
      → get_elem? xs k ≡ some x
      → cursor_pos id xs (id x) ≡ k + 1
  unfolding cursor_pos
  cursor_pos-get xs k x h e =
      rw (beq_ne (id x) nil_uuid (HasIds-get xs k x h e))
        (omega (arith, cursor_loop-get xs 0 k x h e))

  -- The items that a client collects by following the cursors, on fuel.
  unfoldable pub follow : ℕ → (Uuid → Page A) → Uuid → Option (List A)
  follow zero page after = none
  follow (suc n) page after = elim (page after).next_cursor [
    | none ↦ some (page after).items
    | some c ↦ Option.map (λ (rest : List A). (page after).items ++ rest) (follow n page c)
  ]

  follow-none :
      (n : ℕ) (page : Uuid → Page A) (after : Uuid) (xs : List A)
      → page after ≡ record { items = xs; next_cursor = none }
      → follow (suc n) page after ≡ some xs
  unfolding follow
  follow-none n page after xs e = rw (e, follow) (ap (λ (p : Page A). some p.items) e)

  follow-some :
      (n : ℕ) (page : Uuid → Page A) (after c : Uuid) (xs ys : List A)
      → page after ≡ record { items = xs; next_cursor = some c }
      → follow n page c ≡ some ys
      → follow (suc n) page after ≡ some (xs ++ ys)
  unfolding follow
  follow-some n page after c xs ys e h =
      rw (e, follow, h) (ap (λ (p : Page A). some (p.items ++ ys)) e)

  ltb-min : (a b : ℕ) → (if ltb a b then a else b) ≡ min a b
  ltb-min a b = ground arith

  page_of-last :
      (xs : List A) (limit : ℕ) (after : Uuid)
      → length xs ≤ cursor_pos id xs after + limit
      → page_of id xs limit after
        ≡ record { items = drop (cursor_pos id xs after) xs; next_cursor = none }
  unfolding page_of
  page_of-last xs limit after h =
      let start = cursor_pos id xs after in
      let short : length (drop start xs) ≡ length xs - start = length-drop start xs in
      rw (ltb_ne (start + limit) (length xs) (omega arith), ltb-min (length xs) (start + limit))
        (ap (λ (ys : List A). record { items = ys; next_cursor = none })
          (take_of_length-le (min (length xs) (start + limit) - start) (drop start xs)
            (omega arith)))

  page_of-more :
      (xs : List A) (limit : ℕ) (after : Uuid) (x : A)
      → cursor_pos id xs after + suc limit < length xs
      → get_elem? xs (cursor_pos id xs after + limit) ≡ some x
      → page_of id xs (suc limit) after ≡ record {
        items = take (suc limit) (drop (cursor_pos id xs after) xs);
        next_cursor = some (id x);
      }
  unfolding page_of
  page_of-more xs limit after x h e =
      let start = cursor_pos id xs after in
      let slice = take (suc limit) (drop start xs) in
      let full : length slice ≡ suc limit =
        omega (arith, length-take (suc limit) (drop start xs), length-drop start xs) in
      let last : get_elem? slice limit ≡ some x =
        get_elem?-take (suc limit) limit (drop start xs) (omega arith)
        ∙ get_elem?-drop start limit xs
        ∙ e in
      let less : suc limit - 1 ≡ limit = omega arith in
      let some_left : ltb 0 (suc limit) ≡ true = lt→ltb 0 (suc limit) (omega arith) in
      let size : min (length xs) (start + suc limit) - start ≡ suc limit = omega arith in
      rw
        (
          lt→ltb (start + suc limit) (length xs) h,
          ltb-min (length xs) (start + suc limit),
          size,
          full,
          some_left,
          less,
          last,
        )
        refl

  -- From any cursor, following the cursors collects the rest of the list.
  follow-drop :
      (fuel : ℕ) (xs : List A) (limit : ℕ) (after : Uuid)
      → HasIds xs
      → cursor_pos id xs after ≤ length xs
      → length xs - cursor_pos id xs after < fuel
      → follow fuel (page_of id xs (suc limit)) after ≡ some (drop (cursor_pos id xs after) xs)
  unfolding follow
  follow-drop zero xs limit after h inside enough = absurd (omega arith)
  follow-drop (suc n) xs limit after h inside enough =
      elim (Bool-cases (ltb (cursor_pos id xs after + suc limit) (length xs))) [
        | inr last ↦
            follow-none n (page_of id xs (suc limit)) after _
              (page_of-last xs (suc limit) after (ground (arith, last)))
        | inl more ↦
            let start = cursor_pos id xs after in
            let lt : start + suc limit < length xs = ltb→lt (start + suc limit) (length xs) more in
            let (x, at) = get_elem?-some xs (start + limit) (omega arith) in
            let next : cursor_pos id xs (id x) ≡ start + suc limit =
              cursor_pos-get xs (start + limit) x h at ∙ omega arith in
            let rest = follow-drop n xs limit (id x) h (omega arith) (omega arith) in
            follow-some n (page_of id xs (suc limit)) after (id x) _ _
              (page_of-more xs limit after x lt at) rest
            ∙ rw (next, ← drop-drop (suc limit) start xs)
                (ap some (take-append-drop (suc limit) (drop start xs)))
      ]

module _ {A : Type 0} (id : A → Uuid) (created_at : A → Time) where
  -- A client that starts without a cursor and follows each page's cursor through an unchanged
  -- list gets all the items, each once, in the listing's order, within one page more than there
  -- are items. The limit is at least one, no ID is nil and no two items share one.
  pub follow-paginate :
      (items : List A) (limit : ℕ)
      → HasIds id items
      → follow id (suc (length items)) (paginate id created_at items (suc limit)) nil_uuid
          ≡ some (sort_by (before id created_at) items)
        × Perm (sort_by (before id created_at) items) items
  unfolding paginate cursor_pos
  follow-paginate items limit h =
      let order = sort_by (before id created_at) items in
      let same : length order ≡ length items = length-sort_by (before id created_at) items in
      (
        follow-drop id (suc (length items)) order limit nil_uuid
            (HasIds-sort_by id (before id created_at) items h) (omega arith) (omega (arith, same)),
        sort_by-perm (before id created_at) items,
      )
