-- ===== src/RateLimit/Window.antt =====
-- How many requests the fixed-window limiter of internal/ratelimit/memory/memory.go lets through.
use dumpster.Prelude.{
  ℕ, ◌+◌, ◌-◌, ◌≤◌, ◌<◌, min, String, ◌≡◌, refl, ap, ◌∙◌, ◌⊎◌, inl, inr, true, false, Option, none,
  some, List, [], ◌∷◌, arith, str_eq_iff,
}
use dumpster.Prelude.Tests.{if◌then◌else◌, ltb, leb, Bool-cases, ltb_ne, lt→ltb, leb→le}
use dumpster.Prelude.Eq.{◌==◌, string_eq, ==_refl}
use dumpster.Prelude.Map.{Map, lookup, insert, lookup-insert}
use dumpster.Document.{Time}
use dumpster.RateLimit.{Entry, Store, allow, allow_entry, open_window}

-- A request: when it came, and whose it is.
pub record Call : Type 0 where
  pub at : Time
  pub key : String

-- The requests of `key`, and those of them that were let through.
unfoldable pub asked : String → List Call → ℕ
asked key [] = 0
asked key (c ∷ cs) = (if c.key == key then 1 else 0) + asked key cs

unfoldable pub allowed : String → List Call → Store → ℕ
unfolding allow
allowed key [] s = 0
allowed key (c ∷ cs) s =
    let (ok, t) = allow c.at c.key s in
    (if c.key == key then (if ok then 1 else 0) else 0) + allowed key cs t

-- Every request comes no later than `limit`.
abbrev pub Until : Time → List Call → Type 0
Until stop [] = Unit
Until stop (c ∷ cs) = (c.at ≤ stop) × Until stop cs

keeps-insert :
    (key j : String) (e : Entry) (m : Map String Entry)
    → (key == j) ≡ false
    → lookup j (insert key e m) ≡ lookup j m
keeps-insert key j e m ne = lookup-insert key j e m ∙ rw ne refl

-- A request of another key.
allow-other :
    (now : Time) (key j : String) (s : Store)
    → (key == j) ≡ false
    → (lookup j (allow now key s).1.counters ≡ lookup j s.counters)
      × ((allow now key s).1.limit ≡ s.limit)
unfolding allow
allow-other now key j s ne = entry (lookup key s.counters)
  where
    entry :
        (o : Option Entry)
        → (lookup j (allow_entry now key o s).1.counters ≡ lookup j s.counters)
          × ((allow_entry now key o s).1.limit ≡ s.limit)
    entry none = (keeps-insert key j _ s.counters ne, refl)
    entry (some e) = elim (Bool-cases (ltb e.window_end now)) [
      | inl over ↦ rw over (keeps-insert key j _ s.counters ne, refl)
      | inr open_yet ↦ elim (Bool-cases (leb s.limit e.count)) [
        | inl full ↦ rw (open_yet, full) (refl, refl)
        | inr free ↦ rw (open_yet, free) (keeps-insert key j _ s.counters ne, refl)
      ]
    ]

counted : Entry → Entry
counted e = record { count = e.count + 1; window_end = e.window_end }

-- A request in an open window.
allow-open :
    (now : Time) (key : String) (s : Store) (e : Entry)
    → lookup key s.counters ≡ some e
    → now ≤ e.window_end
    → allow now key s ≡ (
        if leb s.limit e.count
        then (false, s)
        else (true, record s { counters = insert key (counted e) s.counters }))
unfolding allow allow_entry counted
allow-open now key s e at inside = rw (at, ltb_ne e.window_end now (omega arith)) refl

leb_lt : (a b : ℕ) → leb a b ≡ false → b < a
leb_lt a b h = ground arith

-- Within a window, the requests let through are the first that the limit leaves room for.
allowed-open :
    (key : String) (cs : List Call) (s : Store) (e : Entry)
    → lookup key s.counters ≡ some e
    → Until e.window_end cs
    → allowed key cs s ≡ min (asked key cs) (s.limit - e.count)
unfolding allowed asked counted
allowed-open key [] s e at h = omega arith
allowed-open key (c ∷ cs) s e at h = elim (Bool-cases (c.key == key)) [
  | inr other ↦
      let (same, limit) = allow-other c.at c.key key s other in
      let rest = allowed-open key cs (allow c.at c.key s).1 e (same ∙ at) h.1 in
      rw other (omega (arith, rw limit at rest))
  | inl own ↦
      let mine : c.key ≡ key = (str_eq_iff c.key key).0 own in
      elim (Bool-cases (leb s.limit e.count)) [
        | inl full ↦
            rw (own, mine, allow-open c.at key s e at h.0, full)
              (omega (arith, allowed-open key cs s e at h.1, leb→le s.limit e.count full))
        | inr free ↦
            let t : Store = record s { counters = insert key (counted e) s.counters } in
            rw (own, mine, allow-open c.at key s e at h.0, free)
              (omega (
                arith,
                allowed-open key cs t (counted e)
                    (lookup-insert key key (counted e) s.counters ∙ rw (==_refl key) refl) h.1,
                leb_lt s.limit e.count free,
              ))
      ]
]

-- When a request opens a window for its key, and all later requests come before that window ends,
-- then whatever other keys ask in between, exactly the key's first requests are let through, as
-- many as the limit says, and one if the limit is zero.
pub allowed-min :
    (now : Time) (key : String) (cs : List Call) (s : Store)
    → (lookup key s.counters ≡ none)
      ⊎ ((e : Entry) × (lookup key s.counters ≡ some e) × (e.window_end < now))
    → Until (now + s.window) cs
    → allowed key (record { at = now; key = key } ∷ cs) s ≡ 1 + min (asked key cs) (s.limit - 1)
unfolding allowed allow
allowed-min now key cs s closed h = rw (==_refl key) (opened closed)
  where
    opened_store : Store
    opened_store = (open_window now key s).1

    rest : allowed key cs opened_store ≡ min (asked key cs) (s.limit - 1)
    rest =
        allowed-open key cs opened_store (record { count = 1; window_end = now + s.window })
          (lookup-insert key key _ s.counters ∙ rw (==_refl key) refl) h

    opened :
        (lookup key s.counters ≡ none)
          ⊎ ((e : Entry) × (lookup key s.counters ≡ some e) × (e.window_end < now))
        → (if (allow_entry now key (lookup key s.counters) s).0 then 1 else 0)
            + allowed key cs (allow_entry now key (lookup key s.counters) s).1
          ≡ 1 + min (asked key cs) (s.limit - 1)
    opened (inl none_yet) = rw none_yet (ap (λ (n : ℕ). 1 + n) rest)
    opened (inr (e, at, over)) = rw (at, lt→ltb e.window_end now over) (ap (λ (n : ℕ). 1 + n) rest)
