-- ===== src/RateLimit.antt =====
-- The rate limiter and its middleware: internal/ratelimit/ratelimit.go, internal/ratelimit/memory/memory.go.
pub mod Window
pub mod Proxy
use Prim.Native.Char.{code}
use Prim.Native.String
use dumpster.Prelude.{ℕ, ◌+◌, String, Bool, true, false, Option, none, some, [], str_eq}
use dumpster.Prelude.Tests.{if◌then◌else◌, ltb, leb, nat_beq}
use dumpster.Prelude.Eq.{string_eq}
use dumpster.Prelude.Map.{Map, lookup, insert}
use dumpster.Document.{Time}

pub record Entry : Type 0 where
  pub count : ℕ
  pub window_end : Time

-- `Store`. `limit` is not negative; `window` is a duration in nanoseconds.
pub record Store : Type 0 where
  pub counters : Map String Entry
  pub limit : ℕ
  pub window : ℕ

-- `New`
abbrev pub new : ℕ → ℕ → Store
new limit window = record { counters = []; limit = limit; window = window }

open_window : Time → String → Store → Bool × Store
open_window now key s = (
  true,
  record s { counters = insert key (record { count = 1; window_end = now + s.window }) s.counters },
)

allow_entry : Time → String → Option Entry → Store → Bool × Store
unfolding open_window
allow_entry now key none s = open_window now key s
allow_entry now key (some e) s =
    if ltb e.window_end now
    then open_window now key s
    else if leb s.limit e.count
    then (false, s)
    else (
      true,
      record s {
        counters =
            insert key (record { count = e.count + 1; window_end = e.window_end }) s.counters;
      },
    )

-- `Store.Allow`, with `s.Now()` as an argument; it returns no error.
unfoldable pub allow : Time → String → Store → Bool × Store
unfolding allow_entry
allow now key s = allow_entry now key (lookup key s.counters) s

-- `fwd[strings.LastIndexByte(fwd, ',')+1:]`, `none` without a comma.
unfoldable pub after_last_comma : String → Option String
after_last_comma String.[] = none
after_last_comma (String.◌∷◌ c s) =
    let rest = after_last_comma s in
    elim rest [ some r ↦ some r | none ↦ if nat_beq (code c) b',' then some s else none ]

abbrev or_all : String → Option String → String
or_all s none = s
or_all s (some r) = r

-- `clientIP` on the value of the header `X-Forwarded-For`, "" if absent, and `RemoteAddr`. `trim` is
-- `strings.TrimSpace`, and `split` the host of `net.SplitHostPort`.
unfoldable pub client_ip : (String → String) → (String → Option String) → String → String → String
unfolding after_last_comma
client_ip trim split forwarded remote =
    if str_eq forwarded ""
    then or_all remote (split remote)
    else trim (or_all forwarded (after_last_comma forwarded))

module _ {W R : Type 0} (limiter : String → W → Option Bool × W) (next : W → R × W)
    (refusal : R) where
  decided : Option Bool × W → R × W
  decided (none, w) = next w
  decided (some false, w) = (refusal, w)
  decided (some true, w) = next w

  -- `Middleware`: `none` is the limiter's error, `next` is `next.ServeHTTP` and `refusal` the 429.
  unfoldable pub middleware : String → W → R × W
  unfolding decided
  middleware ip w = decided (limiter ip w)
