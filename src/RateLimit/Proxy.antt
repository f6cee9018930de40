-- ===== src/RateLimit/Proxy.antt =====
-- Whose quota a request is charged to behind the one trusted proxy: internal/ratelimit/ratelimit.go.
use Prim.Native.String.{◌++◌}
use text.Mathlib.TextLemmas.{nil-append, cons-append, append-eq-nil_iff}
use dumpster.Prelude.{
  String, ◌≡◌, refl, inl, inr, Bool, true, false, Option, none, some, str_eq, str_eq_iff,
}
use dumpster.Prelude.Tests.{Bool-cases}
use dumpster.RateLimit.{after_last_comma, client_ip, middleware, decided}

-- What follows the last comma, when the last part has none.
after_last_comma-append :
    (spoofed ip : String)
    → after_last_comma ip ≡ none
    → after_last_comma (spoofed ++ ("," ++ ip)) ≡ some ip
unfolding after_last_comma
after_last_comma-append String.[] ip h = rw (nil-append ("," ++ ip)) (comma ip h)
  where
    comma : (t : String) → after_last_comma t ≡ none → after_last_comma ("," ++ t) ≡ some t
    comma t e = rw (cons-append "," "" t, nil-append t) (rw e refl)
after_last_comma-append (String.◌∷◌ c s) ip h =
    rw (cons-append c s ("," ++ ip)) (rw (after_last_comma-append s ip h, after_last_comma) refl)

comma_ne : ¬ Path String "," ""
comma_ne e = cc

append_ne_empty : (spoofed ip : String) → str_eq (spoofed ++ ("," ++ ip)) "" ≡ false
append_ne_empty spoofed ip = elim (Bool-cases (str_eq (spoofed ++ ("," ++ ip)) "")) [
  | inr other ↦ other
  | inl same ↦
      let tail : "," ++ ip ≡ "" = (append-eq-nil_iff.0 ((str_eq_iff _ _).0 same)).1 in
      absurd (comma_ne (append-eq-nil_iff.0 tail).0)
]

module _ {W R : Type 0} (limiter : String → W → Option Bool × W) (next : W → R × W)
    (refusal : R) where
  -- The proxy appends the address of its peer, which holds no comma, to `X-Forwarded-For`.
  -- Whatever a client has put before it, the request is charged to that address alone, and it is
  -- refused exactly when the limiter denies that address: where the limiter fails, the request
  -- goes through.
  pub middleware-client_ip :
      (trim : String → String) (split : String → Option String) (spoofed ip remote : String) (w : W)
      → after_last_comma ip ≡ none
      → middleware limiter next refusal (client_ip trim split (spoofed ++ ("," ++ ip)) remote) w ≡ (
          let (answer, v) = limiter (trim ip) w in
          elim answer [ some false ↦ (refusal, v) | _ ↦ next v ])
  unfolding middleware client_ip decided
  middleware-client_ip trim split spoofed ip remote w h =
      rw (append_ne_empty spoofed ip, after_last_comma-append spoofed ip h)
        (answered (limiter (trim ip) w))
    where
      answered :
          (o : Option Bool × W)
          → decided limiter next refusal o ≡ elim o.0 [ some false ↦ (refusal, o.1) | _ ↦ next o.1 ]
      answered (none, v) = refl
      answered (some false, v) = refl
      answered (some true, v) = refl
