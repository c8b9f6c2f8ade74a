-- ===== src/Middleware/RateLimit.antt =====
-- The rate limiting middleware (app/api/middleware/rate_limiter.py) over the cache service, and the
-- caller's address (app/utils/utils.py, `client_ip`).
--
-- The entries of `X-Forwarded-For`, split and stripped, are a list. Logging and the body of the 429
-- answer are left out; the time that the headers tell is left out of them.
pub mod Client
pub mod Tests
use fast_api_boiler_plate.Base.{
  ℕ, zero, suc, ◌+◌, ◌-◌, Bool, true, false, ◌||◌, Option, none, some, List, [], ◌∷◌, ◌++◌,
  if◌then◌else◌, Str, codes, str_eq, starts_with, leb, ◌==◌, any, length,
}
use fast_api_boiler_plate.Cache.Memory.{Decision}
use fast_api_boiler_plate.Cache.Service.{
  Backend, Settings, Clock, Service, Outcome, returned, raised,
}
use fast_api_boiler_plate.Cache.Service

pub record Tier : Type 0 where
  pub name : Str
  pub patterns : List Str
  pub requests : Option ℕ
  pub window : Option ℕ

pub record Limits : Type 0 where
  pub requests_limit : ℕ
  pub window_seconds : ℕ
  pub prefix : Str
  pub is_sliding : Bool
  pub tiers : List Tier

abbrev pub or_else : ℕ → Option ℕ → ℕ
or_else d none = d
or_else d (some n) = n

-- `pattern in path`
abbrev pub is_part : Str → Str → Bool
is_part pattern [] = str_eq pattern []
is_part pattern (c ∷ path) = starts_with pattern (c ∷ path) || is_part pattern path

-- The tier named "default", or its absence.
abbrev default_tier : Limits → List Tier → Str × ℕ × ℕ
default_tier limits [] = (codes "default", limits.requests_limit, limits.window_seconds)
default_tier limits (t ∷ ts) =
    if str_eq t.name (codes "default")
    then (
      codes "default",
      or_else limits.requests_limit t.requests,
      or_else limits.window_seconds t.window,
    )
    else default_tier limits ts

abbrev first_tier : Limits → Str → List Tier → Str × ℕ × ℕ
first_tier limits path [] = default_tier limits limits.tiers
first_tier limits path (t ∷ ts) =
    if any (λ p. is_part p path) t.patterns
    then (t.name, or_else limits.requests_limit t.requests, or_else limits.window_seconds t.window)
    else first_tier limits path ts

unfoldable pub determine_tier : Limits → Str → Str × ℕ × ℕ
determine_tier limits path = first_tier limits path limits.tiers

abbrev pub nth : ℕ → Str → List Str → Str
nth n d [] = d
nth zero d (x ∷ xs) = x
nth (suc n) d (x ∷ xs) = nth n d xs

-- The entry that many from the right, if there are as many trusted proxies.
unfoldable pub client_ip : ℕ → Str → List Str → Str
client_ip zero peer hops = peer
client_ip (suc n) peer hops =
    if leb (suc n) (length hops) then nth (length hops - suc n) peer hops else peer

-- The request is passed on, with the limit and what remains of it in the headers where it was
-- counted, or answered 429 with the seconds to wait.
pub data Answer : Type 0 where
  forwarded : Option (ℕ × ℕ) → Answer
  limited : ℕ × ℕ → ℕ → Answer

-- `int(retry_after or window)`
abbrev pub wait_of : Option ℕ → ℕ → ℕ
wait_of none window = window
wait_of (some n) window = if n == 0 then window else n

abbrev pub answer : ℕ → ℕ → Outcome Decision → Answer
answer limit window raised = forwarded none
answer limit window (returned d) =
    if d.allowed
    then forwarded (some (limit, limit - d.current))
    else limited (limit, limit - d.current) (wait_of d.retry_after window)

module _ {V : Type 0} (b : Backend V) (cfg : Settings) (limits : Limits) (trusted : ℕ) where
  unfoldable pub handle : Clock → Str → Str → Str → List Str → Service b → Answer × Service b
  unfolding determine_tier client_ip
  handle clock method path peer hops s =
      if str_eq method (codes "OPTIONS")
      then (forwarded none, s)
      else (let (tier, limit, window) = determine_tier limits path in
          let (outcome, s') =
            Service.hit b cfg clock
              (limits.prefix ++ tier ++ codes ":" ++ client_ip trusted peer hops) limit window
              limits.is_sliding s in
          (answer limit window outcome, s'))
