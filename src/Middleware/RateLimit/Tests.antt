-- ===== src/Middleware/RateLimit/Tests.antt =====
-- The rate limiter's theorem at a concrete input.
use fast_api_boiler_plate.Base.{ℕ, Time, ◌≡◌, refl, true, none, some, [], ◌∷◌, codes}
use fast_api_boiler_plate.Cache.Service.{Settings, Clock, Service, memory_backend}
use fast_api_boiler_plate.Middleware.RateLimit.{Limits, handle}
use fast_api_boiler_plate.Middleware.RateLimit.Client.{handle-forged}

abbrev same : ℕ → ℕ
same v = v

abbrev cfg : Settings
cfg = record { default_ttl = 60; prefix = codes "app:"; cooldown = 30 }

abbrev at : Time → Clock
at t = record { asked = t; noticed = t }

abbrev working : Service (memory_backend same)
working = record { backend = record { items = []; windows = []; fixed = [] }; skip_until = 100 }

abbrev limits : Limits
limits = record {
  requests_limit = 5;
  window_seconds = 60;
  prefix = codes "rl:";
  is_sliding = true;
  tiers =
      record {
        name = codes "auth";
        patterns = codes "/login" ∷ [];
        requests = some 2;
        window = none;
      }
      ∷ [];
}

handle-forged_example :
    handle
      (memory_backend same)
      cfg
      limits
      1
      (at 200)
      (codes "POST")
      (codes "/login")
      (codes "p")
      (codes "x" ∷ codes "1" ∷ [])
      working
    ≡ handle
        (memory_backend same)
        cfg
        limits
        1
        (at 200)
        (codes "POST")
        (codes "/login")
        (codes "p")
        (codes "1" ∷ [])
        working
handle-forged_example =
    handle-forged (memory_backend same) cfg limits 1 (at 200) (codes "POST") (codes "/login")
      (codes "p") (codes "x" ∷ []) (codes "1" ∷ []) working refl
