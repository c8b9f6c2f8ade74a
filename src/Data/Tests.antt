-- ===== src/Data/Tests.antt =====
-- The data service's theorems at concrete inputs.
use fast_api_boiler_plate.Base.{
  ℕ, ◌≡◌, refl, Bool, true, none, some, List, [], ◌∷◌, Time, ◌==◌, codes, lookup, insert, str_eq,
}
use fast_api_boiler_plate.Store.{get_record}
use fast_api_boiler_plate.Cache.Memory
use fast_api_boiler_plate.Cache.Service
use fast_api_boiler_plate.Cache.Service.{Settings, Clock, memory_backend}
use fast_api_boiler_plate.Data.{auto, get}
use fast_api_boiler_plate.Data.Laws.{same, Stored}
use fast_api_boiler_plate.Data.History.{
  Request, reading, changing, removing, Reply, record_found, has_matched,
}

abbrev cfg : Settings
cfg = record { default_ttl = 60; prefix = codes "app:"; cooldown = 30 }

abbrev at : Time → Clock
at t = record { asked = t; noticed = t }

abbrev is_seven : ℕ → Bool
is_seven d = d == 7

abbrev fresh : Stored ℕ
fresh = record {
  db = 5 ∷ 7 ∷ [];
  cache = record { backend = record { items = []; windows = []; fixed = [] }; skip_until = 0 };
}

abbrev requests : List (Request ℕ)
requests =
    reading (at 1) (at 2)
    ∷ reading (at 3) (at 3)
    ∷ changing (at 4) (λ d. d)
    ∷ reading (at 5) (at 5)
    ∷ removing (at 6)
    ∷ reading (at 7) (at 7)
    ∷ []

-- The second read is answered by the cache, the fourth by nobody.
abbrev replies : List (Reply ℕ)
replies =
    record_found (some 7)
    ∷ record_found (some 7)
    ∷ has_matched true
    ∷ record_found (some 7)
    ∷ has_matched true
    ∷ record_found none
    ∷ []

-- After the first read the record is cached.
read_fills :
    let filled = get (memory_backend same) cfg (at 1) (at 2) (codes "k") is_seven auto fresh in
    lookup (codes "app:k") filled.1.cache.backend.items ≡ some (7, some 60000002)
unfolding get get_record lookup Memory.get Memory.set Service.get Service.set str_eq insert
read_fills = refl
