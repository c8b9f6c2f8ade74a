-- ===== src/Cache/Tests.antt =====
-- The cache's theorems at concrete inputs.
use fast_api_boiler_plate.Base.{
  ℕ, ◌+◌, ◌*◌, ◌≡◌, refl, ◌≤◌, true, false, ◌||◌, none, some, [], ◌∷◌, Time, arith, ltb, ◌==◌,
  if◌then◌else◌, codes, lookup, insert, str_eq, starts_with,
}
use fast_api_boiler_plate.Cache.Memory
use fast_api_boiler_plate.Cache.Memory.{Memory, second, hit}
use fast_api_boiler_plate.Cache.Rate.{served, within, served-le-limit}
use fast_api_boiler_plate.Cache.Contents.{get-set, add_exclusive, lookup-delete_prefix}
use fast_api_boiler_plate.Cache.Service.{
  Backend, Settings, Clock, Service, raised, memory_backend, get,
}
use fast_api_boiler_plate.Cache.Circuit.{
  add_of, get_of, hit_of, clear_of, unavailable, all_unavailable, perform_all, cooling,
  get-recovers,
}

abbrev same : ℕ → ℕ
same v = v

abbrev empty : Memory ℕ
empty = record { items = []; windows = []; fixed = [] }

-- The third request within ten seconds waits; the fourth is served once the first is old.
served_three :
    served (codes "k") 2 10 empty (0 ∷ 4000000 ∷ 9000000 ∷ 10000000 ∷ [])
    ≡ 0 ∷ 4000000 ∷ 10000000 ∷ []
unfolding served hit lookup insert str_eq
served_three = refl

served-le-limit_example :
    within 12000000 (10 * second) (served (codes "k") 2 10 empty (0 ∷ 4000000 ∷ 9000000 ∷ [])) ≤ 2
unfolding lookup
served-le-limit_example =
    served-le-limit (codes "k") 2 10 empty (0 ∷ 4000000 ∷ 9000000 ∷ []) refl (omega arith) 12000000

get-set_example :
    ((Memory.get same 4 (codes "k") (Memory.set same 3 (codes "k") 7 (some 2) empty).1).0
      ≡ (if 2 == 0 || ltb 4 (3 + 2 * second) then some 7 else none))
    × (str_eq (codes "k") (codes "j") ≡ false
        → (Memory.get same 4 (codes "j") (Memory.set same 3 (codes "k") 7 (some 2) empty).1).0
          ≡ (Memory.get same 4 (codes "j") empty).0)
get-set_example = get-set same 3 4 (codes "k") (codes "j") 7 2 empty

claimed : (Memory.add same 3 (codes "k") 7 (some 2) empty).0 ≡ true
unfolding Memory.add lookup
claimed = refl

add_exclusive_example :
    Memory.add same 5 (codes "k") 8 none (Memory.add same 3 (codes "k") 7 (some 2) empty).1
    ≡ (false, (Memory.add same 3 (codes "k") 7 (some 2) empty).1)
add_exclusive_example =
    add_exclusive same 3 5 (codes "k") 7 8 2 none empty (omega arith) (omega arith) claimed

abbrev cfg : Settings
cfg = record { default_ttl = 60; prefix = codes "app:"; cooldown = 30 }

-- A backend that never answers.
abbrev broken : Backend ℕ
broken = record {
  State = Unit {0};
  get = λ now key s. (raised, s);
  set = λ now key v ttl s. (raised, s);
  add = λ now key v ttl s. (raised, s);
  delete = λ now key s. (raised, s);
  delete_prefix = λ now prefix s. (raised, s);
  hit = λ now key limit window sliding s. (raised, s);
}

abbrev resting : Service broken
resting = record { backend = tt; skip_until = 100 }

abbrev at : Time → Clock
at t = record { asked = t; noticed = t }

-- The failed claim at 120 keeps the backend out of the calls up to 30 seconds later.
cooling_example :
    perform_all broken cfg
      ((record { asked = 120; noticed = 125 }, add_of (codes "k") 7 none)
        ∷ (at 130, get_of (codes "k"))
        ∷ (at 140, hit_of (codes "r") 5 60 true)
        ∷ (at 30000000, clear_of (codes "k*"))
        ∷ [])
      resting
    ≡ (
      unavailable (add_of (codes "k") 7 none)
          ∷ all_unavailable broken cfg (
              (at 130, get_of (codes "k"))
              ∷ (at 140, hit_of (codes "r") 5 60 true)
              ∷ (at 30000000, clear_of (codes "k*"))
              ∷ []),
      record { backend = tt; skip_until = 125 + 30 * second },
    )
cooling_example =
    cooling broken cfg (record { asked = 120; noticed = 125 }) (add_of (codes "k") 7 none) resting
      ((at 130, get_of (codes "k"))
        ∷ (at 140, hit_of (codes "r") 5 60 true)
        ∷ (at 30000000, clear_of (codes "k*"))
        ∷ [])
      {st = tt} (omega arith) refl (omega arith, (omega arith, (omega arith, tt)))

abbrev working : Service (memory_backend same)
working = record { backend = empty; skip_until = 100 }

get-recovers_example :
    get (memory_backend same) cfg (at 200) (codes "k") working
    ≡ (none, record { backend = empty; skip_until = 100 })
unfolding Memory.get lookup
get-recovers_example =
    get-recovers (memory_backend same) cfg (at 200) (codes "k") working {found = none} {st = empty}
      (omega arith) refl

abbrev two : Memory ℕ
two = record empty { items = (codes "ab", (1, none)) ∷ (codes "b", (2, none)) ∷ [] }

lookup-delete_prefix_example :
    lookup (codes "b") (Memory.delete_prefix same (codes "a") two).1.items
    ≡ (if starts_with (codes "a") (codes "b") then none else lookup (codes "b") two.items)
lookup-delete_prefix_example = lookup-delete_prefix same (codes "a") (codes "b") two
