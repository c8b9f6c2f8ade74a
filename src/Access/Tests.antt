-- ===== src/Access/Tests.antt =====
-- The access control's theorems at concrete inputs.
use fast_api_boiler_plate.Base.{
  ◌≡◌, ◌↔◌, refl, true, none, some, [], ◌∷◌, arith, codes, lookup, str_eq, erase,
}
use fast_api_boiler_plate.Store.{get_record, update_record}
use fast_api_boiler_plate.Cache.Memory
use fast_api_boiler_plate.Cache.Service
use fast_api_boiler_plate.Data.{fill, forget as forget_key}
use fast_api_boiler_plate.Data
use fast_api_boiler_plate.Users.{get_user_by_id, update_user, forget_cached, forget_field}
use fast_api_boiler_plate.Users.Cached.{users_memory}
use fast_api_boiler_plate.Sessions.Tests.{cfg, at}
use fast_api_boiler_plate.Auth.Tests.{ann, logins, key}
use fast_api_boiler_plate.Access.Roles.{
  Roles, holds, expand, expand_all, get_role, resolve_role_inheritance, Grants,
}
use fast_api_boiler_plate.Access.Inheritance.{resolve_role_inheritance-Grants}
use fast_api_boiler_plate.Access.{Config, roles, Access, effective, sorted_set, change_list}
use fast_api_boiler_plate.Access.Changes.{
  sets_memory, IsFresh, resolve, change, change_list-effective,
}

-- The first two inherit from each other.
abbrev defined : Roles
defined =
    (1, record { permissions = codes "files:read" ∷ []; inherits = 2 ∷ [] })
    ∷ (2, record { permissions = codes "files:write" ∷ []; inherits = 1 ∷ 3 ∷ [] })
    ∷ []

cycle_cut : resolve_role_inheritance defined 1 ≡ codes "files:read" ∷ codes "files:write" ∷ []
unfolding resolve_role_inheritance expand expand_all get_role
cycle_cut = refl

resolve_role_inheritance-Grants_example :
    (holds (codes "files:write") (resolve_role_inheritance defined 1) ≡ true)
    ↔ Grants defined 1 (codes "files:write")
resolve_role_inheritance-Grants_example =
    resolve_role_inheritance-Grants defined 1 (codes "files:write")

abbrev pub config : Config
config = record { roles = defined; groups = []; permission_ttl = 60; cap = 10 }

abbrev state : Access users_memory sets_memory
state = record {
  users = logins.users;
  grants = [];
  cache = record {
    backend = record {
      items = (codes "app:user_permissions:u", (codes "*" ∷ [], none)) ∷ [];
      windows = [];
      fixed = [];
    };
    skip_until = 0;
  };
}

state-IsFresh : IsFresh cfg key config b'u' [] state
unfolding lookup
state-IsFresh v e held = absurd (cc)

change_list-effective_example :
    (resolve cfg key config b'u' []
      (λ n. at 9)
      9
      (change cfg key config b'u' [] (λ n. at 5) 5 roles 2 true true state).1).0
    ≡ sorted_set (effective config 9 [] (codes "u") (some (record ann { roles = 1 ∷ 2 ∷ [] })))
unfolding get_record update_record Memory.get Memory.set Memory.delete Service.get Service.set
    Service.delete Service.require fill forget_key Data.get Data.update Data.delete get_user_by_id
    update_user forget_cached forget_field change_list lookup str_eq erase
change_list-effective_example =
    change_list-effective cfg key config b'u' [] (λ n. at 5) 5 roles 2 true true (λ n. at 9) 9 state
      {r = ann} state-IsFresh refl (λ n. omega arith) (omega arith) refl
