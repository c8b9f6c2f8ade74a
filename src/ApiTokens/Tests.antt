-- ===== src/ApiTokens/Tests.antt =====
-- A token issued, used and revoked (app/services/auth/api_tokens.py).
use fast_api_boiler_plate.Base.{
  ℕ, ◌+◌, ◌*◌, ◌≤◌, ◌≡◌, refl, true, none, some, any, List, [], ◌∷◌, codes, str_eq,
}
use fast_api_boiler_plate.Store.{count, get_record}
use fast_api_boiler_plate.Data
use fast_api_boiler_plate.Users.{get_user_by_id}
use fast_api_boiler_plate.Access.{str_lt, sorted_set}
use fast_api_boiler_plate.Sessions.Tests.{cfg, at}
use fast_api_boiler_plate.Auth.Tests.{users_backend, key, logins}
use fast_api_boiler_plate.ApiTokens.{
  ApiToken, Config, issued, invalid_scopes, create, revoke, authenticate, is_scope,
}
use fast_api_boiler_plate.ApiTokens.Lifecycle.{authenticate-create}

abbrev config : Config
config = record { max_days = 30; per_user = 2; day = 24; minute = 1 }

abbrev old : ApiToken
old = record {
  id = 1;
  user_id = codes "v";
  name = 0;
  token_hash = 50;
  scopes = codes "*" ∷ [];
  created_at = 0;
  expires_at = 9;
  last_used_at = none;
}

abbrev asked : List (List ℕ)
asked = codes "users:read" ∷ codes "jobs:*" ∷ codes "users:read" ∷ []

abbrev made : ApiToken
made = record {
  id = 2;
  user_id = codes "u";
  name = 0;
  token_hash = 60;
  scopes = codes "jobs:*" ∷ codes "users:read" ∷ [];
  created_at = 100;
  expires_at = 172;
  last_used_at = none;
}

made_of : create config 100 2 60 (codes "u") 0 asked 3 (old ∷ []) ≡ (issued made, old ∷ made ∷ [])
unfolding create is_scope str_eq str_lt sorted_set count
made_of = refl

-- A resource without an action is no scope; a newline that ends one is let through.
half_scope : create config 100 2 60 (codes "u") 0 (codes "users" ∷ []) 3 [] ≡ (invalid_scopes, [])
unfolding create is_scope str_eq
half_scope = refl

scope_with_newline : is_scope (b'a' ∷ b':' ∷ b'b' ∷ 10 ∷ []) ≡ true
unfolding is_scope str_eq
scope_with_newline = refl

authenticate-create_example :
    (172 ≡ 100 + 3 * 24)
    × (3 ≤ 30)
    × ((x : List ℕ) → any (str_eq x) made.scopes ≡ any (str_eq x) asked)
    × ((authenticate users_backend cfg key config (at 150) 150 60 (old ∷ made ∷ []) logins.users).0
        ≡ some (record {
          user_id = codes "u";
          username = codes "ann";
          roles = 1 ∷ [];
          exp = 172;
          scopes = codes "jobs:*" ∷ codes "users:read" ∷ [];
        }))
    × (revoke (codes "u") 2 (old ∷ made ∷ []) ≡ (true, old ∷ []))
    × (authenticate users_backend cfg key config
          (at 150)
          150
          60
          (revoke (codes "u") 2 (old ∷ made ∷ [])).1
          logins.users
        ≡ (none, old ∷ [], logins.users))
unfolding get_user_by_id Data.get str_eq get_record
authenticate-create_example =
    authenticate-create users_backend cfg key config 100 2 60 (codes "u") 0 asked 3 (old ∷ [])
      (old ∷ made ∷ []) made (at 150) 150 logins.users refl refl made_of
