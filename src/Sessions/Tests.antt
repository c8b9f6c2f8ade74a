-- ===== src/Sessions/Tests.antt =====
-- The sessions' theorem at a concrete input.
use fast_api_boiler_plate.Base.{
  ◌≡◌, refl, false, none, some, [], ◌∷◌, Time, arith, codes, lookup, str_eq, erase,
}
use fast_api_boiler_plate.Store.{get_record, update_many}
use fast_api_boiler_plate.Cache.Memory
use fast_api_boiler_plate.Cache.Service.{Settings, Clock}
use fast_api_boiler_plate.Cache.Service
use fast_api_boiler_plate.Data.{fill, forget}
use fast_api_boiler_plate.Data
use fast_api_boiler_plate.Data.Laws.{Stored, IsCoherent}
use fast_api_boiler_plate.Sessions.{
  Session, cache_key, has_id, is_session_active, revoke_at, get_session, get_user_sessions,
  find_unpaged, live_ids, forget_all, revoke_user_sessions,
}
use fast_api_boiler_plate.Sessions.Revocation.{revoke_user_sessions-inactive}

abbrev pub cfg : Settings
cfg = record { default_ttl = 60; prefix = codes "app:"; cooldown = 30 }

abbrev pub at : Time → Clock
at t = record { asked = t; noticed = t }

abbrev pub phone : Session
phone = record {
  id = codes "p";
  user_id = codes "u";
  device_info = 0;
  created_at = 0;
  last_used_at = 0;
  expires_at = 100;
  revoked_at = none;
  updated_at = none;
  refresh_token_hash = some 5;
  previous_refresh_token_hash = none;
  rotated_at = none;
}

abbrev pub signed_in : Stored Session
signed_in = record {
  db = phone ∷ [];
  cache = record { backend = record { items = []; windows = []; fixed = [] }; skip_until = 0 };
}

pub signed_in-IsCoherent : IsCoherent cfg (cache_key (codes "p")) (has_id (codes "p")) signed_in
unfolding lookup
signed_in-IsCoherent v e held = absurd (cc)

revoke_user_sessions-inactive_example : is_session_active 50 (some (revoke_at 10 phone)) ≡ false
unfolding get_record update_many Memory.get Memory.delete Service.get Service.delete Service.require
    fill forget Data.get Data.update_many is_session_active get_session get_user_sessions
    find_unpaged live_ids forget_all revoke_user_sessions lookup str_eq erase
revoke_user_sessions-inactive_example =
    revoke_user_sessions-inactive cfg 10 (λ x. at 1) 10 50 (codes "u") none (codes "p") signed_in
      (λ x. omega arith) (omega arith) signed_in-IsCoherent (omega arith) (at 2) (at 3) refl refl
      refl
