-- ===== src/Accounts/Tests.antt =====
-- The accounts' theorems at concrete inputs.
use fast_api_boiler_plate.Base.{
  ◌≡◌, refl, true, false, none, some, [], ◌∷◌, arith, codes, lookup, str_eq, erase,
}
use fast_api_boiler_plate.Store.{get_record, update_record, update_many}
use fast_api_boiler_plate.Cache.Memory
use fast_api_boiler_plate.Cache.Service.{Backend}
use fast_api_boiler_plate.Cache.Service
use fast_api_boiler_plate.Data.{fill, forget}
use fast_api_boiler_plate.Data
use fast_api_boiler_plate.Users.{forget_cached, forget_field, update_user}
use fast_api_boiler_plate.Sessions.{
  is_session_active, revoke_at, get_session, get_user_sessions, find_unpaged, live_ids, forget_all,
  revoke_user_sessions,
}
use fast_api_boiler_plate.Sessions.Revocation.{memory}
use fast_api_boiler_plate.Sessions.Tests.{phone, signed_in, signed_in-IsCoherent, cfg, at}
use fast_api_boiler_plate.Auth.Tests.{users_backend, key, passwords, logins}
use fast_api_boiler_plate.Accounts.{
  ResetToken, Accounts, invalid_token, consume, confirm_password_reset, set_user_status,
}
use fast_api_boiler_plate.Accounts.Endings.{consumes, consume-once, set_user_status-ends}

abbrev token : ResetToken
token = record {
  token_hash = 4;
  user_id = codes "u";
  created_at = 0;
  expires_at = 90;
  used_at = none;
}

abbrev accounts : Accounts memory users_backend
accounts = record { users = logins.users; sessions = signed_in; resets = token ∷ [] }

consume-once_example :
    let s' =
      (consumes memory users_backend cfg 10 key passwords
        (λ p. true)
        60
        (λ x. at 1)
        (λ n. at 1)
        10
        4
        (codes "u")
        (codes "new")
        accounts).1 in
    ((consumes memory users_backend cfg 10 key passwords
        (λ p. true)
        60
        (λ x. at 1)
        (λ n. at 2)
        20
        4
        (codes "u")
        (codes "other")
        s').0
      ≡ invalid_token)
    × (confirm_password_reset memory users_backend cfg 10 key passwords
          (λ p. true)
          60
          (λ x. at 1)
          (λ n. at 2)
          20
          4
          (codes "other")
          s'
        ≡ (invalid_token, s'))
unfolding get_record update_record update_many Memory.get Memory.delete Service.get Service.delete
    Service.require fill forget Data.get Data.update Data.delete Data.update_many is_session_active
    get_user_sessions find_unpaged live_ids forget_all revoke_user_sessions lookup str_eq erase
    forget_cached forget_field update_user consume
consume-once_example =
    consume-once memory users_backend cfg 10 key passwords (λ p. true) 60 (λ x. at 1) (λ n. at 1)
      (λ n. at 2) 10 20 4 (codes "u") (codes "u") (codes "new") (codes "other") accounts {n = 1}
      (refl, tt) refl

set_user_status-ends_example : is_session_active 50 (some (revoke_at 10 phone)) ≡ false
unfolding get_record update_record update_many Memory.get Memory.delete Service.get Service.delete
    Service.require fill forget Data.get Data.update Data.delete Data.update_many is_session_active
    get_session get_user_sessions find_unpaged live_ids forget_all revoke_user_sessions lookup
    str_eq erase forget_cached forget_field update_user set_user_status
set_user_status-ends_example =
    set_user_status-ends users_backend cfg 10 key passwords (λ p. true) 60 (λ x. at 1) (λ n. at 1)
      10 50 (codes "u") (codes "disabled") (codes "p") accounts refl (λ x. omega arith)
      (omega arith) signed_in-IsCoherent (omega arith) (at 2) (at 3) refl refl refl
