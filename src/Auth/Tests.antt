-- ===== src/Auth/Tests.antt =====
-- The authentication service's theorems at concrete inputs.
use fast_api_boiler_plate.Base.{
  ◌≡◌, refl, true, false, none, some, [], ◌∷◌, Time, arith, codes, lookup, str_eq, erase, insert,
  Str,
}
use fast_api_boiler_plate.Store.{get_record, update_record}
use fast_api_boiler_plate.Cache.Memory
use fast_api_boiler_plate.Cache.Service.{Backend, Settings, Clock, memory_backend}
use fast_api_boiler_plate.Cache.Service
use fast_api_boiler_plate.Data.{fill, forget}
use fast_api_boiler_plate.Data
use fast_api_boiler_plate.Data.Laws.{same}
use fast_api_boiler_plate.Users.{User, Field, get_user_by_id}
use fast_api_boiler_plate.Sessions.{is_session_active, get_session, update_session}
use fast_api_boiler_plate.Sessions.Tests.{signed_in, signed_in-IsCoherent, cfg, at}
use fast_api_boiler_plate.Auth.{Lock, Passwords, Logins}
use fast_api_boiler_plate.Auth.Lockout.{IsStored, run_attempt, attempt-succeeds}
use fast_api_boiler_plate.Auth.Guesses.{Guess, try_password, guess_all, authenticate-locked_out}
use fast_api_boiler_plate.Auth.Refresh.{
  Tokens, State, is_current_refresh_token, rotate_tokens, refresh_tokens,
}
use fast_api_boiler_plate.Auth.Stored.{memory}
use fast_api_boiler_plate.Auth.Rotation.{refresh, refresh_tokens-reuse}

abbrev pub users_backend : Backend User
users_backend = memory_backend same

abbrev pub key : Field → Str → Str
key field x = x

abbrev pub ann : User
ann = record {
  id = codes "u";
  username = codes "ann";
  email = codes "a@b";
  password_hash = some 8;
  status = codes "active";
  roles = 1 ∷ [];
  groups = [];
  email_verified = true;
  failed_login_count = 0;
  locked_until = none;
  last_login = none;
  updated_at = 0;
}

-- The right password is "pw".
abbrev pub passwords : Passwords
passwords = record {
  averify_password = λ p h. str_eq p (codes "pw");
  needs_rehash = λ h. false;
  ahash_password = λ p. 9;
}

abbrev pub lock : Lock
lock = record { max_failed_logins = 2; lockout = 100 }

abbrev pub logins : Logins users_backend
logins = record {
  users = record {
    db = ann ∷ [];
    cache = record { backend = record { items = []; windows = []; fixed = [] }; skip_until = 0 };
  };
  attempts = [];
}

abbrev guess : Str → Time → Guess
guess p t = record { password = p; checked = t; now = t; counting = λ n. at t; clock = λ n. at t }

authenticate-locked_out_example :
    (try_password users_backend cfg key lock passwords
      (codes "ann")
      (guess (codes "pw") 60)
      (try_password users_backend cfg key lock passwords (codes "ann") (guess (codes "y") 11) (
        guess_all users_backend cfg key lock passwords
          (codes "ann")
          (guess (codes "x") 10 ∷ [])
          logins)).1).0
    ≡ none
unfolding get_record str_eq
authenticate-locked_out_example =
    authenticate-locked_out users_backend cfg key lock passwords (codes "ann")
      (guess (codes "x") 10 ∷ []) (guess (codes "y") 11) (guess (codes "pw") 60) ann logins
      (refl, refl) refl refl (refl, tt) refl refl (omega arith)

-- Ann's account as another request has locked it since it was read.
abbrev locked_since : Logins users_backend
locked_since = record logins {
  users = record {
    db = record ann { locked_until = some 500; failed_login_count = 0 } ∷ [];
    cache = record { backend = record { items = []; windows = []; fixed = [] }; skip_until = 0 };
  };
}

attempt-succeeds_example :
    let after =
      run_attempt users_backend cfg key lock passwords
        (λ n. at 20)
        (λ n. at 20)
        20
        (codes "ann")
        (codes "pw")
        ann
        locked_since in
    (after.0 ≡ some ann)
    × IsStored
        (codes "ann")
        (codes "u")
        (record ann { last_login = some 20; updated_at = 20 })
        after.1
unfolding get_record str_eq
attempt-succeeds_example =
    attempt-succeeds users_backend cfg key lock passwords (λ n. at 20) (λ n. at 20) 20 (codes "ann")
      (codes "pw") ann (record ann { locked_until = some 500 }) locked_since (refl, refl)
      (omega arith) refl

-- Every token is one of phone's, and its own hash.
abbrev tokens : Tokens
tokens = record {
  verify_token = λ t. some (record { user_id = codes "u"; sid = some (codes "p") });
  hash_token = λ t. t;
}

abbrev state : State memory users_backend
state = record { sessions = signed_in; users = logins.users }

refresh_tokens-reuse_example :
    let s1 =
      (refresh users_backend cfg 10 key tokens 5 b'p' [] (codes "u") (λ n. at 1) 10 5 6 state).1 in
    let s2 =
      (refresh users_backend cfg 10 key tokens 5 b'p' [] (codes "u") (λ n. at 2) 20 5 7 s1).1 in
    ((refresh users_backend cfg 10 key tokens 5 b'p' [] (codes "u") (λ n. at 2) 20 5 7 s1).0 ≡ none)
    × ((refresh users_backend cfg 10 key tokens 5 b'p' [] (codes "u") (λ n. at 3) 30 6 9 s2).0
        ≡ none)
unfolding get_record update_record Memory.get Memory.set Memory.delete Service.get Service.set
    Service.delete Service.require fill forget Data.get Data.update is_session_active get_session
    update_session get_user_by_id is_current_refresh_token rotate_tokens refresh_tokens lookup
    str_eq erase insert
refresh_tokens-reuse_example =
    refresh_tokens-reuse users_backend cfg 10 key tokens 5 b'p' [] (codes "u") (λ n. at 1)
      (λ n. at 2) (λ n. at 3) 10 20 30 5 6 7 9 state refl refl (λ e. absurd (omega arith))
      signed_in-IsCoherent (omega arith) refl (omega arith) (omega arith) (omega arith)
