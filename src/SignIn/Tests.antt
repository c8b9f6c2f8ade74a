-- ===== src/SignIn/Tests.antt =====
-- Ann signs in with her password and a code (app/services/auth/service.py).
use fast_api_boiler_plate.Base.{
  ℕ, ◌+◌, ◌*◌, ◌/◌, ◌≤◌, ◌<◌, ◌≡◌, refl, true, false, some, List, [], ◌⊎◌, Time, Str, str_eq,
  codes as text,
}
use fast_api_boiler_plate.Store.{get_record}
use fast_api_boiler_plate.Cache.Service.{Clock}
use fast_api_boiler_plate.Users.{User, increment_failed_logins, get_user_by_username}
use fast_api_boiler_plate.Sessions
use fast_api_boiler_plate.Sessions.Tests.{cfg, at, signed_in}
use fast_api_boiler_plate.Auth
use fast_api_boiler_plate.Auth.Stored.{memory}
use fast_api_boiler_plate.Auth.Tests.{ann, logins, key, lock, passwords, users_backend}
use fast_api_boiler_plate.Mfa
use fast_api_boiler_plate.Mfa.Tests.{scheme, factors}
use fast_api_boiler_plate.Access.Changes.{sets_memory}
use fast_api_boiler_plate.Access.Tests.{config as definitions}
use fast_api_boiler_plate.Passkeys.Tests.{config as ceremonies_config}
use fast_api_boiler_plate.Tokens.{Claims, TokenPair, create_mfa_token}
use fast_api_boiler_plate.Tokens.Tests.{config as token_config, signs}
use fast_api_boiler_plate.SignIn.{
  login_refused, mfa_required, logged_in, Fresh, SignIns, Config, login_user, found_user,
  complete_mfa_login,
}
use fast_api_boiler_plate.SignIn.TwoFactor.{login_user-two_factor}

abbrev config : Config Claims
config = record {
  cache = cfg;
  cap = 10;
  default_key = key;
  lock = lock;
  passwords = passwords;
  days = record { refresh_days = 7; remember_me_days = 30; day = 86400 };
  codes = scheme;
  passkeys = ceremonies_config;
  access = definitions;
  tokens = token_config;
  challenge_minutes = 5;
  hash_token = λ t. 3;
  ident = λ user. 1;
  time_step = λ t. t / 30;
}

abbrev fresh : Fresh
fresh = record { session_id = text "s"; jti = 1; refresh_jti = 2 }

abbrev service : SignIns memory users_backend sets_memory
service = record {
  logins = logins;
  sessions = signed_in;
  factors = factors;
  ceremonies = record { challenges = []; passkeys = [] };
  grants = [];
  cache = record { backend = record { items = []; windows = []; fixed = [] }; skip_until = 0 };
}

login_user-two_factor_example :
    let first =
      login_user memory users_backend sets_memory config
        (λ n. at 20)
        20
        fresh
        (text "ann")
        (text "pw")
        0
        true
        service in
    let proof = create_mfa_token config.tokens 20 (text "u") true config.challenge_minutes in
    ((first.0 ≡ mfa_required proof) × (first.1.sessions ≡ service.sessions))
    × ((clock' : ℕ → Clock) (t : Time) (fresh' : Fresh) (code : Str)
          (s' : SignIns memory users_backend sets_memory)
        → 20 ≤ t
        → (20 + config.challenge_minutes * 60 ≤ t)
          ⊎ ((Mfa.verify config.codes
                (config.time_step t)
                (config.ident (text "u"))
                code
                s'.factors).0
              ≡ false)
        → let second =
            complete_mfa_login memory users_backend sets_memory config clock' t fresh' proof code 0
              s' in
          (second.0 ≡ login_refused) × (second.1.sessions ≡ s'.sessions))
    × ((clock' : ℕ → Clock) (t : Time) (fresh' : Fresh) (code : Str)
          (s' : SignIns memory users_backend sets_memory) (r : User)
        → 20 ≤ t
        → t < 20 + config.challenge_minutes * 60
        → found_user memory users_backend sets_memory config clock' t (text "u") s' ≡ some r
        → (increment_failed_logins users_backend config.cache config.default_key clock' r
            s'.logins.users).0
          ≤ config.lock.max_failed_logins
        → (Mfa.verify config.codes (config.time_step t) (config.ident (text "u")) code s'.factors).0
          ≡ true
        → let second =
            complete_mfa_login memory users_backend sets_memory config clock' t fresh' proof code 0
              s' in
          (pair : TokenPair Claims) × (permissions : List Str) × (second.0
            ≡ logged_in pair permissions fresh'.session_id)
          × (second.1.sessions
              ≡ Sessions.open_session memory config.cache config.cap
                  (clock' 20)
                  config.days
                  t
                  fresh'.session_id
                  r.id
                  0
                  true
                  (some (config.hash_token pair.refresh_token))
                  s'.sessions))
unfolding Auth.authenticate Mfa.is_enabled get_user_by_username fast_api_boiler_plate.Data.get
    get_record str_eq increment_failed_logins fast_api_boiler_plate.Data.increment Auth.succeed
login_user-two_factor_example =
    login_user-two_factor memory users_backend sets_memory config signs (λ n. at 20) 20 fresh
      (text "ann") (text "pw") 0 true service ann refl refl
