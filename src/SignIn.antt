-- ===== src/SignIn.antt =====
-- The ways to sign in (`AuthService`, app/services/auth/service.py): with a password, with a second
-- factor after it, with a passkey, and through a provider. They put together users, the second
-- factor, passkeys, permissions, tokens and sessions. Logging is left out. The random ids of a new
-- session and of its two tokens are arguments, and `ident` is the number of a user's id.
pub mod TwoFactor
pub mod Tests
use fast_api_boiler_plate.Base.{
  ℕ, ◌+◌, Bool, true, false, not, ◌&&◌, ◌||◌, Option, none, some, List, [], ◌∷◌, if◌then◌else◌,
  Ident, Time, Str, ltb, leb,
}
use fast_api_boiler_plate.Cache.Service.{Backend, Settings, Clock, Service}
use fast_api_boiler_plate.Data.{Data}
use fast_api_boiler_plate.Users.{User, Field, get_user_by_id, increment_failed_logins, update_user}
use fast_api_boiler_plate.Sessions.{Session, Lifetimes}
use fast_api_boiler_plate.Sessions
use fast_api_boiler_plate.Auth.{
  Lock, Passwords, Logins, Reason, invalid_mfa_code, by_mfa, by_passkey, is_locked, lock_until,
  record_login_attempt,
}
use fast_api_boiler_plate.Auth
use fast_api_boiler_plate.Mfa.{Factor, Codes}
use fast_api_boiler_plate.Mfa
use fast_api_boiler_plate.Passkeys.{Ceremonies, Answer, refused, accepted}
use fast_api_boiler_plate.Passkeys
use fast_api_boiler_plate.Access.{Access, Grant, resolve_user_permissions}
use fast_api_boiler_plate.Access
use fast_api_boiler_plate.Tokens.{TokenPair, create_token_pair, create_mfa_token, verify_mfa_token}
use fast_api_boiler_plate.Tokens

-- The answer to a sign-in; `mfa_required` carries the proof of the password step.
pub data Login (T : Type 0) : Type 0 where
  login_refused : Login T
  mfa_required : T → Login T
  logged_in : TokenPair T → List Str → Str → Login T

pub record Fresh : Type 0 where
  pub session_id : Str
  pub jti : Ident
  pub refresh_jti : Ident

module _ (b : Backend Session) (bu : Backend User) (bp : Backend (List Str)) where
  pub record SignIns : Type 0 where
    pub logins : Logins bu
    pub sessions : Data b
    pub factors : List Factor
    pub ceremonies : Ceremonies
    pub grants : List Grant
    pub cache : Service bp

-- The settings and parameters of the services.
pub record Config (T : Type 0) : Type 0 where
  pub cache : Settings
  pub cap : ℕ
  pub default_key : Field → Str → Str
  pub lock : Lock
  pub passwords : Passwords
  pub days : Lifetimes
  pub codes : Codes
  pub passkeys : Passkeys.Config
  pub access : Access.Config
  pub tokens : Tokens.Config T
  pub challenge_minutes : ℕ
  pub hash_token : T → Ident
  pub ident : Str → Ident
  pub time_step : Time → ℕ

module _ {T : Type 0} (b : Backend Session) (bu : Backend User) (bp : Backend (List Str))
    (config : Config T) (clock : ℕ → Clock) (now : Time) where
  -- `_open_session`
  unfoldable pub open_session :
      Fresh → User → ℕ → Bool → SignIns b bu bp → Login T × SignIns b bu bp
  open_session fresh user device remember_me s =
      let resolved =
        resolve_user_permissions bu bp config.cache config.default_key config.access clock now
          user.id (record { users = s.logins.users; grants = s.grants; cache = s.cache }) in
      let pair =
        create_token_pair config.tokens now fresh.jti fresh.refresh_jti user.id user.username
          user.roles resolved.0 remember_me (some fresh.session_id) in
      (
        logged_in pair resolved.0 fresh.session_id,
        record s {
          logins = record (s.logins) { users = resolved.1.users };
          grants = resolved.1.grants;
          cache = resolved.1.cache;
          sessions =
              Sessions.open_session b config.cache config.cap (clock 20) config.days now
                fresh.session_id user.id device remember_me
                (some (config.hash_token pair.refresh_token)) s.sessions;
        },
      )

  abbrev pub second_step :
      Fresh → ℕ → Bool → Option User × Logins bu → SignIns b bu bp → Login T × SignIns b bu bp
  second_step fresh device remember_me (none, logins) s =
      (login_refused, record s { logins = logins })
  second_step fresh device remember_me (some u, logins) s =
      if Mfa.is_enabled (config.ident u.id) s.factors
      then (
        mfa_required (create_mfa_token config.tokens now u.id remember_me config.challenge_minutes),
        record s { logins = logins },
      )
      else open_session fresh u device remember_me (record s { logins = logins })

  unfoldable pub login_user :
      Fresh → Str → Str → ℕ → Bool → SignIns b bu bp → Login T × SignIns b bu bp
  unfolding open_session
  login_user fresh name password device remember_me s =
      second_step fresh device remember_me
        (Auth.authenticate bu config.cache config.default_key config.lock config.passwords clock
          (λ n. clock (n + 10)) now now name password s.logins)
        s

  abbrev pub may_sign_in : Option User → Option User
  may_sign_in none = none
  may_sign_in (some r) = if not (Auth.is_enabled r) || is_locked now r then none else some r

  abbrev pub found_user : Str → SignIns b bu bp → Option User
  found_user user s =
      may_sign_in
        (get_user_by_id bu config.cache config.default_key (clock 8) (clock 8) user true
          s.logins.users).0

  abbrev pub changed : (User → User) → Str → SignIns b bu bp → SignIns b bu bp
  changed change user s = record s {
    logins = record (s.logins) {
      users =
          (update_user bu config.cache config.default_key (λ n. clock (n + 10)) now user change
            s.logins.users).1;
    };
  }

  abbrev pub logged : User → Str → Bool → Reason → SignIns b bu bp → SignIns b bu bp
  logged r user success reason s = record s {
    logins =
        record_login_attempt bu config.cache config.default_key config.lock config.passwords now
          r.username (some user) success (some reason) s.logins;
  }

  -- A wrong code: it counts like a wrong password.
  unfoldable pub refuse_code : User → Str → ℕ → SignIns b bu bp → Login T × SignIns b bu bp
  refuse_code r user failures s = (
    login_refused,
    logged r user false invalid_mfa_code (
        if leb config.lock.max_failed_logins failures
        then changed (lock_until (now + config.lock.lockout)) user s
        else s),
  )

  unfoldable pub accept_code :
      Fresh → ℕ → Bool → User → Str → SignIns b bu bp → Login T × SignIns b bu bp
  unfolding open_session
  accept_code fresh device remember_me r user s =
      open_session fresh r device remember_me
        (logged r user true by_mfa (changed (λ u. record u { failed_login_count = 0 }) user s))

  abbrev pub check_code :
      Fresh → Str → ℕ → Bool → User → Str → SignIns b bu bp → Login T × SignIns b bu bp
  check_code fresh code device remember_me r user s =
      let reserved =
        increment_failed_logins bu config.cache config.default_key clock r s.logins.users in
      let s1 : SignIns b bu bp = record s { logins = record (s.logins) { users = reserved.1 } } in
      let verified =
        Mfa.verify config.codes (config.time_step now) (config.ident user) code s.factors in
      let s2 : SignIns b bu bp = record s1 { factors = verified.1 } in
      if ltb config.lock.max_failed_logins reserved.0
      then refuse_code r user reserved.0 s1
      else if verified.0
      then accept_code fresh device remember_me r user s2
      else refuse_code r user reserved.0 s2

  abbrev pub complete_with :
      Fresh → Str → ℕ → Bool → Str → Option User → SignIns b bu bp → Login T × SignIns b bu bp
  complete_with fresh code device remember_me user none s = (login_refused, s)
  complete_with fresh code device remember_me user (some r) s =
      check_code fresh code device remember_me r user s

  abbrev pub complete_claims :
      Fresh → Str → ℕ → Option (Str × Bool) → SignIns b bu bp → Login T × SignIns b bu bp
  complete_claims fresh code device none s = (login_refused, s)
  complete_claims fresh code device (some (user, remember_me)) s =
      complete_with fresh code device remember_me user (found_user user s) s

  unfoldable pub complete_mfa_login :
      Fresh → T → Str → ℕ → SignIns b bu bp → Login T × SignIns b bu bp
  unfolding refuse_code accept_code
  complete_mfa_login fresh token code device s =
      complete_claims fresh code device (verify_mfa_token config.tokens now token) s

  abbrev pub passkey_user :
      Fresh → ℕ → Str → Option User → SignIns b bu bp → Login T × SignIns b bu bp
  passkey_user fresh device user none s = (login_refused, s)
  passkey_user fresh device user (some r) s = open_session fresh r device false (
      logged r user true by_passkey
        (changed (λ u. record u { failed_login_count = 0; last_login = some now }) user s))

  abbrev pub passkey_answer :
      Fresh → ℕ → Answer Str × Ceremonies → SignIns b bu bp → Login T × SignIns b bu bp
  passkey_answer fresh device (refused e, c) s = (login_refused, record s { ceremonies = c })
  passkey_answer fresh device (accepted user, c) s =
      let s' : SignIns b bu bp = record s { ceremonies = c } in
      passkey_user fresh device user (found_user user s') s'

  unfoldable pub login_with_passkey :
      Fresh → Ident → Ident → ℕ → SignIns b bu bp → Login T × SignIns b bu bp
  unfolding open_session
  login_with_passkey fresh challenge_id credential device s =
      passkey_answer fresh device
        (Passkeys.authenticate config.passkeys now challenge_id credential s.ceremonies) s

  abbrev pub if_enabled : Option User → Bool
  if_enabled none = false
  if_enabled (some r) = Auth.is_enabled r

  -- For a user that a provider has verified.
  unfoldable pub login_oauth_user : Fresh → User → ℕ → SignIns b bu bp → Login T × SignIns b bu bp
  unfolding open_session
  login_oauth_user fresh user device s =
      if if_enabled
        (get_user_by_id bu config.cache config.default_key (clock 8) (clock 8) user.id true
          s.logins.users).0
      then open_session fresh user device false s
      else (login_refused, s)
