-- ===== src/Auth.antt =====
-- `AuthService` (app/services/auth/service.py): sign-in with a password and the lockout (here), the
-- rotation of refresh tokens (Auth/Refresh.antt), and what they guarantee.
--
-- Logging, the audit trail and the equalized timing are left out, and of a device nothing is kept.
-- Hashing and verifying passwords are parameters (Argon2). The readings of the clock once the
-- password has been verified are one. The caches of users and of sessions are two services.
pub mod Lockout
pub mod Guesses
pub mod Refresh
pub mod Stored
pub mod Rotation
pub mod Tests
use fast_api_boiler_plate.Base.{
  ℕ, ◌+◌, Bool, true, false, Option, none, some, List, [], ◌∷◌, ◌++◌, if◌then◌else◌, Ident, Time,
  Str, codes, str_eq, ltb, leb, take, not,
}
use fast_api_boiler_plate.Cache.Service.{Backend, Settings, Clock}
use fast_api_boiler_plate.Data.{Data}
use fast_api_boiler_plate.Users.{
  User, Field, increment_failed_logins, update_user, get_user_by_username,
}

pub data Reason : Type 0 where
  unknown_user account_inactive account_locked invalid_password invalid_mfa_code by_mfa by_passkey :
      Reason

pub record LoginAttempt : Type 0 where
  pub timestamp : Time
  pub username : Str
  pub user_id : Option Str
  pub success : Bool
  pub reason : Option Reason

pub record Lock : Type 0 where
  pub max_failed_logins : ℕ
  pub lockout : Time

pub record Passwords : Type 0 where
  pub averify_password : Str → Ident → Bool
  pub needs_rehash : Ident → Bool
  pub ahash_password : Str → Ident

-- `_locked`
abbrev pub is_locked : Time → User → Bool
is_locked now u = elim u.locked_until [ none ↦ false | some t ↦ ltb now t ]

-- `record.get("status", "active") == "active"`
abbrev pub is_enabled : User → Bool
is_enabled u = str_eq u.status (codes "active")

-- What a wrong password at the limit sets.
abbrev pub lock_until : Time → User → User
lock_until t u = record u { locked_until = some t; failed_login_count = 0 }

-- What a success sets; a hash with old parameters is made anew.
abbrev pub signed_in : Time → Option Ident → User → User
signed_in now upgrade u = record u {
  failed_login_count = 0;
  locked_until = none;
  last_login = some now;
  password_hash = elim upgrade [ none ↦ u.password_hash | some h ↦ some h ];
}

module _ (b : Backend User) where
  pub record Logins : Type 0 where
    pub users : Data b
    pub attempts : List LoginAttempt

module _ (b : Backend User) (cfg : Settings) (default_key : Field → Str → Str) (lock : Lock)
    (passwords : Passwords) where
  -- `_record_login_attempt`
  unfoldable pub record_login_attempt :
      Time → Str → Option Str → Bool → Option Reason → Logins b → Logins b
  record_login_attempt now name user success reason s = record s {
    attempts =
        s.attempts
        ++ record {
          timestamp = now;
          username = take 255 name;
          user_id = user;
          success = success;
          reason = reason;
        }
          ∷ [];
  }

  -- The attempt is logged and the generic error raised.
  unfoldable pub refuse : Time → Str → Option Str → Reason → Logins b → Option User × Logins b
  unfolding record_login_attempt
  refuse now name user reason s = (none, record_login_attempt now name user false (some reason) s)

  abbrev pub is_password : Str → User → Bool
  is_password password u = elim u.password_hash [
    | none ↦ false
    | some h ↦ passwords.averify_password password h
  ]

  abbrev pub upgrade : Str → User → Option Ident
  upgrade password u = elim u.password_hash [
    | none ↦ none
    | some h ↦ if passwords.needs_rehash h then some (passwords.ahash_password password) else none
  ]

  abbrev pub updated : (ℕ → Clock) → Time → Str → (User → User) → Logins b → Logins b
  updated clock now x updates s = record s {
    users = (update_user b cfg default_key clock now x updates s.users).1;
  }

  -- The password was wrong: at the limit the account is locked.
  unfoldable pub fail : (ℕ → Clock) → Time → Str → User → ℕ → Logins b → Option User × Logins b
  unfolding refuse
  fail clock now name r failures s =
      let locked : Logins b = updated clock now r.id (lock_until (now + lock.lockout)) s in
      refuse now name (some r.id) invalid_password
        (if leb lock.max_failed_logins failures then locked else s)

  unfoldable pub succeed : (ℕ → Clock) → Time → Str → Str → User → Logins b → Option User × Logins b
  unfolding record_login_attempt
  succeed clock now name password r s = (
    some r,
    record_login_attempt now name (some r.id) true none
        (updated clock now r.id (signed_in now (upgrade password r)) s),
  )

  -- `authenticate` from where the attempt is reserved, for the record that was read before: another
  -- request may come in between.
  unfoldable pub attempt :
      (ℕ → Clock) → (ℕ → Clock) → Time → Str → Str → User → Logins b → Option User × Logins b
  unfolding refuse
  attempt counting clock now name password r s =
      let (failures, users) = increment_failed_logins b cfg default_key counting r s.users in
      let s1 : Logins b = record s { users = users } in
      if ltb lock.max_failed_logins failures
      then refuse now name (some r.id) account_locked s1
      else (if is_password password r
          then succeed clock now name password r s1
          else fail clock now name r failures s1)

  abbrev pub checked_attempt :
      (ℕ → Clock)
      → (ℕ → Clock)
      → Time
      → Time
      → Str
      → Str
      → Option User
      → Logins b
      → Option User × Logins b
  checked_attempt counting clock checked now name password none s =
      refuse now name none unknown_user s
  checked_attempt counting clock checked now name password (some r) s =
      if not (is_enabled r)
      then refuse now name (some r.id) account_inactive s
      else (if is_locked checked r
          then refuse now name (some r.id) account_locked s
          else attempt counting clock now name password r s)

  unfoldable pub authenticate :
      (ℕ → Clock) → (ℕ → Clock) → Time → Time → Str → Str → Logins b → Option User × Logins b
  unfolding attempt
  authenticate counting clock checked now name password s =
      checked_attempt counting clock checked now name password
        (get_user_by_username b cfg default_key (counting 4) (counting 4) name true s.users).0 s
