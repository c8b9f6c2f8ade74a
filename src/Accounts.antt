-- ===== src/Accounts.antt =====
-- What `AuthService` (app/services/auth/service.py) does to an account and its sessions: the change
-- and the reset of a password, the account's state, its end, and signing out. The audit trail, the
-- mail and logging are left out. Hashing, verifying and judging passwords are parameters.
pub mod Endings
pub mod Tests
use fast_api_boiler_plate.Base.{
  ℕ, ◌+◌, Bool, true, false, not, ◌&&◌, Option, none, some, List, [], ◌∷◌, ◌++◌, if◌then◌else◌,
  Ident, Time, Str, codes, str_eq, ltb, ◌==◌, is_some, select,
}
use fast_api_boiler_plate.Store.{get_record, update_record}
use fast_api_boiler_plate.Store.Keys.{keyed}
use fast_api_boiler_plate.Cache.Service.{Backend, Settings, Clock}
use fast_api_boiler_plate.Data.{Data}
use fast_api_boiler_plate.Users.{
  User, Field, get_user_by_id, get_user_by_email, update_user, delete_user,
}
use fast_api_boiler_plate.Sessions.{Session, find_unpaged, revoke_session, revoke_user_sessions}
use fast_api_boiler_plate.Auth.{Passwords}

pub record ResetToken : Type 0 where
  pub token_hash : Ident
  pub user_id : Str
  pub created_at : Time
  pub expires_at : Time
  pub used_at : Option Time

abbrev pub is_unused : ResetToken → Bool
is_unused r = not (is_some r.used_at)

abbrev pub use_at : Time → ResetToken → ResetToken
use_at now r = record r { used_at = some now }

-- `update_one` of each token found before, by its hash.
unfoldable pub expire_all : Time → List ResetToken → List ResetToken → List ResetToken
expire_all now [] ds = ds
expire_all now (old ∷ rest) ds =
    expire_all now rest (update_record (λ r. r.token_hash == old.token_hash) (use_at now) ds).0

pub data Answer : Type 0 where
  done : ℕ → Answer
  wrong_password invalid_token weak_password : Answer

-- What a reset sets.
abbrev pub reset_to : Ident → User → User
reset_to hash u = record u {
  password_hash = some hash;
  failed_login_count = 0;
  locked_until = none;
  email_verified = true;
}

module _ (b : Backend Session) (bu : Backend User) where
  pub record Accounts : Type 0 where
    pub users : Data bu
    pub sessions : Data b
    pub resets : List ResetToken

-- The clocks of the cache, for sessions by their id and for users by the number of the access; the
-- lifetime of a reset token.
module _ (b : Backend Session) (bu : Backend User) (cfg : Settings) (cap : ℕ)
    (default_key : Field → Str → Str) (passwords : Passwords) (is_strong : Str → Bool)
    (lifetime : Time) (revoking : Str → Clock) (clock : ℕ → Clock) (now : Time) where
  abbrev pub revoke_all : Str → Option Str → Accounts b bu → ℕ × Accounts b bu
  revoke_all user keep s =
      let (count, sessions) = revoke_user_sessions b cfg cap revoking now user keep s.sessions in
      (count, record s { sessions = sessions })

  unfoldable pub logout : Str → Accounts b bu → Bool × Accounts b bu
  logout sid s =
      let (success, sessions) = revoke_session b cfg cap (clock 0) now sid s.sessions in
      (success, record s { sessions = sessions })

  unfoldable pub logout_all_devices : Str → Option Str → Accounts b bu → ℕ × Accounts b bu
  logout_all_devices user keep s = revoke_all user keep s

  abbrev pub update : Str → (User → User) → Accounts b bu → Bool × Accounts b bu
  update user updates s =
      let (updated, users) = update_user bu cfg default_key clock now user updates s.users in
      (updated, record s { users = users })

  abbrev is_current : Str → Option User → Bool
  is_current password none = false
  is_current password (some u) = elim u.password_hash [
    | none ↦ false
    | some h ↦ passwords.averify_password password h
  ]

  unfoldable pub change_password :
      Str → Str → Str → Option Str → Accounts b bu → Answer × Accounts b bu
  change_password user current new keep s =
      if not (
        is_current current
          (get_user_by_id bu cfg default_key (clock 8) (clock 8) user true s.users).0)
      then (wrong_password, s)
      else (if not (is_strong new)
          then (weak_password, s)
          else (let (count, s') =
                revoke_all user keep
                  (update user
                    (λ u. record u { password_hash = some (passwords.ahash_password new) }) s).1 in
              (done count, s')))

  unfoldable pub set_user_status : Str → Str → Accounts b bu → Bool × Accounts b bu
  set_user_status user status s =
      let (updated, s') = update user (λ u. record u { status = status }) s in
      if not updated
      then (false, s')
      else (true, if str_eq status (codes "active") then s' else (revoke_all user none s').1)

  unfoldable pub delete_account : Str → Accounts b bu → Bool × Accounts b bu
  delete_account user s =
      let s' = (revoke_all user none s).1 in
      let (deleted, users) = delete_user bu cfg default_key clock user s'.users in
      (deleted, record s' { users = users })

  -- The response does not say whether the address is known; `hash` is the new token's.
  unfoldable pub request_password_reset : Clock → Str → Ident → Accounts b bu → Accounts b bu
  unfolding expire_all find_unpaged
  request_password_reset filling email hash s =
      let (found, users) =
        get_user_by_email bu cfg default_key (clock 8) filling email false s.users in
      elim found [
        | none ↦ record s { users = users }
        | some u ↦ record s {
          users = users;
          resets =
              expire_all now (find_unpaged cap (λ r. str_eq r.user_id u.id && is_unused r) s.resets)
                s.resets
              ++ record {
                token_hash = hash;
                user_id = u.id;
                created_at = now;
                expires_at = now + lifetime;
                used_at = none;
              }
                ∷ [];
        }
      ]

  -- From where the token is consumed: another request may have come in between.
  unfoldable pub consume : Ident → Str → Str → Accounts b bu → Answer × Accounts b bu
  consume hash user new s =
      let (resets, consumed) =
        update_record (keyed (λ r. r.token_hash) hash is_unused) (use_at now) s.resets in
      let s1 : Accounts b bu = record s { resets = resets } in
      if not consumed
      then (invalid_token, s1)
      else (let (updated, s2) = update user (reset_to (passwords.ahash_password new)) s1 in
          let (count, s3) = revoke_all user none s2 in
          if not updated then (invalid_token, s2) else (done count, s3))

  unfoldable pub confirm_password_reset : Ident → Str → Accounts b bu → Answer × Accounts b bu
  unfolding consume
  confirm_password_reset hash new s =
      elim (get_record (keyed (λ r. r.token_hash) hash is_unused) s.resets) [
        | none ↦ (invalid_token, s)
        | some r ↦
            if ltb r.expires_at now
            then (invalid_token, s)
            else (if not (is_strong new) then (weak_password, s) else consume hash r.user_id new s)
      ]
