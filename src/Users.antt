-- ===== src/Users.antt =====
-- User records (app/services/data/users_ops.py): reads through the cache or past it, and writes
-- that drop every cache entry through which a user can be reached.
--
-- A record has the canonical fields; the older forms that `normalize_user` takes over do not arise.
-- A password's hash is a number. `default_key` is `_default_cache_key` (an MD5 digest) of the
-- collection and one field; each access to the cache has its own clock, by its number.
pub mod Records
pub mod Cached
use fast_api_boiler_plate.Base.{
  ℕ, ◌+◌, Bool, true, false, Option, none, some, List, [], ◌∷◌, if◌then◌else◌, Ident, Time, Str,
  str_eq,
}
use fast_api_boiler_plate.Cache.Service.{Backend, Settings, Clock}
use fast_api_boiler_plate.Data.{Data, CachePolicy, auto, cache_only, db_only}
use fast_api_boiler_plate.Data

pub record User : Type 0 where
  pub id : Str
  pub username : Str
  pub email : Str
  pub password_hash : Option Ident
  pub status : Str
  pub roles : List Ident
  pub groups : List Ident
  pub email_verified : Bool
  pub failed_login_count : ℕ
  pub locked_until : Option Time
  pub last_login : Option Time
  pub updated_at : Time

pub data Field : Type 0 where
  id username email : Field

abbrev pub has_id : Str → User → Bool
has_id x u = str_eq u.id x

abbrev pub has_username : Str → User → Bool
has_username x u = str_eq u.username x

abbrev pub has_email : Str → User → Bool
has_email x u = str_eq u.email x

abbrev pub policy_of : Bool → CachePolicy
policy_of true = db_only
policy_of false = auto

abbrev pub bump : User → User
bump u = record u { failed_login_count = u.failed_login_count + 1 }

module _ (b : Backend User) (cfg : Settings) (default_key : Field → Str → Str) where
  -- `if user.get(field)`: an empty value names no entry.
  unfoldable pub forget_field : Clock → Field → Str → Data b → Data b
  forget_field clock field [] s = s
  forget_field clock field (c ∷ value) s =
      (Data.delete b cfg clock (default_key field (c ∷ value)) (λ u. false) cache_only s).1

  unfoldable pub forget_cached : (ℕ → Clock) → User → Data b → Data b
  unfolding forget_field
  forget_cached clock u s =
      forget_field (clock 2) email u.email
        (forget_field (clock 1) username u.username (forget_field (clock 0) id u.id s))

  unfoldable pub increment_failed_logins : (ℕ → Clock) → User → Data b → ℕ × Data b
  unfolding forget_cached
  increment_failed_logins clock u s =
      let (count, s') =
        Data.increment b cfg (clock 3) (default_key id u.id) (has_id u.id)
          (λ d. d.failed_login_count) bump s in
      (elim count [ none ↦ 0 | some n ↦ n ], forget_cached clock u s')

  -- An upsert of the new record.
  unfoldable pub create_user : Clock → Time → User → Data b → Data b
  create_user clock now new s =
      Data.set b cfg clock (default_key id new.id) (has_id new.id)
        (λ old. record new { updated_at = now }) (record new { updated_at = now }) none db_only s

  unfoldable pub get_user_by_id : Clock → Clock → Str → Bool → Data b → Option User × Data b
  get_user_by_id reading writing x fresh s =
      Data.get b cfg reading writing (default_key id x) (has_id x) (policy_of fresh) s

  unfoldable pub get_user_by_username : Clock → Clock → Str → Bool → Data b → Option User × Data b
  get_user_by_username reading writing x fresh s =
      Data.get b cfg reading writing (default_key username x) (has_username x) (policy_of fresh) s

  unfoldable pub get_user_by_email : Clock → Clock → Str → Bool → Data b → Option User × Data b
  get_user_by_email reading writing x fresh s =
      Data.get b cfg reading writing (default_key email x) (has_email x) (policy_of fresh) s

  -- With the record that was found before.
  abbrev pub update_found :
      (ℕ → Clock) → Time → Str → (User → User) → Option User × Data b → Bool × Data b
  update_found clock now x updates (none, s) = (false, s)
  update_found clock now x updates (some before, s) =
      let change : User → User = λ u. record (updates u) { updated_at = now } in
      let (updated, s') =
        Data.update b cfg (clock 6) (default_key id x) (has_id x) change db_only s in
      (updated, forget_cached (λ n. clock (n + 3)) (change before) (forget_cached clock before s'))

  unfoldable pub update_user : (ℕ → Clock) → Time → Str → (User → User) → Data b → Bool × Data b
  unfolding forget_cached
  update_user clock now x updates s =
      update_found clock now x updates
        (Data.get b cfg (clock 7) (clock 7) (default_key id x) (has_id x) db_only s)

  abbrev pub forget_found : (ℕ → Clock) → Option User → Data b → Data b
  forget_found clock none s = s
  forget_found clock (some before) s = forget_cached clock before s

  unfoldable pub delete_user : (ℕ → Clock) → Str → Data b → Bool × Data b
  unfolding forget_cached
  delete_user clock x s =
      let (before, s1) =
        Data.get b cfg (clock 7) (clock 7) (default_key id x) (has_id x) db_only s in
      let (deleted, s2) = Data.delete b cfg (clock 6) (default_key id x) (has_id x) db_only s1 in
      (deleted, forget_found clock before s2)
