-- ===== src/Registration.antt =====
-- Registration (app/services/auth/users.py, `register_user`), the password policy
-- (app/services/password_service.py) and the first administrator (app/services/auth/bootstrap.py).
--
-- Which characters are letters of either case or digits (`isupper`, `islower`, `isdigit`) is an
-- argument. The profile and the preferences of a new user, and the unique indexes of the database,
-- which close the gap between the checks and the insertion, are left out.
pub mod Tests
use fast_api_boiler_plate.Base.{
  ℕ, zero, suc, ◌+◌, Bool, true, false, not, ◌&&◌, ◌||◌, Option, none, some, List, [], ◌∷◌,
  if◌then◌else◌, Ident, Time, Str, codes, ltb, leb, ◌==◌, any, contains, length, is_some,
}
use fast_api_boiler_plate.Cache.Service.{Backend, Settings, Clock}
use fast_api_boiler_plate.Data.{Data}
use fast_api_boiler_plate.Data
use fast_api_boiler_plate.Users.{
  User, Field, create_user, get_user_by_id, get_user_by_username, get_user_by_email,
}
use fast_api_boiler_plate.Auth.{Passwords}

pub record Policy : Type 0 where
  pub min_length : ℕ
  pub max_length : ℕ
  pub require_uppercase : Bool
  pub require_lowercase : Bool
  pub require_digit : Bool
  pub require_special : Bool
  pub is_upper : ℕ → Bool
  pub is_lower : ℕ → Bool
  pub is_digit : ℕ → Bool

-- `string.punctuation`
abbrev pub is_punctuation : ℕ → Bool
is_punctuation c =
    leb 33 c && leb c 47 || leb 58 c && leb c 64 || leb 91 c && leb c 96 || leb 123 c && leb c 126

unfoldable pub validate_password_strength : Policy → Str → Bool
validate_password_strength p password =
    leb p.min_length (length password)
    && leb (length password) p.max_length
    && (not p.require_uppercase || any p.is_upper password)
    && (not p.require_lowercase || any p.is_lower password)
    && (not p.require_digit || any p.is_digit password)
    && (not p.require_special || any is_punctuation password)

-- The two messages of `assert_password_strength`; `none` is a password that is accepted.
pub data Weakness : Type 0 where
  too_long against_policy : Weakness

unfoldable pub assert_password_strength : Policy → Str → Option Weakness
unfolding validate_password_strength
assert_password_strength p password =
    if ltb p.max_length (length password)
    then some too_long
    else if not (validate_password_strength p password)
    then some against_policy
    else none

pub record UserCreate : Type 0 where
  pub username : Str
  pub email : Str
  pub password : Str
  pub roles : List Ident
  pub groups : List Ident

-- The errors of a registration.
pub data Registered : Type 0 where
  username_exists email_exists creation_failed : Registered
  weak_password : Weakness → Registered
  registered : User → Registered

abbrev pub or_default : Ident → List Ident → List Ident
or_default role [] = role ∷ []
or_default role (r ∷ rs) = r ∷ rs

unfoldable pub user_dict : Ident → Ident → Time → Str → UserCreate → User
user_dict default_role hash now id u = record {
  id = id;
  username = u.username;
  email = u.email;
  password_hash = some hash;
  status = codes "active";
  roles = or_default default_role u.roles;
  groups = u.groups;
  email_verified = false;
  failed_login_count = 0;
  locked_until = none;
  last_login = none;
  updated_at = now;
}

module _ (bu : Backend User) (cfg : Settings) (default_key : Field → Str → Str) (policy : Policy)
    (passwords : Passwords) (default_role : Ident) (clock : ℕ → Clock) (now : Time) where
  abbrev pub created : Option User × Data bu → Registered × Data bu
  created (none, s) = (creation_failed, s)
  created (some u, s) = (registered u, s)

  abbrev pub create_strong : Str → UserCreate → Option Weakness → Data bu → Registered × Data bu
  create_strong id u (some weakness) s = (weak_password weakness, s)
  create_strong id u none s = created (
      get_user_by_id bu cfg default_key (clock 5) (clock 6) id false (
        create_user bu cfg default_key (clock 4) now
          (user_dict default_role (passwords.ahash_password u.password) now id u) s))

  abbrev pub with_email : Str → UserCreate → Option User × Data bu → Registered × Data bu
  with_email id u (some other, s) = (email_exists, s)
  with_email id u (none, s) = create_strong id u (assert_password_strength policy u.password) s

  abbrev pub with_username : Str → UserCreate → Option User × Data bu → Registered × Data bu
  with_username id u (some other, s) = (username_exists, s)
  with_username id u (none, s) =
      with_email id u (get_user_by_email bu cfg default_key (clock 2) (clock 3) u.email false s)

  -- `id` is drawn at random.
  unfoldable pub register_user : Str → UserCreate → Data bu → Registered × Data bu
  unfolding user_dict assert_password_strength
  register_user id u s =
      with_username id u
        (get_user_by_username bu cfg default_key (clock 0) (clock 1) u.username false s)

  abbrev pub error_of : Registered → Option Registered
  error_of username_exists = some username_exists
  error_of email_exists = some email_exists
  error_of creation_failed = some creation_failed
  error_of (weak_password w) = some (weak_password w)
  error_of (registered u) = none

  -- `ensure_bootstrap_admin`: true if an administrator was created; an error of the registration is raised.
  -- An empty username, email or password configures none.
  abbrev pub raised : Registered × Data bu → (Bool × Option Registered) × Data bu
  raised (r, s) = ((not (is_some (error_of r)), error_of r), s)

  unfoldable pub ensure_bootstrap_admin :
      Str → Ident → UserCreate → Data bu → (Bool × Option Registered) × Data bu
  unfolding register_user
  ensure_bootstrap_admin id admin u s =
      if ltb 0 (Data.count bu cfg (λ r. true) s)
      then ((false, none), s)
      else if length u.username == 0 || length u.email == 0 || length u.password == 0
      then ((false, none), s)
      else raised (register_user id (record u { roles = admin ∷ []; groups = [] }) s)
