-- ===== src/Registration/Tests.antt =====
-- Ann registers, and so does another who wants her name (app/services/auth/users.py).
use fast_api_boiler_plate.Base.{
  ℕ, ◌≡◌, refl, Bool, true, false, ◌&&◌, none, some, [], ◌∷◌, Time, Str, codes, leb, str_eq,
}
use fast_api_boiler_plate.Sessions.Tests.{cfg, at}
use fast_api_boiler_plate.Auth.Tests.{logins, key, passwords, users_backend}
use fast_api_boiler_plate.Registration.{
  Policy, UserCreate, username_exists, too_long, against_policy, validate_password_strength,
  assert_password_strength, register_user,
}

abbrev policy : Policy
policy = record {
  min_length = 4;
  max_length = 8;
  require_uppercase = true;
  require_lowercase = false;
  require_digit = true;
  require_special = true;
  is_upper = λ c. leb b'A' c && leb c b'Z';
  is_lower = λ c. leb b'a' c && leb c b'z';
  is_digit = λ c. leb b'0' c && leb c b'9';
}

weak : assert_password_strength policy (codes "abc1!") ≡ some against_policy
unfolding assert_password_strength validate_password_strength
weak = refl

long : assert_password_strength policy (codes "ABCdef12!") ≡ some too_long
unfolding assert_password_strength validate_password_strength
long = refl

strong : assert_password_strength policy (codes "Abc1!") ≡ none
unfolding assert_password_strength validate_password_strength
strong = refl

abbrev second_ann : UserCreate
second_ann = record {
  username = codes "ann";
  email = codes "x@y";
  password = codes "Abc1!";
  roles = [];
  groups = [];
}

taken :
    (register_user users_backend cfg key policy passwords 1
      (λ n. at 5)
      5
      (codes "w")
      second_ann
      logins.users).0
    ≡ username_exists
unfolding register_user fast_api_boiler_plate.Users.get_user_by_username
    fast_api_boiler_plate.Data.get fast_api_boiler_plate.Cache.Service.get
    fast_api_boiler_plate.Cache.Memory.get fast_api_boiler_plate.Base.lookup
    fast_api_boiler_plate.Store.get_record str_eq
taken = refl
