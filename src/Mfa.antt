-- ===== src/Mfa.antt =====
-- Two-factor authentication (app/services/auth/mfa.py, app/services/auth/totp.py): enrolment,
-- authenticator codes and recovery codes, each of which works once.
--
-- A user, a secret and a hash are numbers. The collection `mfa_totp` is read and written past the
-- cache. The code of a time step (HMAC, truncated to six digits) and SHA-256 are parameters; the
-- encryption of the secret at rest and the audit trail are left out. What is drawn at random, a
-- secret or recovery codes, is an argument.
pub mod Single
pub mod Tests
use fast_api_boiler_plate.Base.{
  ℕ, zero, suc, ◌+◌, ◌-◌, ◌/◌, Bool, true, false, not, ◌&&◌, ◌||◌, Option, none, some, List, [],
  ◌∷◌, ◌++◌, map, if◌then◌else◌, Ident, Time, Str, str_eq, ltb, leb, ◌==◌, contains, remove,
  is_some, length,
}
use fast_api_boiler_plate.Store.{get_record, update_record, delete_record}
use fast_api_boiler_plate.Store.Keys.{keyed}

pub record Factor : Type 0 where
  pub user_id : Ident
  pub secret : Ident
  pub confirmed_at : Option Time
  pub last_step : ℕ
  pub recovery_codes : List Ident
  pub codes_version : ℕ
  pub created_at : Time

-- `code_at` of app/services/auth/totp.py, and `hash_token`.
pub record Codes : Type 0 where
  pub code_at : Ident → ℕ → Str
  pub hash_token : Str → Ident

-- `str.isspace`
abbrev pub is_space : ℕ → Bool
is_space c =
    leb 9 c && leb c 13
    || leb 28 c && leb c 32
    || leb 8192 c && leb c 8202
    || contains c (133 ∷ 160 ∷ 5760 ∷ 8232 ∷ 8233 ∷ 8239 ∷ 8287 ∷ 12288 ∷ [])

abbrev pub lstrip : Str → Str
lstrip [] = []
lstrip (c ∷ s) = if is_space c then lstrip s else c ∷ s

abbrev keep_unless_space : ℕ → Str → Str
keep_unless_space c [] = if is_space c then [] else c ∷ []
keep_unless_space c (d ∷ s) = c ∷ d ∷ s

abbrev pub rstrip : Str → Str
rstrip [] = []
rstrip (c ∷ s) = keep_unless_space c (rstrip s)

-- `str.strip`
unfoldable pub strip : Str → Str
strip s = rstrip (lstrip s)

-- `replace(" ", "")`
unfoldable pub without_spaces : Str → Str
without_spaces [] = []
without_spaces (c ∷ s) = if c == b' ' then without_spaces s else c ∷ without_spaces s

abbrev pub all_digits : Str → Bool
all_digits [] = true
all_digits (c ∷ s) = leb 48 c && leb c 57 && all_digits s

-- `for candidate in range(first, first + n)`
unfoldable pub first_match : Codes → Ident → Str → ℕ → ℕ → Option ℕ
first_match codes secret code first zero = none
first_match codes secret code first (suc n) =
    let later = first_match codes secret code (first + 1) n in
    if str_eq (codes.code_at secret first) code then some first else later

-- `matching_step` with its window of one step; the current step is at least 1.
unfoldable pub matching_step : Codes → Ident → Str → ℕ → Option ℕ
unfolding first_match strip without_spaces
matching_step codes secret code step =
    let given = without_spaces (strip code) in
    if not (length given == 6) || not (all_digits given)
    then none
    else first_match codes secret given (step - 1) 3

-- `_normalize_recovery_code`
abbrev pub lower : ℕ → ℕ
lower c = if leb 65 c && leb c 90 then c + 32 else c

unfoldable pub normalize_recovery_code : Str → Str
unfolding strip without_spaces
normalize_recovery_code code = without_spaces (map lower (strip code))

abbrev pub of_user : Ident → Factor → Bool
of_user user f = f.user_id == user

abbrev pub is_confirmed : Option Factor → Bool
is_confirmed none = false
is_confirmed (some f) = is_some f.confirmed_at

unfoldable pub is_enabled : Ident → List Factor → Bool
is_enabled user db = is_confirmed (get_record (of_user user) db)

-- `status`
unfoldable pub status : Ident → List Factor → Bool × ℕ
unfolding is_enabled
status user db = elim (get_record (of_user user) db) [
  | none ↦ (false, 0)
  | some f ↦ (is_some f.confirmed_at, if is_some f.confirmed_at then length f.recovery_codes else 0)
]

-- An update of the factor that was read, conditional on what was read.
abbrev pub at_step : ℕ → Factor → Bool
at_step n f = f.last_step == n

abbrev pub at_version : ℕ → Factor → Bool
at_version n f = f.codes_version == n

abbrev pub key : Factor → Ident
key f = f.user_id

module _ (codes : Codes) where
  -- `_accept_totp` for the factor that was read, at the current step.
  unfoldable pub accept_totp : ℕ → Factor → Str → List Factor → Bool × List Factor
  accept_totp step f code db = elim (matching_step codes f.secret code step) [
    | none ↦ (false, db)
    | some n ↦
        let (db', found) =
          update_record (keyed key f.user_id (at_step f.last_step))
            (λ g. record g { last_step = n }) db in
        if leb n f.last_step then (false, db) else (found, db')
  ]

  -- `_consume_recovery_code`
  unfoldable pub consume_recovery_code : Factor → Str → List Factor → Bool × List Factor
  unfolding normalize_recovery_code
  consume_recovery_code f code db =
      let hashed = codes.hash_token (normalize_recovery_code code) in
      let (db', used) =
        update_record (keyed key f.user_id (at_version f.codes_version))
          (λ g. record g {
            recovery_codes = remove hashed f.recovery_codes;
            codes_version = f.codes_version + 1;
          })
          db in
      if not (contains hashed f.recovery_codes) then (false, db) else (used, db')

  -- `verify` from where the factor has been read.
  unfoldable pub verify_factor : ℕ → Option Factor → Str → List Factor → Bool × List Factor
  unfolding accept_totp consume_recovery_code
  verify_factor step none code db = (false, db)
  verify_factor step (some f) code db =
      if not (is_some f.confirmed_at)
      then (false, db)
      else (let (accepted, db') = accept_totp step f code db in
          if accepted then (true, db') else consume_recovery_code f code db')

  unfoldable pub verify : ℕ → Ident → Str → List Factor → Bool × List Factor
  unfolding verify_factor
  verify step user code db = verify_factor step (get_record (of_user user) db) code db

pub data Refusal : Type 0 where
  wrong_password already_on not_set_up not_on wrong_code : Refusal

pub data Answer (A : Type 0) : Type 0 where
  ok : A → Answer A
  refused : Refusal → Answer A

-- Operations that ask for the password take whether it is right.
module _ (codes : Codes) (now : Time) (step : ℕ) where
  -- An upsert: an unconfirmed secret is replaced.
  unfoldable pub start_totp : Ident → Bool → Ident → List Factor → Answer Ident × List Factor
  unfolding is_enabled
  start_totp user right secret db =
      let fresh : Factor = record {
        user_id = user;
        secret = secret;
        confirmed_at = none;
        last_step = 0;
        recovery_codes = [];
        codes_version = 0;
        created_at = now;
      } in
      let (db', found) = update_record (of_user user) (λ f. fresh) db in
      if not right
      then (refused wrong_password, db)
      else (if is_enabled user db
          then (refused already_on, db)
          else (ok secret, if found then db' else db ++ fresh ∷ []))

  abbrev pub renewed : List Str → Factor → Factor → Factor
  renewed drawn f g = record g {
    recovery_codes = map codes.hash_token drawn;
    codes_version = f.codes_version + 1;
  }

  unfoldable pub confirm_totp :
      Ident → Str → List Str → List Factor → Answer (List Str) × List Factor
  unfolding accept_totp
  confirm_totp user code drawn db = elim (get_record (of_user user) db) [
    | none ↦ (refused not_set_up, db)
    | some f ↦
        let (accepted, db') = accept_totp codes step f code db in
        if is_some f.confirmed_at
        then (refused not_set_up, db)
        else (if not accepted then (refused wrong_code, db') else (
          ok drawn,
          (update_record (of_user user)
              (λ g. record (renewed drawn f g) { confirmed_at = some now }) db').0,
        ))
  ]

  unfoldable pub disable : Ident → Bool → Str → List Factor → Answer (Unit {0}) × List Factor
  unfolding verify is_enabled
  disable user right code db =
      let (valid, db') = verify codes step user code db in
      if not right
      then (refused wrong_password, db)
      else (if not (is_enabled user db)
          then (refused not_on, db)
          else (if not valid
              then (refused wrong_code, db')
              else (ok tt, (delete_record (of_user user) db').0)))

  unfoldable pub regenerate_recovery_codes :
      Ident → Bool → Str → List Str → List Factor → Answer (List Str) × List Factor
  unfolding verify is_enabled
  regenerate_recovery_codes user right code drawn db =
      let (valid, db') = verify codes step user code db in
      let version : ℕ = elim (get_record (of_user user) db') [
        | none ↦ 0
        | some f ↦ f.codes_version
      ] in
      if not right
      then (refused wrong_password, db)
      else (if not (is_enabled user db)
          then (refused not_on, db)
          else (if not valid then (refused wrong_code, db') else (
            ok drawn,
            (update_record (of_user user)
                (λ g. record g {
                  recovery_codes = map codes.hash_token drawn;
                  codes_version = version + 1;
                })
                db').0,
          )))

-- Administrator recovery.
unfoldable pub reset : Ident → List Factor → Bool × List Factor
reset user db = let (db', removed) = delete_record (of_user user) db in (removed, db')
