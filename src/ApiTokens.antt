-- ===== src/ApiTokens.antt =====
-- Personal access tokens (app/services/auth/api_tokens.py).
--
-- A token is known by its SHA-256 hash, a number, and drawn at random by the caller; the shown
-- prefix and the audit trail are left out. A duration is in ticks, `day` of them a day and `minute`
-- a minute.
pub mod Lifecycle
pub mod Tests
use fast_api_boiler_plate.Base.{
  ℕ, zero, suc, ◌+◌, ◌*◌, ◌-◌, Bool, true, false, not, ◌&&◌, ◌||◌, Option, none, some, List, [],
  ◌∷◌, ◌++◌, if◌then◌else◌, Ident, Time, Str, codes, str_eq, ltb, leb, ◌==◌,
}
use fast_api_boiler_plate.Store.{get_record, update_record, delete_record, count}
use fast_api_boiler_plate.Cache.Service.{Backend, Settings, Clock}
use fast_api_boiler_plate.Data.{Data}
use fast_api_boiler_plate.Users.{User, Field, get_user_by_id}
use fast_api_boiler_plate.Access.{sorted_set}

pub record ApiToken : Type 0 where
  pub id : Ident
  pub user_id : Str
  pub name : Ident
  pub token_hash : Ident
  pub scopes : List Str
  pub created_at : Time
  pub expires_at : Time
  pub last_used_at : Option Time

pub record Config : Type 0 where
  pub max_days : ℕ
  pub per_user : ℕ
  pub day : Time
  pub minute : Time

pub data Issued : Type 0 where
  invalid_scopes invalid_days too_many : Issued
  issued : ApiToken → Issued

-- ---- `SCOPE_PATTERN`: `^(\*|[a-z][a-z0-9_-]*:(\*|[a-z][a-z0-9_-]*))$`
abbrev pub is_lower : ℕ → Bool
is_lower c = leb b'a' c && leb c b'z'

abbrev pub is_name_char : ℕ → Bool
is_name_char c = is_lower c || (leb b'0' c && leb c b'9') || c == b'_' || c == b'-'

abbrev pub all_name_chars : Str → Bool
all_name_chars [] = true
all_name_chars (c ∷ s) = is_name_char c && all_name_chars s

abbrev pub is_name : Str → Bool
is_name [] = false
is_name (c ∷ s) = is_lower c && all_name_chars s

abbrev pub is_action : Str → Bool
is_action s = str_eq s (b'*' ∷ []) || is_name s

-- What may follow the first letter of the resource.
abbrev pub is_rest : Str → Bool
is_rest [] = false
is_rest (c ∷ s) = let rest = is_rest s in if c == b':' then is_action s else is_name_char c && rest

abbrev pub is_pair : Str → Bool
is_pair [] = false
is_pair (c ∷ s) = is_lower c && is_rest s

abbrev pub matches_whole : Str → Bool
matches_whole s = str_eq s (b'*' ∷ []) || is_pair s

-- `$` also matches before a newline that ends the text.
abbrev pub without_newline : Str → Str
without_newline [] = []
without_newline (c ∷ []) = if c == 10 then [] else c ∷ []
without_newline (c ∷ d ∷ s) = c ∷ without_newline (d ∷ s)

unfoldable pub is_scope : Str → Bool
is_scope s = matches_whole s || matches_whole (without_newline s)

abbrev pub all_scopes : List Str → Bool
all_scopes [] = true
all_scopes (s ∷ ss) = is_scope s && all_scopes ss

abbrev pub has_hash : Ident → ApiToken → Bool
has_hash hash r = r.token_hash == hash

abbrev pub owned_by : Str → ApiToken → Bool
owned_by user r = str_eq r.user_id user

abbrev pub is_own : Str → Ident → ApiToken → Bool
is_own user id r = r.id == id && str_eq r.user_id user

abbrev pub new_token : Config → Time → Ident → Ident → Str → Ident → List Str → ℕ → ApiToken
new_token config now id hash user name scopes days = record {
  id = id;
  user_id = user;
  name = name;
  token_hash = hash;
  scopes = sorted_set scopes;
  created_at = now;
  expires_at = now + days * config.day;
  last_used_at = none;
}

-- `id` and the token, whose hash is `hash`, are drawn at random.
unfoldable pub create :
    Config
    → Time
    → Ident
    → Ident
    → Str
    → Ident
    → List Str
    → ℕ
    → List ApiToken
    → Issued × List ApiToken
unfolding is_scope count
create config now id hash user name scopes days rs =
    if not (all_scopes scopes)
    then (invalid_scopes, rs)
    else if not (leb 1 days && leb days config.max_days)
    then (invalid_days, rs)
    else if leb config.per_user (count (owned_by user) rs)
    then (too_many, rs)
    else let r = new_token config now id hash user name scopes days in (issued r, rs ++ r ∷ [])

-- Only the user's own.
unfoldable pub revoke : Str → Ident → List ApiToken → Bool × List ApiToken
revoke user id rs = let deleted = delete_record (is_own user id) rs in (deleted.1, deleted.0)

-- The caller that a token stands for.
pub record Payload : Type 0 where
  pub user_id : Str
  pub username : Str
  pub roles : List Ident
  pub exp : Time
  pub scopes : List Str

-- A use is written at most once a minute.
abbrev pub is_stale : Config → Time → Option Time → Bool
is_stale config now none = true
is_stale config now (some last) = ltb config.minute (now - last)

abbrev pub touch : Config → Time → ApiToken → List ApiToken → List ApiToken
touch config now r rs =
    if is_stale config now r.last_used_at
    then (update_record (λ q. q.id == r.id) (λ q. record q { last_used_at = some now }) rs).0
    else rs

abbrev pub owner_payload : ApiToken → Option User → Option Payload
owner_payload r none = none
owner_payload r (some u) =
    if str_eq u.status (codes "active")
    then some (record {
      user_id = u.id;
      username = u.username;
      roles = u.roles;
      exp = r.expires_at;
      scopes = r.scopes;
    })
    else none

abbrev pub touch_if : Config → Time → ApiToken → Option Payload → List ApiToken → List ApiToken
touch_if config now r none rs = rs
touch_if config now r (some p) rs = touch config now r rs

module _ (bu : Backend User) (cfg : Settings) (default_key : Field → Str → Str) where
  unfoldable pub authenticate :
      Config
      → Clock
      → Time
      → Ident
      → List ApiToken
      → Data bu
      → Option Payload × List ApiToken × Data bu
  authenticate config clock now hash rs users = elim (get_record (has_hash hash) rs) [
    | none ↦ (none, rs, users)
    | some r ↦
        if leb r.expires_at now
        then (none, rs, users)
        else let found = get_user_by_id bu cfg default_key clock clock r.user_id true users in
          let payload = owner_payload r found.0 in
          (payload, touch_if config now r payload rs, found.1)
  ]
