-- ===== src/Sessions.antt =====
-- Server-side sessions (app/services/data/sessions_ops.py, app/services/auth/sessions.py).
--
-- A session id is a text, since it is part of a cache key; a token's hash and a description of a
-- device are numbers. Logging is left out. Each reading of the clock is an argument.
pub mod Revocation
pub mod Tests
use fast_api_boiler_plate.Base.{
  ℕ, ◌+◌, ◌*◌, Bool, true, false, not, ◌&&◌, Option, none, some, List, [], ◌∷◌, ◌++◌, map, ltb,
  ◌==◌, if◌then◌else◌, Ident, Time, Str, codes, str_eq, any, select, take, length, is_some,
}
use fast_api_boiler_plate.Cache.Service.{Backend, Settings, Clock, Service}
use fast_api_boiler_plate.Cache.Service
use fast_api_boiler_plate.Data.{Data, CachePolicy, auto}
use fast_api_boiler_plate.Data

pub record Session : Type 0 where
  pub id : Str
  pub user_id : Str
  pub device_info : ℕ
  pub created_at : Time
  pub last_used_at : Time
  pub expires_at : Time
  pub revoked_at : Option Time
  pub updated_at : Option Time
  pub refresh_token_hash : Option Ident
  pub previous_refresh_token_hash : Option Ident
  pub rotated_at : Option Time

-- `is_session_active`
unfoldable pub is_session_active : Time → Option Session → Bool
is_session_active now none = false
is_session_active now (some s) = not (is_some s.revoked_at) && ltb now s.expires_at

-- `_cache_key`
abbrev pub cache_key : Str → Str
cache_key id = codes "session:" ++ id

abbrev pub has_id : Str → Session → Bool
has_id id s = str_eq s.id id

-- A query without a limit is capped (app/database/mongodb.py, `MAX_UNPAGED_RESULTS`).
unfoldable pub find_unpaged {ℓ} : {A : Type ℓ} → ℕ → (A → Bool) → List A → List A
find_unpaged cap filters ds = take cap (select filters ds)

abbrev pub is_excepted : Option Str → Str → Bool
is_excepted none id = false
is_excepted (some keep) id = str_eq id keep

-- The ids that `revoke_user_sessions` revokes, of the user's sessions.
unfoldable pub live_ids : Time → Option Str → List Session → List Str
unfolding is_session_active
live_ids now keep sessions =
    map (λ s. s.id)
      (select (λ s. is_session_active now (some s) && not (is_excepted keep s.id)) sessions)

abbrev pub revoke_at : Time → Session → Session
revoke_at now s = record s { revoked_at = some now; updated_at = some now }

-- The lifetimes of `SessionManager`, in days, and the length of a day.
pub record Lifetimes : Type 0 where
  pub refresh_days : ℕ
  pub remember_me_days : ℕ
  pub day : Time

-- The record that `SessionManager.create_session` stores.
unfoldable pub new_session : Lifetimes → Time → Str → Str → ℕ → Bool → Option Ident → Session
new_session cfg now id user device remember_me refresh_hash = record {
  id = id;
  user_id = user;
  device_info = device;
  created_at = now;
  last_used_at = now;
  expires_at = now + (if remember_me then cfg.remember_me_days else cfg.refresh_days) * cfg.day;
  revoked_at = none;
  updated_at = none;
  refresh_token_hash = refresh_hash;
  previous_refresh_token_hash = none;
  rotated_at = none;
}

module _ (b : Backend Session) (cfg : Settings) (cap : ℕ) where
  -- An upsert by the id: an existing record is overwritten, field by field.
  unfoldable pub create_session : Clock → Session → Data b → Data b
  create_session clock new s =
      Data.set b cfg clock (cache_key new.id) (has_id new.id)
        (λ old. record new {
          updated_at = old.updated_at;
          refresh_token_hash = elim new.refresh_token_hash [
            | none ↦ old.refresh_token_hash
            | some h ↦ some h
          ];
          previous_refresh_token_hash = old.previous_refresh_token_hash;
          rotated_at = old.rotated_at;
        })
        new none auto s

  -- `SessionManager.create_session`, whose id and token hash the caller has made.
  unfoldable pub open_session :
      Clock → Lifetimes → Time → Str → Str → ℕ → Bool → Option Ident → Data b → Data b
  unfolding new_session create_session
  open_session clock days now id user device remember_me refresh_hash s =
      create_session clock (new_session days now id user device remember_me refresh_hash) s

  unfoldable pub get_session : Clock → Clock → Str → Data b → Option Session × Data b
  get_session reading writing id s =
      Data.get b cfg reading writing (cache_key id) (has_id id) auto s

  unfoldable pub get_user_sessions : Str → Data b → List Session
  unfolding find_unpaged
  get_user_sessions user s = find_unpaged cap (λ d. str_eq d.user_id user) s.db

  unfoldable pub update_session : Clock → Time → Str → (Session → Session) → Data b → Bool × Data b
  update_session clock now id updates s =
      Data.update b cfg clock (cache_key id) (has_id id)
        (λ d. updates (record d { updated_at = some now })) auto s

  unfoldable pub revoke_session : Clock → Time → Str → Data b → Bool × Data b
  unfolding update_session
  revoke_session clock now id s =
      update_session clock now id (λ d. record d { revoked_at = some now }) s

  -- Each cached copy is dropped in turn.
  unfoldable pub forget_all : (Str → Clock) → List Str → Data b → Data b
  forget_all clock [] s = s
  forget_all clock (id ∷ ids) s =
      forget_all clock ids (Data.forget b cfg (clock id) (cache_key id) s)

  abbrev pub revoke_live : (Str → Clock) → Time → Str → List Str → Data b → ℕ × Data b
  revoke_live clock now user [] s = (0, s)
  revoke_live clock now user (id ∷ ids) s = (
    length (id ∷ ids),
    forget_all clock (id ∷ ids)
        (Data.update_many b cfg (λ d. str_eq d.user_id user && any (λ x. str_eq x d.id) (id ∷ ids))
          (revoke_at now) s).1,
  )

  unfoldable pub revoke_user_sessions :
      (Str → Clock) → Time → Str → Option Str → Data b → ℕ × Data b
  unfolding forget_all get_user_sessions live_ids
  revoke_user_sessions clock now user keep s =
      revoke_live clock now user (live_ids now keep (get_user_sessions user s)) s

  -- `SessionManager.is_session_active`: an empty or missing id names no session.
  unfoldable pub is_active : Clock → Clock → Time → Option Str → Data b → Bool × Data b
  unfolding get_session is_session_active
  is_active reading writing now none s = (false, s)
  is_active reading writing now (some []) s = (false, s)
  is_active reading writing now (some (c ∷ id)) s =
      let (found, s') = get_session reading writing (c ∷ id) s in (is_session_active now found, s')
