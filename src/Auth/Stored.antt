-- ===== src/Auth/Stored.antt =====
-- A session behind the in-process cache, and when it is out of use (app/services/auth/service.py,
-- app/services/data/sessions_ops.py).
use fast_api_boiler_plate.Base.{
  ℕ, ◌+◌, ◌≤◌, ◌<◌, ◌≡◌, ◌≢◌, refl, true, false, ◌&&◌, Option, some, Ident, Time, arith, Str,
  str_eq, ap, ◌∙◌,
}
use fast_api_boiler_plate.Store.{get_record}
use fast_api_boiler_plate.Cache.Service.{Backend, Settings, Clock, memory_backend}
use fast_api_boiler_plate.Data.Laws.{
  same, Stored, IsCoherent, get-coherent, get-IsCoherent, get-skip, update-found,
}
use fast_api_boiler_plate.Users.Records.{get_record-update_record-other, update_record-found}
use fast_api_boiler_plate.Store.Laws.{get_record-matches}
use fast_api_boiler_plate.Sessions.{
  Session, cache_key, has_id, is_session_active, get_session, update_session,
}
use fast_api_boiler_plate.Auth.Refresh.{is_current_refresh_token, rotate}

abbrev pub memory : Backend Session
memory = memory_backend same

module _ (cfg : Settings) (cap : ℕ) (sid : Str) where
  abbrev pub stored : Stored Session → Option Session
  stored s = get_record (has_id sid) s.db

  abbrev pub Coherent : Stored Session → Type 0
  Coherent s = IsCoherent cfg (cache_key sid) (has_id sid) s

  pub read :
      (reading writing : Clock) (s : Stored Session)
      → Coherent s
      → let (found, s') = get_session memory cfg cap reading writing sid s in
        (found ≡ stored s)
        × (s'.db ≡ s.db)
        × (s'.cache.skip_until ≡ s.cache.skip_until)
        × Coherent s'
  unfolding get_session
  read reading writing s h =
      let (db, coherent) = get-IsCoherent cfg (cache_key sid) (has_id sid) reading writing s h in
      (
        get-coherent cfg (cache_key sid) (has_id sid) reading writing s h,
        db,
        get-skip cfg (cache_key sid) (has_id sid) reading writing s,
        coherent,
      )

  -- A change of the stored session by its id, which keeps the id.
  pub changed :
      (clock : Clock) (now : Time) (updates : Session → Session) (s : Stored Session) {d : Session}
      → s.cache.skip_until ≤ clock.asked
      → stored s ≡ some d
      → (updates (record d { updated_at = some now })).id ≡ d.id
      → let s' = (update_session memory cfg cap clock now sid updates s).1 in
        (stored s' ≡ some (updates (record d { updated_at = some now }))) × Coherent s'
  unfolding update_session
  changed clock now updates s {d} up e i =
      let change : Session → Session = λ x. updates (record x { updated_at = some now }) in
      let t = update_record-found (has_id sid) change s.db {r = d} e in
      let held : has_id sid (change d) ≡ true =
        ap (λ (y : Str). str_eq y sid) i ∙ get_record-matches (has_id sid) s.db e in
      let (db, coherent) = update-found cfg (cache_key sid) (has_id sid) clock change s up t in
      (
        ap (get_record (has_id sid)) db
            ∙ get_record-update_record-other (has_id sid) (has_id sid) change s.db e e held,
        coherent,
      )

-- A session that is out of use stays so, and a revoked one is.
pub inactive-later :
    (now later : Time) (d : Session) (user : Str)
    → now ≤ later
    → (is_session_active now (some d) && str_eq d.user_id user) ≡ false
    → (is_session_active later (some d) && str_eq d.user_id user) ≡ false
unfolding is_session_active
inactive-later now later d user le h = ground arith

pub revoked-inactive :
    (now later : Time) (d : Session) (user : Str)
    → (is_session_active later (some (record d { revoked_at = some now; updated_at = some now }))
        && str_eq d.user_id user)
      ≡ false
unfolding is_session_active
revoked-inactive now later d user = refl

-- The old token is not the rotated session's once the grace period has passed.
pub rotated-stale :
    (grace now later : Time) (fresh_hash presented : Ident) (old : Option Ident) (d : Session)
    → fresh_hash ≢ presented
    → now + grace < later
    → is_current_refresh_token grace later (rotate now fresh_hash old d) presented ≡ false
unfolding is_current_refresh_token
rotated-stale grace now later fresh_hash presented old d differ passed = ground arith
