-- ===== src/Sessions/Revocation.antt =====
-- Revoked sessions stay out (app/services/data/sessions_ops.py).
use fast_api_boiler_plate.Base.{
  ℕ, ◌≤◌, ◌≡◌, refl, Bool, true, false, ◌&&◌, Option, none, some, List, [], ◌∷◌, ◌++◌,
  if◌then◌else◌, Time, arith, Str, codes, str_eq, str_eq_iff, str_eq_refl, str_eq-prefix, any,
  select, take, length, lookup, lookup-erase, sym, ap, ◌∙◌, inl, inr, Bool-cases, some_inj, suc,
  zero,
}
use fast_api_boiler_plate.Store.{get_record, update_many}
use fast_api_boiler_plate.Store.Laws.{get_record-matches}
use fast_api_boiler_plate.Cache.Memory
use fast_api_boiler_plate.Cache.Service.{Backend, Settings, Clock, Service, memory_backend}
use fast_api_boiler_plate.Cache.Service
use fast_api_boiler_plate.Data.{Data, auto, forget}
use fast_api_boiler_plate.Data
use fast_api_boiler_plate.Data.Laws.{same, Stored, IsCoherent, get-coherent}
use fast_api_boiler_plate.Sessions.{
  Session, is_session_active, cache_key, has_id, is_excepted, live_ids, revoke_at, get_session,
  get_user_sessions, forget_all, revoke_live, revoke_user_sessions,
}

take-all {ℓ} : {A : Type ℓ} (n : ℕ) (xs : List A) → length xs ≤ n → take n xs ≡ xs
take-all zero [] h = refl
take-all zero (x ∷ xs) h = absurd (omega arith)
take-all (suc n) [] h = refl
take-all (suc n) (x ∷ xs) h = ap (λ ys. x ∷ ys) (take-all n xs (omega arith))

-- The record of an id after an update of many that keeps the ids.
get_record-update_many :
    (id : Str) (filters : Session → Bool) (change : Session → Session) (ds : List Session)
    → ((d : Session) → (change d).id ≡ d.id)
    → get_record (has_id id) (update_many filters change ds) ≡ (elim (get_record (has_id id) ds) [
      | none ↦ none
      | some d ↦ some (if filters d then change d else d)
    ])
unfolding get_record update_many
get_record-update_many id filters change [] keeps = refl
get_record-update_many id filters change (d ∷ ds) keeps =
    ground (arith, keeps d, get_record-update_many id filters change ds keeps)

-- A user's session that is active and not excepted is among those to revoke.
live_ids-has :
    (now : Time) (keep : Option Str) (user : Str) (id : Str) (ds : List Session) {d : Session}
    → get_record (has_id id) ds ≡ some d
    → str_eq d.user_id user ≡ true
    → is_session_active now (some d) ≡ true
    → is_excepted keep d.id ≡ false
    → any (λ x. str_eq x d.id) (live_ids now keep (select (λ e. str_eq e.user_id user) ds)) ≡ true
unfolding get_record live_ids
live_ids-has now keep user id [] found u a k = cc
live_ids-has now keep user id (e ∷ ds) {d} found u a k = elim (Bool-cases (has_id id e)) [
  | inl t ↦
      let here : e ≡ d = some_inj (rw t at found) in rw here (ground (arith, str_eq_refl d.id))
  | inr t ↦
      let later = live_ids-has now keep user id ds {d = d} (rw t at found) u a k in ground (arith)
]

update_many-none :
    (filters : Session → Bool) (change : Session → Session) (ds : List Session)
    → ((d : Session) → filters d ≡ false)
    → update_many filters change ds ≡ ds
unfolding update_many
update_many-none filters change [] never = refl
update_many-none filters change (d ∷ ds) never =
    rw (never d, update_many-none filters change ds never)

changed-from :
    (filters : Session → Bool) (change : Session → Session) (o : Option Session) {d : Session}
    → (elim o [ none ↦ none | some x ↦ some (if filters x then change x else x) ]) ≡ some d
    → (old : Session) × (o ≡ some old) × (d ≡ (if filters old then change old else old))
changed-from filters change none e = absurd (cc)
changed-from filters change (some x) e = (x, refl, sym (some_inj e))

abbrev to_revoke : Str → List Str → Session → Bool
to_revoke user ids d = str_eq d.user_id user && any (λ x. str_eq x d.id) ids

-- A session that is revoked, or was not active and is left alone, is not active later.
inactive-later :
    (now later : Time) (user : Str) (keep : Option Str) (ids : List Str) (old d : Session)
    → d ≡ (if to_revoke user ids old then revoke_at now old else old)
    → (str_eq old.user_id user ≡ true
        → is_session_active now (some old) ≡ true
        → is_excepted keep old.id ≡ false
        → any (λ x. str_eq x old.id) ids ≡ true)
    → now ≤ later
    → str_eq d.user_id user ≡ true
    → is_excepted keep d.id ≡ false
    → is_session_active later (some d) ≡ false
unfolding is_session_active
inactive-later now later user keep ids old d changed listed le u k =
    elim (Bool-cases (to_revoke user ids old)) [
      | inl t ↦ let same : d ≡ revoke_at now old = rw t at changed in rw same (ground arith)
      | inr t ↦
          let same : d ≡ old = rw t at changed in
          let u' : str_eq old.user_id user ≡ true = rw same at u in
          let k' : is_excepted keep old.id ≡ false = rw same at k in
          rw same (elim (Bool-cases (is_session_active now (some old))) [
            | inl a ↦ absurd (ground (arith, listed u' a k'))
            | inr a ↦ ground arith
          ])
    ]

abbrev pub memory : Backend Session
memory = memory_backend same

module _ (cfg : Settings) (cap : ℕ) (clock : Str → Clock) where
  abbrev cached_under : Str → Stored Session → Option (Session × Option Time)
  cached_under id s = lookup (cfg.prefix ++ cache_key id) s.cache.backend.items

  abbrev IsUp : Stored Session → Type 0
  IsUp s = (x : Str) → s.cache.skip_until ≤ (clock x).asked

  forget-effect :
      (i j : Str) (s : Stored Session)
      → IsUp s
      → let s' = forget memory cfg (clock i) (cache_key i) s in
        (s'.db ≡ s.db)
        × (s'.cache.skip_until ≡ s.cache.skip_until)
        × (cached_under j s' ≡ (if str_eq i j then none else cached_under j s))
  unfolding forget Service.delete Service.require Memory.delete
  forget-effect i j s up = ground (
    arith,
    up i,
    lookup-erase (cfg.prefix ++ cache_key j) (cfg.prefix ++ cache_key i) s.cache.backend.items,
    str_eq-prefix cfg.prefix (cache_key i) (cache_key j),
    str_eq-prefix (codes "session:") i j,
  )

  forget_all-effect :
      (ids : List Str) (j : Str) (s : Stored Session)
      → IsUp s
      → let s' = forget_all memory cfg cap clock ids s in
        (s'.db ≡ s.db)
        × (cached_under j s' ≡ (if any (λ x. str_eq x j) ids then none else cached_under j s))
  unfolding forget_all
  forget_all-effect [] j s up = (refl, refl)
  forget_all-effect (i ∷ ids) j s up =
      let s' : Stored Session = forget memory cfg (clock i) (cache_key i) s in
      let (db, skip, held) = forget-effect i j s up in
      let (db', held') = forget_all-effect ids j s' (λ x. rw skip (up x)) in
      (db' ∙ db, rw (held', held) (ground arith))

  revoke_live-effect :
      (now : Time) (user : Str) (ids : List Str) (j : Str) (s : Stored Session)
      → IsUp s
      → let s' = (revoke_live memory cfg cap clock now user ids s).1 in
        (s'.db ≡ update_many (to_revoke user ids) (revoke_at now) s.db)
        × (cached_under j s' ≡ (if any (λ x. str_eq x j) ids then none else cached_under j s))
  unfolding Data.update_many
  revoke_live-effect now user [] j s up =
      (sym (update_many-none (to_revoke user []) (revoke_at now) s.db (λ d. ground arith)), refl)
  revoke_live-effect now user (i ∷ ids) j s up =
      forget_all-effect (i ∷ ids) j
        (Data.update_many memory cfg (to_revoke user (i ∷ ids)) (revoke_at now) s).1 up

  revoke_live-IsCoherent :
      (now : Time) (user : Str) (ids : List Str) (id : Str) (s : Stored Session)
      → IsUp s
      → IsCoherent cfg (cache_key id) (has_id id) s
      → IsCoherent cfg
          (cache_key id)
          (has_id id)
          (revoke_live memory cfg cap clock now user ids s).1
  revoke_live-IsCoherent now user ids id s up h v e held =
      let (db, under) = revoke_live-effect now user ids id s up in
      let before = sym under ∙ held in
      elim (Bool-cases (any (λ x. str_eq x id) ids)) [
        | inl t ↦
            let gone : ◌≡◌ {A = Option (Session × Option Time)} none (some (v, e)) =
              rw t at before in
            absurd (cc)
        | inr t ↦
            let there : get_record (has_id id) s.db ≡ some v = h v e (rw t at before) in
            let same_id : v.id ≡ id =
              (str_eq_iff v.id id).0 (get_record-matches (has_id id) s.db there) in
            rw
              (
                db,
                get_record-update_many id (to_revoke user ids) (revoke_at now) s.db (λ d. refl),
                there,
                same_id,
                t,
              )
              (ground arith)
      ]

  revoke_live-found :
      (now : Time) (user : Str) (ids : List Str) (id : Str) (s : Stored Session) {d : Session}
      → IsUp s
      → IsCoherent cfg (cache_key id) (has_id id) s
      → (reading writing : Clock)
      → (get_session memory cfg cap reading writing id
          (revoke_live memory cfg cap clock now user ids s).1).0
        ≡ some d
      → (old : Session) × (get_record (has_id id) s.db ≡ some old)
        × (d ≡ (if to_revoke user ids old then revoke_at now old else old))
  unfolding get_session
  revoke_live-found now user ids id s {d} up h reading writing found =
      let s' = (revoke_live memory cfg cap clock now user ids s).1 in
      let stored =
        sym (
          get-coherent cfg (cache_key id) (has_id id) reading writing s'
            (revoke_live-IsCoherent now user ids id s up h))
        ∙ found in
      changed-from (to_revoke user ids) (revoke_at now) (get_record (has_id id) s.db) (
        sym (get_record-update_many id (to_revoke user ids) (revoke_at now) s.db (λ x. refl))
        ∙ ap (get_record (has_id id)) (sym (revoke_live-effect now user ids id s up).0)
        ∙ stored)

  -- Once a user's sessions are revoked, with the cache answering and no more sessions than one
  -- query returns, no read at any later time finds a session of that user active under an id whose
  -- cached copy was coherent, but for the excepted one: neither in the database nor in the cache.
  pub revoke_user_sessions-inactive :
      (now later : Time) (user : Str) (keep : Option Str) (id : Str) (s : Stored Session)
      {d : Session}
      → ((x : Str) → s.cache.skip_until ≤ (clock x).asked)
      → length (select (λ e. str_eq e.user_id user) s.db) ≤ cap
      → IsCoherent cfg (cache_key id) (has_id id) s
      → now ≤ later
      → (reading writing : Clock)
      → (get_session memory cfg cap reading writing id
          (revoke_user_sessions memory cfg cap clock now user keep s).1).0
        ≡ some d
      → str_eq d.user_id user ≡ true
      → is_excepted keep d.id ≡ false
      → is_session_active later (some d) ≡ false
  unfolding revoke_user_sessions get_user_sessions
  revoke_user_sessions-inactive now later user keep id s {d} up few h le reading writing found u k =
      let all : get_user_sessions memory cfg cap user s ≡ select (λ e. str_eq e.user_id user) s.db =
        take-all cap (select (λ e. str_eq e.user_id user) s.db) few in
      let ids = live_ids now keep (get_user_sessions memory cfg cap user s) in
      let (old, was, changed) =
        revoke_live-found now user ids id s {d = d} up h reading writing found in
      inactive-later now later user keep ids old d changed
        (λ u' a k'. rw all (live_ids-has now keep user id s.db {d = old} was u' a k')) le u k
