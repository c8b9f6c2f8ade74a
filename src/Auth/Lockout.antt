-- ===== src/Auth/Lockout.antt =====
-- The lockout of app/services/auth/service.py (`authenticate`).
use fast_api_boiler_plate.Base.{
  ℕ, ◌+◌, ◌<◌, ◌≡◌, refl, true, false, Option, none, some, if◌then◌else◌, Ident, Time, arith, Str,
  str_eq, ltb, leb, inl, inr, Bool-cases, ap, ◌∙◌,
}
use fast_api_boiler_plate.Store.{get_record, update_record}
use fast_api_boiler_plate.Store.Laws.{get_record-matches}
use fast_api_boiler_plate.Cache.Service.{Backend, Settings, Clock}
use fast_api_boiler_plate.Users.{User, Field, has_id, has_username, bump, increment_failed_logins}
use fast_api_boiler_plate.Users.Records.{
  get_record-update_record-other, increment_failed_logins_lem, update_user_lem,
}
use fast_api_boiler_plate.Auth.{
  Lock, Passwords, Logins, is_password, upgrade, lock_until, signed_in, updated,
  record_login_attempt, refuse, fail, succeed, attempt,
}

abbrev pub touched : Time → User → User
touched now u = record u { updated_at = now }

module _ {b : Backend User} where
  -- The stored record that both the name and the id find.
  abbrev pub IsStored : Str → Str → User → Logins b → Type 0
  IsStored name x d s =
      (get_record (has_username name) s.users.db ≡ some d)
      × (get_record (has_id x) s.users.db ≡ some d)

  -- A change by the id that keeps the name and the id leaves the changed record.
  changed-IsStored :
      (name x : Str) (change : User → User) (d : User) (s s' : Logins b)
      → IsStored name x d s
      → s'.users.db ≡ (update_record (has_id x) change s.users.db).0
      → (change d).username ≡ d.username
      → (change d).id ≡ d.id
      → IsStored name x (change d) s'
  changed-IsStored name x change d s s' h e n i =
      let named : has_username name (change d) ≡ true =
        ap (λ (y : Str). str_eq y name) n ∙ get_record-matches (has_username name) s.users.db h.0 in
      let held : has_id x (change d) ≡ true =
        ap (λ (y : Str). str_eq y x) i ∙ get_record-matches (has_id x) s.users.db h.1 in
      (
        ap (get_record (has_username name)) e
            ∙ get_record-update_record-other (has_username name) (has_id x) change s.users.db h.0
                h.1 named,
        ap (get_record (has_id x)) e
            ∙ get_record-update_record-other (has_id x) (has_id x) change s.users.db h.1 h.1 held,
      )

module _ (b : Backend User) (cfg : Settings) (default_key : Field → Str → Str) (lock : Lock)
    (passwords : Passwords) (counting clock : ℕ → Clock) (now : Time) (name password : Str) where
  abbrev pub run_attempt : User → Logins b → Option User × Logins b
  run_attempt r s = attempt b cfg default_key lock passwords counting clock now name password r s

  -- The state in which the attempt has been reserved.
  abbrev reserved : User → Logins b → Logins b
  reserved r s = record s {
    users = (increment_failed_logins b cfg default_key counting r s.users).1;
  }

  updated-IsStored :
      (x : Str) (change : User → User) (d : User) (s : Logins b)
      → IsStored name x d s
      → (change d).username ≡ d.username
      → (change d).id ≡ d.id
      → IsStored name x
          (record (change d) { updated_at = now })
          (updated b cfg default_key lock passwords clock now x change s)
  updated-IsStored x change d s h n i =
      changed-IsStored name x (λ u. record (change u) { updated_at = now }) d s
        (updated b cfg default_key lock passwords clock now x change s) h
        (update_user_lem b cfg default_key clock now x change s.users {r = d} h.1) n i

  reserved-IsStored :
      (r d : User) (s : Logins b)
      → IsStored name r.id d s
      → (increment_failed_logins b cfg default_key counting r s.users).0 ≡ d.failed_login_count + 1
        × IsStored name r.id (bump d) (reserved r s)
  reserved-IsStored r d s h =
      let (count, db) =
        increment_failed_logins_lem b cfg default_key counting r s.users {r = d} h.1 in
      (count, changed-IsStored name r.id bump d s (reserved r s) h db refl refl)

  -- The hash that a sign-in stores, by the hash that was read and the one that is stored.
  abbrev pub stored_hash : Option Ident → Option Ident → Option Ident
  stored_hash none kept = kept
  stored_hash (some h) kept =
      if passwords.needs_rehash h then some (passwords.ahash_password password) else kept

  upgrade_lem :
      (r : User) (kept : Option Ident)
      → elim (upgrade b cfg default_key lock passwords password r) [ none ↦ kept | some h ↦ some h ]
        ≡ stored_hash r.password_hash kept
  upgrade_lem r kept = ground arith

  -- An attempt with the right password succeeds unless the stored count is at the limit. It leaves
  -- the stored record without a lock, also one that was set after the attempt had read `r`, with
  -- the count at 0 and the time of the sign-in; the hash is a new one of the password if the hash
  -- that was read needs it, and no other field changes.
  pub attempt-succeeds :
      (r d : User) (s : Logins b)
      → IsStored name r.id d s
      → d.failed_login_count < lock.max_failed_logins
      → is_password b cfg default_key lock passwords password r ≡ true
      → ((run_attempt r s).0 ≡ some r)
        × IsStored name r.id
            (record d {
              failed_login_count = 0;
              locked_until = none;
              last_login = some now;
              updated_at = now;
              password_hash = stored_hash r.password_hash d.password_hash;
            })
            (run_attempt r s).1
  unfolding attempt succeed
  attempt-succeeds r d s h few right =
      let (count, there) = reserved-IsStored r d s h in
      let below : ltb lock.max_failed_logins (d.failed_login_count + 1) ≡ false = ground arith in
      let kept : elim (upgrade b cfg default_key lock passwords password r) [
        | none ↦ d.password_hash
        | some h ↦ some h
      ]
          ≡ stored_hash r.password_hash d.password_hash =
        upgrade_lem r d.password_hash in
      let stored =
        updated-IsStored r.id (signed_in now (upgrade b cfg default_key lock passwords password r))
          (bump d) (reserved r s) there refl refl in
      rw (count, below, right) (refl, rw (← kept) stored)

  -- An attempt with a wrong password counts, and at the limit locks the stored record.
  pub attempt-fails :
      (r d : User) (s : Logins b)
      → IsStored name r.id d s
      → d.failed_login_count < lock.max_failed_logins
      → is_password b cfg default_key lock passwords password r ≡ false
      → ((run_attempt r s).0 ≡ none)
        × IsStored name r.id
            (if leb lock.max_failed_logins (d.failed_login_count + 1)
              then touched now (lock_until (now + lock.lockout) d)
              else bump d)
            (run_attempt r s).1
  unfolding attempt fail refuse record_login_attempt
  attempt-fails r d s h few wrong =
      let (count, there) = reserved-IsStored r d s h in
      let below : ltb lock.max_failed_logins (d.failed_login_count + 1) ≡ false = ground arith in
      let stored =
        updated-IsStored r.id (lock_until (now + lock.lockout)) (bump d) (reserved r s) there refl
          refl in
      elim (Bool-cases (leb lock.max_failed_logins (d.failed_login_count + 1))) [
        | inl t ↦ rw (count, below, wrong, t) (refl, stored)
        | inr t ↦ rw (count, below, wrong, t) (refl, there)
      ]
