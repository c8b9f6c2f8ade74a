-- ===== src/Users/Cached.antt =====
-- What is cached of a user after a write (app/services/data/users_ops.py), on the in-process cache.
use fast_api_boiler_plate.Base.{
  ℕ, ◌+◌, ◌≤◌, ◌≡◌, refl, Bool, true, Option, none, some, [], ◌∷◌, ◌++◌, if◌then◌else◌, Time, arith,
  Str, str_eq, str_eq_iff, str_eq_refl, lookup, lookup-erase, ap, ◌∙◌,
}
use fast_api_boiler_plate.Store.{get_record}
use fast_api_boiler_plate.Store.Laws.{get_record-matches}
use fast_api_boiler_plate.Cache.Memory
use fast_api_boiler_plate.Cache.Service.{Backend, Settings, Clock, Service, memory_backend}
use fast_api_boiler_plate.Cache.Service
use fast_api_boiler_plate.Data.{Data, forget, db_only}
use fast_api_boiler_plate.Data
use fast_api_boiler_plate.Data.Laws.{same, Stored}
use fast_api_boiler_plate.Users.{
  User, Field, id, username, email, has_id, forget_field, forget_cached, update_user,
}
use fast_api_boiler_plate.Users.Records.{get_record-update_record-other, update_user_lem}

abbrev pub users_memory : Backend User
users_memory = memory_backend same

module _ (cfg : Settings) (default_key : Field → Str → Str) where
  -- What is cached under a key.
  abbrev pub cached : Str → Stored User → Option (User × Option Time)
  cached k s = lookup (cfg.prefix ++ k) s.cache.backend.items

  forget_field-effect :
      (clock : Clock) (field : Field) (c : ℕ) (value k : Str) (s : Stored User)
      → s.cache.skip_until ≤ clock.asked
      → let s' = forget_field users_memory cfg default_key clock field (c ∷ value) s in
        (s'.cache.skip_until ≡ s.cache.skip_until)
        × (cached k s' ≡ (
            if str_eq (cfg.prefix ++ default_key field (c ∷ value)) (cfg.prefix ++ k)
            then none
            else cached k s))
  unfolding forget_field Data.delete forget Service.delete Service.require Memory.delete
  forget_field-effect clock field c value k s up = ground (
    arith,
    lookup-erase (cfg.prefix ++ k) (cfg.prefix ++ default_key field (c ∷ value))
        s.cache.backend.items,
  )

  -- A forgotten field leaves the cache as available as it was, and an empty entry empty.
  forget_field-none :
      (clock : Clock) (field : Field) (value k : Str) (s : Stored User)
      → s.cache.skip_until ≤ clock.asked
      → cached k s ≡ none
      → let s' = forget_field users_memory cfg default_key clock field value s in
        (s'.cache.skip_until ≡ s.cache.skip_until) × (cached k s' ≡ none)
  unfolding forget_field
  forget_field-none clock field [] k s up h = (refl, h)
  forget_field-none clock field (c ∷ value) k s up h =
      let (skip, effect) = forget_field-effect clock field c value k s up in
      (skip, rw effect (ground arith))

  -- Every cache call of a write finds the cache available.
  abbrev pub IsUp : (ℕ → Clock) → Stored User → Type 0
  IsUp clock s = (n : ℕ) → s.cache.skip_until ≤ (clock n).asked

  same_skip :
      (clock : ℕ → Clock) (s s' : Stored User)
      → IsUp clock s
      → s'.cache.skip_until ≡ s.cache.skip_until
      → IsUp clock s'
  same_skip clock s s' up e n = omega (arith, up n, e)

  forget_cached-none :
      (clock : ℕ → Clock) (u : User) (k : Str) (s : Stored User)
      → IsUp clock s
      → cached k s ≡ none
      → let s' = forget_cached users_memory cfg default_key clock u s in
        (s'.cache.skip_until ≡ s.cache.skip_until) × (cached k s' ≡ none)
  unfolding forget_cached
  forget_cached-none clock u k s up h =
      let s1 = forget_field users_memory cfg default_key (clock 0) id u.id s in
      let (e1, h1) = forget_field-none (clock 0) id u.id k s (up 0) h in
      let s2 = forget_field users_memory cfg default_key (clock 1) username u.username s1 in
      let (e2, h2) =
        forget_field-none (clock 1) username u.username k s1 (same_skip clock s s1 up e1 1) h1 in
      let (e3, h3) =
        forget_field-none (clock 2) email u.email k s2 (same_skip clock s s2 up (e2 ∙ e1) 2) h2 in
      (e3 ∙ e2 ∙ e1, h3)

  -- Nothing is left under the key of the user's id.
  forget_cached-forgets :
      (clock : ℕ → Clock) (u : User) (c : ℕ) (x : Str) (s : Stored User)
      → IsUp clock s
      → u.id ≡ c ∷ x
      → let s' = forget_cached users_memory cfg default_key clock u s in
        (s'.cache.skip_until ≡ s.cache.skip_until) × (cached (default_key id (c ∷ x)) s' ≡ none)
  unfolding forget_cached
  forget_cached-forgets clock u c x s up same_id =
      let k = default_key id (c ∷ x) in
      let s1 = forget_field users_memory cfg default_key (clock 0) id (c ∷ x) s in
      let (e1, effect) = forget_field-effect (clock 0) id c x k s (up 0) in
      let h1 : cached k s1 ≡ none = rw (effect, str_eq_refl (cfg.prefix ++ k)) refl in
      let s2 = forget_field users_memory cfg default_key (clock 1) username u.username s1 in
      let (e2, h2) =
        forget_field-none (clock 1) username u.username k s1 (same_skip clock s s1 up e1 1) h1 in
      let (e3, h3) =
        forget_field-none (clock 2) email u.email k s2 (same_skip clock s s2 up (e2 ∙ e1) 2) h2 in
      simp same_id (e3 ∙ e2 ∙ e1, h3)

  updated-skip :
      (clock : Clock) (key : Str) (filters : User → Bool) (change : User → User) (s : Stored User)
      → (Data.update users_memory cfg clock key filters change db_only s).1.cache.skip_until
        ≡ s.cache.skip_until
  unfolding Data.update
  updated-skip clock key filters change s = ground arith

  -- An update of a stored user changes its record and leaves nothing cached under its id.
  pub update_user-cached :
      (clock : ℕ → Clock) (now : Time) (c : ℕ) (x : Str) (updates : User → User) (s : Stored User)
      {r : User}
      → IsUp clock s
      → get_record (has_id (c ∷ x)) s.db ≡ some r
      → (updates r).id ≡ r.id
      → let s' = (update_user users_memory cfg default_key clock now (c ∷ x) updates s).1 in
        (get_record (has_id (c ∷ x)) s'.db ≡ some (record (updates r) { updated_at = now }))
        × (cached (default_key id (c ∷ x)) s' ≡ none)
  unfolding update_user Data.get
  update_user-cached clock now c x updates s {r} up e keeps =
      let change : User → User = λ u. record (updates u) { updated_at = now } in
      let mine = get_record-matches (has_id (c ∷ x)) s.db e in
      let held : has_id (c ∷ x) (change r) ≡ true =
        ap (λ (y : Str). str_eq y (c ∷ x)) keeps ∙ mine in
      let s1 : Stored User =
        (Data.update users_memory cfg (clock 6) (default_key id (c ∷ x)) (has_id (c ∷ x)) change
          db_only s).1 in
      let up1 : IsUp clock s1 =
        same_skip clock s s1 up
          (updated-skip (clock 6) (default_key id (c ∷ x)) (has_id (c ∷ x)) change s) in
      let s2 = forget_cached users_memory cfg default_key clock r s1 in
      let (e2, h2) = forget_cached-forgets clock r c x s1 up1 ((str_eq_iff r.id (c ∷ x)).0 mine) in
      let after =
        forget_cached-none (λ n. clock (n + 3)) (change r) (default_key id (c ∷ x)) s2
          (λ n. same_skip clock s1 s2 up1 e2 (n + 3)) h2 in
      (
        ap (get_record (has_id (c ∷ x)))
              (update_user_lem users_memory cfg default_key clock now (c ∷ x) updates s {r = r} e)
            ∙ get_record-update_record-other (has_id (c ∷ x)) (has_id (c ∷ x)) change s.db e e held,
        rw (update_user, Data.get, e) after.1,
      )
