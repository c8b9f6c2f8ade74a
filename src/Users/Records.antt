-- ===== src/Users/Records.antt =====
-- What the operations of app/services/data/users_ops.py do to the stored records. Dropping cache
-- entries, with a cache that answers or not, changes no record.
use fast_api_boiler_plate.Base.{
  ℕ, ◌+◌, ◌≡◌, refl, Bool, true, some, List, [], ◌∷◌, Time, arith, Str, ◌∙◌, inl, inr, Bool-cases,
  some_inj,
}
use fast_api_boiler_plate.Store.{get_record, update_record}
use fast_api_boiler_plate.Store.Laws.{get_record-matches}
use fast_api_boiler_plate.Cache.Service.{Backend, Settings, Clock}
use fast_api_boiler_plate.Data.{Data, forget, db_only}
use fast_api_boiler_plate.Data
use fast_api_boiler_plate.Users.{
  User, Field, id, username, email, has_id, bump, forget_field, forget_cached, update_user,
  increment_failed_logins,
}

-- An update by one filter of the record that another finds as well is what that other finds next.
pub get_record-update_record-other :
    {A : Type 0} (p q : A → Bool) (change : A → A) (ds : List A) {r : A}
    → get_record p ds ≡ some r
    → get_record q ds ≡ some r
    → p (change r) ≡ true
    → get_record p (update_record q change ds).0 ≡ some (change r)
unfolding get_record update_record
get_record-update_record-other p q change [] e f h = absurd (cc)
get_record-update_record-other p q change (d ∷ ds) {r} e f h = elim (Bool-cases (p d)) [
  | inl t ↦
      let here : d ≡ r = some_inj (rw t at e) in
      let found : q r ≡ true = get_record-matches q (d ∷ ds) f in rw (here, found, h) refl
  | inr t ↦
      let found : p r ≡ true = get_record-matches p (d ∷ ds) e in
      elim (Bool-cases (q d)) [
        | inl u ↦ let there : d ≡ r = some_inj (rw u at f) in absurd (ground arith)
        | inr u ↦
            rw (u, t)
              (get_record-update_record-other p q change ds {r = r} (rw t at e) (rw u at f) h)
      ]
]

-- An update whose filter finds a record matches one.
pub update_record-found :
    {A : Type 0} (q : A → Bool) (change : A → A) (ds : List A) {r : A}
    → get_record q ds ≡ some r
    → (update_record q change ds).1 ≡ true
unfolding get_record update_record
update_record-found q change [] e = absurd (cc)
update_record-found q change (d ∷ ds) {r} e = elim (Bool-cases (q d)) [
  | inl t ↦ rw t refl
  | inr t ↦ rw t (update_record-found q change ds {r = r} (rw t at e))
]

module _ (b : Backend User) (cfg : Settings) (default_key : Field → Str → Str) where
  forget_field-db :
      (clock : Clock) (field : Field) (value : Str) (s : Data b)
      → (forget_field b cfg default_key clock field value s).db ≡ s.db
  unfolding forget_field Data.delete forget
  forget_field-db clock field [] s = refl
  forget_field-db clock field (c ∷ value) s = refl

  pub forget_cached-db :
      (clock : ℕ → Clock) (u : User) (s : Data b)
      → (forget_cached b cfg default_key clock u s).db ≡ s.db
  unfolding forget_cached
  forget_cached-db clock u s =
      let s1 = forget_field b cfg default_key (clock 0) id u.id s in
      let s2 = forget_field b cfg default_key (clock 1) username u.username s1 in
      forget_field-db (clock 2) email u.email s2
      ∙ forget_field-db (clock 1) username u.username s1
      ∙ forget_field-db (clock 0) id u.id s

  updated-db :
      (change : User → User) (x : Str) (clock : Clock) (s : Data b)
      → (update_record (has_id x) change s.db).1 ≡ true
      → (Data.update b cfg clock (default_key id x) (has_id x) change db_only s).1.db
        ≡ (update_record (has_id x) change s.db).0
  unfolding Data.update
  updated-db change x clock s t = rw t refl

  pub increment_failed_logins_lem :
      (clock : ℕ → Clock) (u : User) (s : Data b) {r : User}
      → get_record (has_id u.id) s.db ≡ some r
      → let (count, s') = increment_failed_logins b cfg default_key clock u s in
        (count ≡ r.failed_login_count + 1) × (s'.db ≡ (update_record (has_id u.id) bump s.db).0)
  unfolding increment_failed_logins Data.increment forget
  increment_failed_logins_lem clock u s {r} e =
      let s' : Data b =
        ((Data.increment b cfg (clock 3) (default_key id u.id) (has_id u.id)
          (λ d. d.failed_login_count) bump s).1) in
      (rw (increment_failed_logins, Data.increment, e) refl, forget_cached-db clock u s')

  -- `update_user` changes the record of the id, and nothing where there is none.
  pub update_user_lem :
      (clock : ℕ → Clock) (now : Time) (x : Str) (updates : User → User) (s : Data b) {r : User}
      → get_record (has_id x) s.db ≡ some r
      → (update_user b cfg default_key clock now x updates s).1.db
        ≡ (update_record (has_id x) (λ u. record (updates u) { updated_at = now }) s.db).0
  unfolding update_user Data.get Data.update
  update_user_lem clock now x updates s {r} e =
      let change : User → User = λ u. record (updates u) { updated_at = now } in
      let t = update_record-found (has_id x) change s.db {r = r} e in
      let s1 : Data b =
        (Data.update b cfg (clock 6) (default_key id x) (has_id x) change db_only s).1 in
      let s2 = forget_cached b cfg default_key clock r s1 in
      rw (update_user, Data.get, e)
        (forget_cached-db (λ n. clock (n + 3)) (change r) s2
          ∙ forget_cached-db clock r s1
          ∙ updated-db change x (clock 6) s t)
