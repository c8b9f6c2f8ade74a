-- ===== src/Data.antt =====
-- `DataService` (app/services/data/data_service.py): reads and writes of one collection with a
-- cache policy. Records are typed, so the form that JSON gives to a datetime in the cache, and the
-- normalization that takes it back, do not arise. The database does not fail.
pub mod Laws
pub mod History
pub mod Tests
use fast_api_boiler_plate.Base.{
  ℕ, ◌+◌, Bool, true, false, Option, none, some, List, [], ◌∷◌, ◌++◌, if◌then◌else◌, Str, any,
}
use fast_api_boiler_plate.Store.{
  get_record, update_record, update_many as update_all, delete_record, count as count_records,
}
use fast_api_boiler_plate.Cache.Service.{Backend, Settings, Clock, Service}
use fast_api_boiler_plate.Cache.Service

pub data CachePolicy : Type 0 where
  auto cache_only db_only : CachePolicy

abbrev pub uses_cache : CachePolicy → Bool
uses_cache db_only = false
uses_cache auto = true
uses_cache cache_only = true

module _ {A : Type 0} (b : Backend A) where
  pub record Data : Type 0 where
    pub db : List A
    pub cache : Service b

module _ {A : Type 0} (b : Backend A) (cfg : Settings) where
  -- `self.cache_service.delete(key)`
  unfoldable pub forget : Clock → Str → Data b → Data b
  forget clock key s = record s { cache = (Service.delete b cfg clock key s.cache).1 }

  abbrev pub forget_if : Bool → Clock → Str → Data b → Data b
  forget_if true clock key s = forget clock key s
  forget_if false clock key s = s

  -- The database's record, kept in the cache.
  unfoldable pub fill : Clock → Str → (A → Bool) → Data b → Option A × Data b
  fill clock key filters s = elim (get_record filters s.db) [
    | none ↦ (none, s)
    | some r ↦ (some r, record s { cache = (Service.set b cfg clock key r none s.cache).1 })
  ]

  abbrev pub after_miss :
      Clock → Str → (A → Bool) → List A → Option A × Service b → Option A × Data b
  after_miss clock key filters db (some v, c) = (some v, record { db = db; cache = c })
  after_miss clock key filters db (none, c) = fill clock key filters (record { db = db; cache = c })

  unfoldable pub get : Clock → Clock → Str → (A → Bool) → CachePolicy → Data b → Option A × Data b
  unfolding fill
  get reading writing key filters cache_only s =
      let (v, c) = Service.get b cfg reading key s.cache in (v, record s { cache = c })
  get reading writing key filters auto s =
      after_miss writing key filters s.db (Service.get b cfg reading key s.cache)
  get reading writing key filters db_only s = (get_record filters s.db, s)

  -- An upsert: `change` on the record that matches, or else the new record; `value` is what
  -- `CACHE_ONLY` caches.
  unfoldable pub set :
      Clock → Str → (A → Bool) → (A → A) → A → Option ℕ → CachePolicy → Data b → Data b
  unfolding forget
  set clock key filters change value ttl cache_only s = record s {
    cache = (Service.set b cfg clock key value ttl s.cache).1;
  }
  set clock key filters change value ttl policy s =
      let (db, found) = update_record filters change s.db in
      forget_if (uses_cache policy) clock key
        (record s { db = if found then db else s.db ++ value ∷ [] })

  unfoldable pub count : (A → Bool) → Data b → ℕ
  count filters s = count_records filters s.db

  -- `increment`: the cache entry is dropped whether or not a record matched.
  unfoldable pub increment :
      Clock → Str → (A → Bool) → (A → ℕ) → (A → A) → Data b → Option ℕ × Data b
  unfolding forget
  increment clock key filters field bump s = (
    elim (get_record filters s.db) [ none ↦ none | some r ↦ some (field (bump r)) ],
    forget clock key (record s { db = (update_record filters bump s.db).0 }),
  )

  unfoldable pub update : Clock → Str → (A → Bool) → (A → A) → CachePolicy → Data b → Bool × Data b
  unfolding forget
  update clock key filters change policy s =
      let (db, found) = update_record filters change s.db in
      (found, if found then forget_if (uses_cache policy) clock key (record s { db = db }) else s)

  unfoldable pub update_many : (A → Bool) → (A → A) → Data b → ℕ × Data b
  update_many filters change s =
      (count_records filters s.db, record s { db = update_all filters change s.db })

  unfoldable pub delete : Clock → Str → (A → Bool) → CachePolicy → Data b → Bool × Data b
  unfolding forget
  delete clock key filters cache_only s = (true, forget clock key s)
  delete clock key filters policy s =
      let (db, found) = delete_record filters s.db in
      (found, if found then forget_if (uses_cache policy) clock key (record s { db = db }) else s)
