-- ===== src/Data/Laws.antt =====
-- When a cached record agrees with the database (app/services/data/data_service.py), on the
-- in-process cache.
use fast_api_boiler_plate.Base.{
  ap, true, ◌∙◌, ◌⊎◌, lookup-insert_self, ◌≤◌, ◌≡◌, refl, Bool, Option, none, some, ◌++◌, Time,
  arith, Str, lookup, lookup-erase, str_eq_refl, sym, inl, inr, Option-cases, Bool-cases,
}
use fast_api_boiler_plate.Store.{get_record, update_record}
use fast_api_boiler_plate.Cache.Memory
use fast_api_boiler_plate.Cache.Memory.{has_expired, expiry}
use fast_api_boiler_plate.Cache.Service.{
  Backend, Settings, Clock, Service, memory_backend, or_default,
}
use fast_api_boiler_plate.Cache.Service
use fast_api_boiler_plate.Data.{auto, Data, forget, fill, after_miss, get, update}

abbrev pub same : {A : Type 0} → A → A
same r = r

abbrev pub Stored : Type 0 → Type 0
Stored A = Data (memory_backend (same {A = A}))

-- What a read of the cache answers is held there.
cached-held :
    {A : Type 0} (cfg : Settings) (clock : Clock) (key : Str)
    (c : Service (memory_backend (same {A = A}))) (v : A)
    → (Service.get (memory_backend same) cfg clock key c).0 ≡ some v
    → (e : Option Time) × (lookup (cfg.prefix ++ key) c.backend.items ≡ some (v, e))
unfolding Service.get Memory.get
cached-held cfg clock key c v h = elim (Option-cases (lookup (cfg.prefix ++ key) c.backend.items)) [
  | inl missing ↦ absurd (ground arith)
  | inr ((w, e), found) ↦ (e, ground arith)
]

module _ {A : Type 0} (cfg : Settings) (key : Str) (filters : A → Bool) where
  -- What is cached under the key is the database's record.
  abbrev pub IsCoherent : Stored A → Type 0
  IsCoherent s =
      (v : A) (e : Option Time)
      → lookup (cfg.prefix ++ key) s.cache.backend.items ≡ some (v, e)
      → get_record filters s.db ≡ some v

  fill-answer :
      (clock : Clock) (s : Stored A)
      → (fill (memory_backend same) cfg clock key filters s).0 ≡ get_record filters s.db
  unfolding fill
  fill-answer clock s = ground arith

  -- A read through the cache answers the database's record, whether it is cached or not, and
  -- whether the cache is available or not.
  pub get-coherent :
      (reading writing : Clock) (s : Stored A)
      → IsCoherent s
      → (get (memory_backend same) cfg reading writing key filters auto s).0
        ≡ get_record filters s.db
  unfolding get
  get-coherent reading writing s h =
      answer (Service.get (memory_backend same) cfg reading key s.cache) refl
    where
      answer :
          (r : Option A × Service (memory_backend (same {A = A})))
          → Service.get (memory_backend same) cfg reading key s.cache ≡ r
          → (after_miss (memory_backend same) cfg writing key filters s.db r).0
            ≡ get_record filters s.db
      answer (none, c) e = fill-answer writing (record { db = s.db; cache = c })
      answer (some v, c) e =
          let (t, held) = cached-held cfg reading key s.cache v (rw e) in sym (h v t held)

  fill-db :
      (clock : Clock) (s : Stored A)
      → (fill (memory_backend same) cfg clock key filters s).1.db ≡ s.db
  unfolding fill
  fill-db clock s = ground arith

  forget-db :
      (clock : Clock) (s : Stored A) → (forget (memory_backend same) cfg clock key s).db ≡ s.db
  unfolding forget
  forget-db clock s = refl

  -- Forgetting a key while the cache answers leaves nothing cached under it.
  pub forget-IsCoherent :
      (clock : Clock) (s : Stored A)
      → s.cache.skip_until ≤ clock.asked
      → IsCoherent (forget (memory_backend same) cfg clock key s)
  unfolding forget Service.delete Memory.delete
  forget-IsCoherent clock s up v e held = absurd (
      ground (
        arith,
        lookup-erase (cfg.prefix ++ key) (cfg.prefix ++ key) s.cache.backend.items,
        str_eq_refl (cfg.prefix ++ key),
      ))

  -- An update by the record's own key and filters keeps the cache coherent, as long as the cache
  -- answers: the entry is dropped, or no record matched and nothing changed.
  pub update-IsCoherent :
      (clock : Clock) (change : A → A) (s : Stored A)
      → s.cache.skip_until ≤ clock.asked
      → IsCoherent s
      → IsCoherent (update (memory_backend same) cfg clock key filters change auto s).1
  unfolding update
  update-IsCoherent clock change s up h = elim (Bool-cases (update_record filters change s.db).1) [
    | inl e ↦
        rw e (forget-IsCoherent clock (record s { db = (update_record filters change s.db).0 }) up)
    | inr e ↦ rw e h
  ]

  -- What is held after a read was held before, or is the record that the read filled in.
  get-held :
      (clock : Clock) (c : Service (memory_backend (same {A = A}))) (v : A) (e : Option Time)
      → lookup
          (cfg.prefix ++ key)
          (Service.get (memory_backend same) cfg clock key c).1.backend.items
        ≡ some (v, e)
      → lookup (cfg.prefix ++ key) c.backend.items ≡ some (v, e)
  unfolding Service.get Memory.get
  get-held clock c v e held = ground (
    arith,
    lookup-erase (cfg.prefix ++ key) (cfg.prefix ++ key) c.backend.items,
    str_eq_refl (cfg.prefix ++ key),
  )

  set-held :
      (clock : Clock) (c : Service (memory_backend (same {A = A}))) (r v : A) (e : Option Time)
      → lookup
          (cfg.prefix ++ key)
          (Service.set (memory_backend same) cfg clock key r none c).1.backend.items
        ≡ some (v, e)
      → (v ≡ r) ⊎ (lookup (cfg.prefix ++ key) c.backend.items ≡ some (v, e))
  unfolding Service.set Memory.set
  set-held clock c r v e held = ground (
    arith,
    lookup-insert_self (cfg.prefix ++ key)
        (r, expiry clock.asked (some (or_default none cfg.default_ttl))) c.backend.items,
  )

  fill-IsCoherent :
      (clock : Clock) (s : Stored A)
      → IsCoherent s
      → IsCoherent (fill (memory_backend same) cfg clock key filters s).1
  unfolding fill
  fill-IsCoherent clock s h v e held =
      ap (get_record filters) (fill-db clock s) ∙ (elim (Option-cases (get_record filters s.db)) [
        | inl missing ↦ h v e (rw (fill, missing) at held)
        | inr (r, found) ↦ elim (set-held clock s.cache r v e (rw (fill, found) at held)) [
          | inl eq ↦ rw (eq) found
          | inr before ↦ h v e before
        ]
      ])

  -- A read changes no record and keeps the cache coherent.
  pub get-IsCoherent :
      (reading writing : Clock) (s : Stored A)
      → IsCoherent s
      → let s' = (get (memory_backend same) cfg reading writing key filters auto s).1 in
        (s'.db ≡ s.db) × IsCoherent s'
  unfolding get
  get-IsCoherent reading writing s h =
      kept (Service.get (memory_backend same) cfg reading key s.cache) refl
    where
      kept :
          (r : Option A × Service (memory_backend (same {A = A})))
          → Service.get (memory_backend same) cfg reading key s.cache ≡ r
          → let s' = (after_miss (memory_backend same) cfg writing key filters s.db r).1 in
            (s'.db ≡ s.db) × IsCoherent s'
      kept (some v, c) eq = (refl, λ w e held. h w e (get-held reading s.cache w e (rw eq held)))
      kept (none, c) eq =
          let s' : Stored A = record { db = s.db; cache = c } in
          (
            fill-db writing s',
            fill-IsCoherent writing s'
                (λ w e held. h w e (get-held reading s.cache w e (rw eq held))),
          )

  -- An update that finds its record leaves the key coherent, whatever was cached.
  pub update-found :
      (clock : Clock) (change : A → A) (s : Stored A)
      → s.cache.skip_until ≤ clock.asked
      → (update_record filters change s.db).1 ≡ true
      → let s' = (update (memory_backend same) cfg clock key filters change auto s).1 in
        (s'.db ≡ (update_record filters change s.db).0) × IsCoherent s'
  unfolding update
  update-found clock change s up t =
      let s' : Stored A = record s { db = (update_record filters change s.db).0 } in
      rw t (forget-db clock s', forget-IsCoherent clock s' up)

  fill-skip :
      (clock : Clock) (s : Stored A)
      → (fill (memory_backend same) cfg clock key filters s).1.cache.skip_until ≡ s.cache.skip_until
  unfolding fill Service.set
  fill-skip clock s = ground arith

  reads-skip :
      (clock : Clock) (c : Service (memory_backend (same {A = A})))
      → (Service.get (memory_backend same) cfg clock key c).1.skip_until ≡ c.skip_until
  unfolding Service.get
  reads-skip clock c = ground arith

  -- A read does not open the circuit of the in-process cache.
  pub get-skip :
      (reading writing : Clock) (s : Stored A)
      → (get (memory_backend same) cfg reading writing key filters auto s).1.cache.skip_until
        ≡ s.cache.skip_until
  unfolding get
  get-skip reading writing s = kept (Service.get (memory_backend same) cfg reading key s.cache) refl
    where
      kept :
          (r : Option A × Service (memory_backend (same {A = A})))
          → Service.get (memory_backend same) cfg reading key s.cache ≡ r
          → (after_miss (memory_backend same) cfg writing key filters s.db r).1.cache.skip_until
            ≡ s.cache.skip_until
      kept (some v, c) eq =
          sym (ap (λ (p : Option A × Service (memory_backend (same {A = A}))). p.1.skip_until) eq)
          ∙ reads-skip reading s.cache
      kept (none, c) eq =
          fill-skip writing (record { db = s.db; cache = c })
          ∙ sym (ap (λ (p : Option A × Service (memory_backend (same {A = A}))). p.1.skip_until) eq)
          ∙ reads-skip reading s.cache
