-- ===== src/Data/History.antt =====
-- Reads and writes of one record through the cache, one after the other, against a database without
-- a cache (app/services/data/data_service.py), on the in-process cache.
use fast_api_boiler_plate.Base.{◌≤◌, ◌≡◌, Bool, Option, List, [], ◌∷◌, Time, Str}
use fast_api_boiler_plate.Store.{get_record, update_record, delete_record}
use fast_api_boiler_plate.Cache.Service.{Settings, Clock, memory_backend}
use fast_api_boiler_plate.Cache.Service
use fast_api_boiler_plate.Data.{auto, get, update, delete}
use fast_api_boiler_plate.Data.Laws.{same, Stored, IsCoherent}

-- A request for the record, with what its clock reads.
pub data Request (A : Type 0) : Type 0 where
  reading : Clock → Clock → Request A
  changing : Clock → (A → A) → Request A
  removing : Clock → Request A

pub data Reply (A : Type 0) : Type 0 where
  record_found : Option A → Reply A
  has_matched : Bool → Reply A

-- The cache is not cooling down when a write drops its entry.
abbrev pub IsUp : {A : Type 0} → Time → Request A → Type 0
IsUp until (reading r w) = Unit
IsUp until (changing clock change) = until ≤ clock.asked
IsUp until (removing clock) = until ≤ clock.asked

module _ {A : Type 0} (cfg : Settings) (key : Str) (filters : A → Bool) where
  abbrev labelled : {B S : Type 0} → (B → Reply A) → B × S → Reply A × S
  labelled f (x, s) = (f x, s)

  abbrev pub serve : Request A → Stored A → Reply A × Stored A
  serve (reading r w) s =
      labelled record_found (get (memory_backend same) cfg r w key filters auto s)
  serve (changing clock change) s =
      labelled has_matched (update (memory_backend same) cfg clock key filters change auto s)
  serve (removing clock) s =
      labelled has_matched (delete (memory_backend same) cfg clock key filters auto s)

  abbrev pub serve_all : List (Request A) → Stored A → List (Reply A) × Stored A
  serve_all [] s = ([], s)
  serve_all (q ∷ qs) s = let rest = serve_all qs (serve q s).1 in ((serve q s).0 ∷ rest.0, rest.1)

  -- What the database alone replies.
  abbrev pub plain : Request A → List A → Reply A × List A
  plain (reading r w) ds = (record_found (get_record filters ds), ds)
  plain (changing clock change) ds =
      (has_matched (update_record filters change ds).1, (update_record filters change ds).0)
  plain (removing clock) ds =
      (has_matched (delete_record filters ds).1, (delete_record filters ds).0)

  abbrev pub plain_all : List (Request A) → List A → List (Reply A) × List A
  plain_all [] ds = ([], ds)
  plain_all (q ∷ qs) ds =
      let rest = plain_all qs (plain q ds).1 in ((plain q ds).0 ∷ rest.0, rest.1)

  -- A step of the cached service is one of the database alone, and keeps the cache coherent.
  abbrev Agrees : Stored A → Reply A × Stored A → Reply A × List A → Type 0
  Agrees s (x, s') (y, ds) =
      (x ≡ y)
      × (s'.db ≡ ds)
      × IsCoherent cfg key filters s'
      × (s'.cache.skip_until ≡ s.cache.skip_until)
