-- ===== src/Store.antt =====
-- A database collection behind `DatabaseInterface`, as the in-memory database of the test suite
-- (tests/conftest.py, `FakeDatabase`) implements it: a list of records in insertion order, with
-- `$set` updates and matched counts. A filter is a Boolean test on a record, and the data of an
-- update a function on records.
pub mod Laws
pub mod Keys
pub mod Elsewhere
use fast_api_boiler_plate.Base.{
  ℕ, zero, suc, ◌+◌, Bool, true, false, Option, none, some, List, [], ◌∷◌, ◌++◌, leb, if◌then◌else◌,
  select, take, drop, length,
}

module _ {ℓ} {A : Type ℓ} where
  unfoldable pub get_record : (A → Bool) → List A → Option A
  get_record filters [] = none
  get_record filters (d ∷ ds) = if filters d then some d else get_record filters ds

  -- The first match is changed; the flag says whether there was one.
  unfoldable pub update_record : (A → Bool) → (A → A) → List A → List A × Bool
  update_record filters change [] = ([], false)
  update_record filters change (d ∷ ds) =
      if filters d
      then (change d ∷ ds, true)
      else (d ∷ (update_record filters change ds).0, (update_record filters change ds).1)

  unfoldable pub update_many : (A → Bool) → (A → A) → List A → List A
  update_many filters change [] = []
  update_many filters change (d ∷ ds) =
      (if filters d then change d else d) ∷ update_many filters change ds

  -- The first match is deleted.
  unfoldable pub delete_record : (A → Bool) → List A → List A × Bool
  delete_record filters [] = ([], false)
  delete_record filters (d ∷ ds) =
      if filters d
      then (ds, true)
      else (d ∷ (delete_record filters ds).0, (delete_record filters ds).1)

  unfoldable pub count : (A → Bool) → List A → ℕ
  count filters ds = length (select filters ds)

  -- `docs.sort` on one ascending field: stable.
  unfoldable pub insert_sorted : (A → ℕ) → A → List A → List A
  insert_sorted field d [] = d ∷ []
  insert_sorted field d (e ∷ es) =
      if leb (field d) (field e) then d ∷ e ∷ es else e ∷ insert_sorted field d es

  unfoldable pub sort_by : (A → ℕ) → List A → List A
  unfolding insert_sorted
  sort_by field [] = []
  sort_by field (d ∷ ds) = insert_sorted field d (sort_by field ds)

  -- `find_many` with one ascending sort field: `docs[skip : skip + limit] if limit else docs[skip:]`
  unfoldable pub find_many : (A → Bool) → (A → ℕ) → ℕ → ℕ → List A → List A
  unfolding sort_by
  find_many filters field skip zero ds = drop skip (sort_by field (select filters ds))
  find_many filters field skip (suc limit) ds =
      take (suc limit) (drop skip (sort_by field (select filters ds)))
