-- ===== src/Store/Laws.antt =====
-- What holds of every record survives the operations on a collection, and what they match.
use fast_api_boiler_plate.Base.{
  subst, ℕ, zero, suc, ◌≡◌, refl, Bool, true, false, some, List, [], ◌∷◌, arith, some_inj, All,
  All-take, drop, select, inl, inr, Bool-cases, any,
}
use fast_api_boiler_plate.Store.{
  get_record, update_record, update_many, delete_record, insert_sorted, sort_by, find_many,
}

module _ {ℓ κ} {A : Type ℓ} (P : A → Type κ) where
  pub All-update_record :
      (filters : A → Bool) (change : A → A) (ds : List A)
      → ((d : A) → filters d ≡ true → P d → P (change d))
      → All P ds
      → All P (update_record filters change ds).0
  unfolding update_record
  All-update_record filters change [] keep h = tt
  All-update_record filters change (d ∷ ds) keep h = elim (Bool-cases (filters d)) [
    | inl e ↦ rw e (keep d e h.0, h.1)
    | inr e ↦ rw e (h.0, All-update_record filters change ds keep h.1)
  ]

  pub All-update_many :
      (filters : A → Bool) (change : A → A) (ds : List A)
      → ((d : A) → filters d ≡ true → P d → P (change d))
      → All P ds
      → All P (update_many filters change ds)
  unfolding update_many
  All-update_many filters change [] keep h = tt
  All-update_many filters change (d ∷ ds) keep h = elim (Bool-cases (filters d)) [
    | inl e ↦ rw e (keep d e h.0, All-update_many filters change ds keep h.1)
    | inr e ↦ rw e (h.0, All-update_many filters change ds keep h.1)
  ]

  pub All-delete_record :
      (filters : A → Bool) (ds : List A) → All P ds → All P (delete_record filters ds).0
  unfolding delete_record
  All-delete_record filters [] h = tt
  All-delete_record filters (d ∷ ds) h = ground (arith, All-delete_record filters ds h.1)

  pub get_record-All :
      (filters : A → Bool) (ds : List A) {d : A} → get_record filters ds ≡ some d → All P ds → P d
  unfolding get_record
  get_record-All filters [] e h = cc
  get_record-All filters (x ∷ ds) {d} e h = elim (Bool-cases (filters x)) [
    | inl t ↦ subst P (some_inj (rw t at e)) h.0
    | inr t ↦ get_record-All filters ds (rw t at e) h.1
  ]

  All-insert_sorted :
      (field : A → ℕ) (d : A) (ds : List A) → P d → All P ds → All P (insert_sorted field d ds)
  unfolding insert_sorted
  All-insert_sorted field d [] p h = (p, tt)
  All-insert_sorted field d (e ∷ es) p h = ground (arith, All-insert_sorted field d es p h.1)

  All-sort_by : (field : A → ℕ) (ds : List A) → All P ds → All P (sort_by field ds)
  unfolding sort_by
  All-sort_by field [] h = tt
  All-sort_by field (d ∷ ds) h =
      All-insert_sorted field d (sort_by field ds) h.0 (All-sort_by field ds h.1)

  All-drop : (n : ℕ) (ds : List A) → All P ds → All P (drop n ds)
  All-drop zero ds h = h
  All-drop (suc n) [] h = tt
  All-drop (suc n) (d ∷ ds) h = All-drop n ds h.1

  pub All-find_many :
      (filters : A → Bool) (field : A → ℕ) (skip limit : ℕ) (ds : List A)
      → All P (select filters ds)
      → All P (find_many filters field skip limit ds)
  unfolding find_many
  All-find_many filters field skip zero ds h =
      All-drop skip (sort_by field (select filters ds)) (All-sort_by field (select filters ds) h)
  All-find_many filters field skip (suc limit) ds h =
      All-take P (suc limit) (drop skip (sort_by field (select filters ds))) (
        All-drop skip (sort_by field (select filters ds)) (All-sort_by field (select filters ds) h))

module _ {ℓ} {A : Type ℓ} (filters : A → Bool) where
  pub get_record-matches : (ds : List A) {d : A} → get_record filters ds ≡ some d → filters d ≡ true
  unfolding get_record
  get_record-matches [] e = cc
  get_record-matches (x ∷ ds) {d} e = elim (Bool-cases (filters x)) [
    | inl t ↦ subst (λ a. filters a ≡ true) (some_inj (rw t at e)) t
    | inr t ↦ get_record-matches ds (rw t at e)
  ]

  -- An update reports a match exactly when some record matches.
  pub update_record-any :
      (change : A → A) (ds : List A) → (update_record filters change ds).1 ≡ any filters ds
  unfolding update_record
  update_record-any change [] = refl
  update_record-any change (d ∷ ds) = ground (arith, update_record-any change ds)

  -- Without a match nothing is written.
  pub update_record-unmatched :
      (change : A → A) (ds : List A)
      → any filters ds ≡ false
      → update_record filters change ds ≡ (ds, false)
  unfolding update_record
  update_record-unmatched change [] h = refl
  update_record-unmatched change (d ∷ ds) h = ground (arith, update_record-unmatched change ds)

  pub any_of_All : (ds : List A) → All (λ d. filters d ≡ false) ds → any filters ds ≡ false
  any_of_All [] h = refl
  any_of_All (d ∷ ds) h = rw h.0 (any_of_All ds h.1)

  pub select-All : (ds : List A) → All (λ d. filters d ≡ true) (select filters ds)
  select-All [] = tt
  select-All (d ∷ ds) = elim (Bool-cases (filters d)) [
    | inl e ↦ rw e (e, select-All ds)
    | inr e ↦ rw e (select-All ds)
  ]
