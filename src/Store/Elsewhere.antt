-- ===== src/Store/Elsewhere.antt =====
-- What a change of some records leaves of the others.
use fast_api_boiler_plate.Base.{
  ◌≡◌, refl, Bool, true, false, List, [], ◌∷◌, ◌++◌, arith, All, select, inl, inr, Bool-cases,
}
use fast_api_boiler_plate.Store.{update_record, update_many, delete_record}

module _ {ℓ} {A : Type ℓ} (p : A → Bool) where
  pub select-append_other :
      (ds : List A) {d : A} → p d ≡ false → select p (ds ++ d ∷ []) ≡ select p ds
  select-append_other [] {d} h = rw h refl
  select-append_other (x ∷ ds) {d} h = ground (arith, select-append_other ds h)

module _ {ℓ κ} {A : Type ℓ} (P : A → Type κ) (p : A → Bool) where
  pub select-update_many_other :
      (filters : A → Bool) (change : A → A) (ds : List A)
      → ((d : A) → P d → filters d ≡ true → (p d ≡ false) × (p (change d) ≡ false))
      → All P ds
      → select p (update_many filters change ds) ≡ select p ds
  unfolding update_many
  select-update_many_other filters change [] far h = refl
  select-update_many_other filters change (d ∷ ds) far h =
      let rest = select-update_many_other filters change ds far h.1 in
      elim (Bool-cases (filters d)) [
        | inl e ↦ rw (e, (far d h.0 e).0, (far d h.0 e).1) rest
        | inr e ↦ ground arith
      ]

  pub select-update_record_other :
      (filters : A → Bool) (change : A → A) (ds : List A)
      → ((d : A) → P d → filters d ≡ true → (p d ≡ false) × (p (change d) ≡ false))
      → All P ds
      → select p (update_record filters change ds).0 ≡ select p ds
  unfolding update_record
  select-update_record_other filters change [] far h = refl
  select-update_record_other filters change (d ∷ ds) far h =
      let rest = select-update_record_other filters change ds far h.1 in
      elim (Bool-cases (filters d)) [
        | inl e ↦ rw (e, (far d h.0 e).0, (far d h.0 e).1) refl
        | inr e ↦ ground arith
      ]

  pub select-delete_record_other :
      (filters : A → Bool) (ds : List A)
      → ((d : A) → P d → filters d ≡ true → p d ≡ false)
      → All P ds
      → select p (delete_record filters ds).0 ≡ select p ds
  unfolding delete_record
  select-delete_record_other filters [] far h = refl
  select-delete_record_other filters (d ∷ ds) far h =
      let rest = select-delete_record_other filters ds far h.1 in
      elim (Bool-cases (filters d)) [ inl e ↦ rw (e, far d h.0 e) refl | inr e ↦ ground arith ]

pub All-select_to {ℓ κ μ} :
    {A : Type ℓ} {P : A → Type κ} {Q : A → Type μ} (p : A → Bool) (ds : List A)
    → ((d : A) → P d → p d ≡ true → Q d)
    → All P ds
    → All Q (select p ds)
All-select_to p [] far h = tt
All-select_to p (d ∷ ds) far h = elim (Bool-cases (p d)) [
  | inl e ↦ rw e (far d h.0 e, All-select_to p ds far h.1)
  | inr e ↦ rw e (All-select_to p ds far h.1)
]
