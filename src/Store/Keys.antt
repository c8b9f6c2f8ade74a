-- ===== src/Store/Keys.antt =====
-- Collections whose records have distinct keys (a unique index): a key names one record, and an
-- update of that record is what the next operation on the key sees.
use fast_api_boiler_plate.Base.{
  ◌≡◌, refl, Bool, true, false, ◌&&◌, ◌||◌, some, List, [], ◌∷◌, ◌++◌, arith, ◌==◌, any, inl, inr,
  Bool-cases, Ident,
}
use fast_api_boiler_plate.Store.Laws.{update_record-any}
use fast_api_boiler_plate.Store.{get_record, update_record, update_many}

module _ {ℓ} {A : Type ℓ} (key : A → Ident) where
  abbrev pub Distinct : List A → Type 0
  Distinct [] = Unit
  Distinct (d ∷ ds) = (any (λ e. key e == key d) ds ≡ false) × Distinct ds

  -- A filter on the key and more.
  abbrev pub keyed : Ident → (A → Bool) → A → Bool
  keyed k p d = key d == k && p d

  pub any-keyed-absent :
      (k : Ident) (p : A → Bool) (ds : List A)
      → any (λ e. key e == k) ds ≡ false
      → any (keyed k p) ds ≡ false
  any-keyed-absent k p [] h = refl
  any-keyed-absent k p (d ∷ ds) h = ground (arith, any-keyed-absent k p ds)

  module _ (filters : A → Bool) (change : A → A) (same : (d : A) → key (change d) ≡ key d) where
    pub any-key-update_record :
        (k : Ident) (ds : List A)
        → any (λ e. key e == k) (update_record filters change ds).0 ≡ any (λ e. key e == k) ds
    unfolding update_record
    any-key-update_record k [] = refl
    any-key-update_record k (d ∷ ds) = ground (arith, same d, any-key-update_record k ds)

    pub Distinct-update_record :
        (ds : List A) → Distinct ds → Distinct (update_record filters change ds).0
    unfolding update_record
    Distinct-update_record [] h = tt
    Distinct-update_record (d ∷ ds) h =
        ground (arith, same d, any-key-update_record (key d) ds, Distinct-update_record ds h.1)

    pub any-key-update_many :
        (k : Ident) (ds : List A)
        → any (λ e. key e == k) (update_many filters change ds) ≡ any (λ e. key e == k) ds
    unfolding update_many
    any-key-update_many k [] = refl
    any-key-update_many k (d ∷ ds) = ground (arith, same d, any-key-update_many k ds)

    pub Distinct-update_many :
        (ds : List A) → Distinct ds → Distinct (update_many filters change ds)
    unfolding update_many
    Distinct-update_many [] h = tt
    Distinct-update_many (d ∷ ds) h =
        ground (arith, same d, any-key-update_many (key d) ds, Distinct-update_many ds h.1)

  any-key-append :
      (k : Ident) (ds : List A) (d : A)
      → any (λ e. key e == k) (ds ++ d ∷ []) ≡ any (λ e. key e == k) ds || key d == k
  any-key-append k [] d = ground arith
  any-key-append k (x ∷ ds) d = ground (arith, any-key-append k ds d)

  pub Distinct-append :
      (ds : List A) (d : A)
      → any (λ e. key e == key d) ds ≡ false
      → Distinct ds
      → Distinct (ds ++ d ∷ [])
  Distinct-append [] d h k = (refl, tt)
  Distinct-append (x ∷ ds) d h k = ground (arith, any-key-append (key x) ds d, Distinct-append ds d)

  -- An update by the key that its change rules out is not matched again.
  pub update_record-once :
      (k : Ident) (p q : A → Bool) (change : A → A) (ds : List A)
      → ((d : A) → key (change d) ≡ key d)
      → ((d : A) → p d ≡ true → q (change d) ≡ false)
      → Distinct ds
      → (update_record (keyed k p) change ds).1 ≡ true
      → any (keyed k q) (update_record (keyed k p) change ds).0 ≡ false
  unfolding update_record
  update_record-once k p q change [] same out h e = cc
  update_record-once k p q change (d ∷ ds) same out h e = elim (Bool-cases (keyed k p d)) [
    | inl t ↦ ground (arith, same d, out d, any-keyed-absent k q ds)
    | inr t ↦ ground (
      arith,
      update_record-once k p q change ds same out h.1,
      update_record-any (keyed k p) change ds,
      any-keyed-absent k p ds,
    )
  ]

  -- What the key names after an update by the key.
  pub get_record-update_record :
      (k : Ident) (p : A → Bool) (change : A → A) (ds : List A) {d : A}
      → ((d : A) → key (change d) ≡ key d)
      → get_record (λ e. key e == k) ds ≡ some d
      → p d ≡ true
      → (get_record (λ e. key e == k) (update_record (keyed k p) change ds).0 ≡ some (change d))
        × ((update_record (keyed k p) change ds).1 ≡ true)
  unfolding update_record get_record
  get_record-update_record k p change [] same e t = cc
  get_record-update_record k p change (x ∷ ds) {d} same e t = elim (Bool-cases (key x == k)) [
    | inl m ↦ ground (arith, same x)
    | inr m ↦ ground (arith, get_record-update_record k p change ds {d = d} same)
  ]

  -- A filter by the key asks about the one record that the key names.
  pub any-keyed :
      (k : Ident) (p : A → Bool) (ds : List A) {d : A}
      → Distinct ds
      → get_record (λ e. key e == k) ds ≡ some d
      → any (keyed k p) ds ≡ p d
  unfolding get_record
  any-keyed k p [] h e = cc
  any-keyed k p (x ∷ ds) {d} h e =
      ground (arith, any-keyed k p ds {d = d} h.1, any-keyed-absent k p ds)
