-- ===== src/Paging/Shifting.antt =====
-- What a newer record leaves of a page (app/services/data/cursor.py).
use fast_api_boiler_plate.Base.{
  ℕ, ◌<◌, ◌≤◌, ◌⊎◌, ◌≡◌, refl, Bool, false, Option, none, some, List, Str, take, inl, inr,
  Option-cases, arith,
}
use fast_api_boiler_plate.Paging.{Key, after, next_cursor, page_of}

module _ {ℓ} {A : Type ℓ} where
  abbrev pub without_total : Option (List A × ℕ × Option Str) → Option (List A × Option Str)
  without_total none = none
  without_total (some (page, total, next)) = some (page, next)

  module _ (key : A → Key) (encode : Key → Str) (decode : Str → Option Key) (filters : A → Bool)
      (page_size skip : ℕ) where
    pub page-without_total :
        (m n : ℕ) (rows : List A)
        → without_total (page_of key encode decode m page_size rows)
          ≡ without_total (page_of key encode decode n page_size rows)
    page-without_total m n rows =
        elim (Option-cases (next_cursor key encode decode page_size rows (take page_size rows))) [
          | inl e ↦ rw e refl
          | inr (next, e) ↦ rw e refl
        ]

    -- What is no older than the cursor does not come after it.
    pub after-not_older :
        (c k : Key) → (c.0 < k.0) ⊎ ((c.0 ≡ k.0) × (c.1 ≤ k.1)) → after c k ≡ false
    unfolding after
    after-not_older c k (inl h) = ground arith
    after-not_older c k (inr h) = ground arith
