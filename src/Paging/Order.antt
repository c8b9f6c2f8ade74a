-- ===== src/Paging/Order.antt =====
-- The newest-first order of a listing (app/services/data/cursor.py): sorting, and what a cursor
-- selects of a sorted list.
use fast_api_boiler_plate.Base.{
  suc, ◌≡◌, refl, Bool, true, false, ◌&&◌, List, [], ◌∷◌, ◌++◌, arith, ◌==◌, All, All-select,
  select, inl, inr, Bool-cases, if◌then◌else◌, ap, length, ◌∙◌,
}
use fast_api_boiler_plate.Store.{count}
use fast_api_boiler_plate.Paging.{Key, after, insert_newest, newest_first}

abbrev pub same_key : Key → Key → Bool
same_key a b = a.0 == b.0 && a.1 == b.1

after_trans : (a b c : Key) → after a b ≡ true → after b c ≡ true → after a c ≡ true
unfolding after
after_trans a b c h k = ground arith

after_asym : (a b : Key) → after a b ≡ true → after b a ≡ false
unfolding after
after_asym a b h = ground arith

after_irrefl : (a : Key) → after a a ≡ false
unfolding after
after_irrefl a = ground arith

after_total : (a b : Key) → same_key a b ≡ false → after a b ≡ false → after b a ≡ true
unfolding after
after_total a b h k = ground arith

after-behind : (a b c : Key) → after a b ≡ true → after c b ≡ false → after a c ≡ true
unfolding after
after-behind a b c h k = ground arith

All-behind {ℓ κ} : {A : Type ℓ} (P : A → Type κ) (xs ys : List A) → All P (xs ++ ys) → All P ys
All-behind P [] ys h = h
All-behind P (x ∷ xs) ys h = All-behind P xs ys h.1

module _ {ℓ} {A : Type ℓ} (key : A → Key) where
  -- No two records have the same sort value and tie-breaker.
  abbrev pub IsDistinct : List A → Type 0
  IsDistinct [] = Unit
  IsDistinct (r ∷ rs) = All (λ x. same_key (key r) (key x) ≡ false) rs × IsDistinct rs

  abbrev pub IsSorted : List A → Type 0
  IsSorted [] = Unit
  IsSorted (r ∷ rs) = All (λ x. after (key r) (key x) ≡ true) rs × IsSorted rs

  pub IsDistinct-select : (p : A → Bool) (rs : List A) → IsDistinct rs → IsDistinct (select p rs)
  IsDistinct-select p [] h = tt
  IsDistinct-select p (r ∷ rs) h = elim (Bool-cases (p r)) [
    | inl e ↦
        rw e
          (All-select (λ x. same_key (key r) (key x) ≡ false) p rs h.0, IsDistinct-select p rs h.1)
    | inr e ↦ rw e (IsDistinct-select p rs h.1)
  ]

  pub All-insert_newest {κ} :
      (P : A → Type κ) (r : A) (xs : List A) → P r → All P xs → All P (insert_newest key r xs)
  unfolding insert_newest
  All-insert_newest P r [] p h = (p, tt)
  All-insert_newest P r (x ∷ xs) p h = elim (Bool-cases (after (key x) (key r))) [
    | inl e ↦ rw e (h.0, All-insert_newest P r xs p h.1)
    | inr e ↦ rw e (p, h)
  ]

  pub All-newest_first {κ} : (P : A → Type κ) (rs : List A) → All P rs → All P (newest_first key rs)
  unfolding newest_first
  All-newest_first P [] h = tt
  All-newest_first P (r ∷ rs) h =
      All-insert_newest P r (newest_first key rs) h.0 (All-newest_first P rs h.1)

  All-after :
      (a b : Key) (xs : List A)
      → after a b ≡ true
      → All (λ x. after b (key x) ≡ true) xs
      → All (λ x. after a (key x) ≡ true) xs
  All-after a b [] h k = tt
  All-after a b (x ∷ xs) h k = (after_trans a b (key x) h k.0, All-after a b xs h k.1)

  insert_newest-IsSorted :
      (r : A) (xs : List A)
      → All (λ x. same_key (key r) (key x) ≡ false) xs
      → IsSorted xs
      → IsSorted (insert_newest key r xs)
  unfolding insert_newest
  insert_newest-IsSorted r [] d h = (tt, tt)
  insert_newest-IsSorted r (x ∷ xs) d h = elim (Bool-cases (after (key x) (key r))) [
    | inl e ↦ rw e (
      All-insert_newest (λ y. after (key x) (key y) ≡ true) r xs e h.0,
      insert_newest-IsSorted r xs d.1 h.1,
    )
    | inr e ↦
        let first : after (key r) (key x) ≡ true =
          after_total (key x) (key r) (ground (arith, d.0)) e in
        rw e ((first, All-after (key r) (key x) xs first h.0), h)
  ]

  pub newest_first-IsSorted : (rs : List A) → IsDistinct rs → IsSorted (newest_first key rs)
  unfolding newest_first
  newest_first-IsSorted [] h = tt
  newest_first-IsSorted (r ∷ rs) h =
      insert_newest-IsSorted r (newest_first key rs)
        (All-newest_first (λ x. same_key (key r) (key x) ≡ false) rs h.0)
        (newest_first-IsSorted rs h.1)

  -- ---- what a cursor selects
  abbrev pub behind : Key → A → Bool
  behind c r = after c (key r)

  select-behind-insert_newest :
      (c : Key) (r : A) (xs : List A)
      → select (behind c) (insert_newest key r xs)
        ≡ (if behind c r then insert_newest key r (select (behind c) xs) else select (behind c) xs)
  unfolding insert_newest
  select-behind-insert_newest c r [] = ground arith
  select-behind-insert_newest c r (x ∷ xs) =
      let rest = select-behind-insert_newest c r xs in
      elim (Bool-cases (after (key x) (key r))) [
        | inl e ↦ ground arith
        | inr e ↦ elim (Bool-cases (after c (key r))) [
          | inl k ↦ let there = after-behind c (key r) (key x) k e in ground arith
          | inr k ↦ ground arith
        ]
      ]

  pub select-behind-newest_first :
      (c : Key) (rs : List A)
      → select (behind c) (newest_first key rs) ≡ newest_first key (select (behind c) rs)
  unfolding newest_first
  select-behind-newest_first c [] = refl
  select-behind-newest_first c (r ∷ rs) =
      let rest = select-behind-newest_first c rs in
      let here = select-behind-insert_newest c r (newest_first key rs) in ground arith

  select-behind-All :
      (c : Key) (xs : List A) → All (λ x. after c (key x) ≡ true) xs → select (behind c) xs ≡ xs
  select-behind-All c [] h = refl
  select-behind-All c (x ∷ xs) h = rw h.0 (ap (λ ys. x ∷ ys) (select-behind-All c xs h.1))

  -- A cursor that names the record `x` of a sorted list selects what follows `x`.
  pub select-behind-split :
      (xs : List A) (x : A) (ys : List A)
      → IsSorted (xs ++ x ∷ ys)
      → select (behind (key x)) (xs ++ x ∷ ys) ≡ ys
  select-behind-split [] x ys h = rw (after_irrefl (key x)) (select-behind-All (key x) ys h.0)
  select-behind-split (z ∷ xs) x ys h =
      let before : after (key z) (key x) ≡ true =
        (All-behind (λ y. after (key z) (key y) ≡ true) xs (x ∷ ys) h.0).0 in
      rw (after_asym (key z) (key x) before) (select-behind-split xs x ys h.1)

  count-insert_newest :
      (p : A → Bool) (r : A) (xs : List A) → count p (insert_newest key r xs) ≡ count p (r ∷ xs)
  unfolding insert_newest count
  count-insert_newest p r [] = refl
  count-insert_newest p r (x ∷ xs) = ground (arith, count-insert_newest p r xs)

  -- Sorting neither drops nor repeats.
  pub count-newest_first : (p : A → Bool) (rs : List A) → count p (newest_first key rs) ≡ count p rs
  unfolding newest_first count
  count-newest_first p [] = refl
  count-newest_first p (r ∷ rs) =
      let here = count-insert_newest p r (newest_first key rs) in
      let rest = count-newest_first p rs in ground arith

  length-insert_newest : (r : A) (xs : List A) → length (insert_newest key r xs) ≡ suc (length xs)
  unfolding insert_newest
  length-insert_newest r [] = refl
  length-insert_newest r (x ∷ xs) = ground (arith, length-insert_newest r xs)

  pub length-newest_first : (rs : List A) → length (newest_first key rs) ≡ length rs
  unfolding newest_first
  length-newest_first [] = refl
  length-newest_first (r ∷ rs) =
      length-insert_newest r (newest_first key rs) ∙ ap suc (length-newest_first rs)

pub select-and {ℓ} :
    {A : Type ℓ} (p q : A → Bool) (xs : List A)
    → select (λ x. p x && q x) xs ≡ select q (select p xs)
select-and p q [] = refl
select-and p q (x ∷ xs) = ground (arith, select-and p q xs)
