-- ===== src/Paging/Following.antt =====
-- A client that pages through a listing by its cursors (app/services/data/cursor.py).
use fast_api_boiler_plate.Base.{
  ℕ, zero, suc, ◌≤◌, ◌<◌, ◌≡◌, refl, Bool, true, Option, none, some, List, [], ◌∷◌, ◌++◌, arith,
  ltb, leb, select, take, drop, length, inl, inr, Bool-cases, ap, ◌∙◌, sym, subst, Str,
}
use mathlib.Core.List.{append_assoc}
use fast_api_boiler_plate.Store.{count}
use fast_api_boiler_plate.Paging.{
  Key, last, newest_first, next_cursor, page_of, matching_after, list_page,
}
use fast_api_boiler_plate.Paging.Order.{
  IsDistinct, IsSorted, newest_first-IsSorted, behind, select-behind-newest_first,
  select-behind-split, select-and, count-newest_first, length-newest_first,
}

module _ {ℓ} {A : Type ℓ} where
  pub take-drop : (n : ℕ) (xs : List A) → take n xs ++ drop n xs ≡ xs
  take-drop zero xs = refl
  take-drop (suc n) [] = refl
  take-drop (suc n) (x ∷ xs) = ap (λ ys. x ∷ ys) (take-drop n xs)

  take-few : (n : ℕ) (xs : List A) → length xs ≤ n → take n xs ≡ xs
  take-few zero [] h = refl
  take-few zero (x ∷ xs) h = absurd (ground arith)
  take-few (suc n) [] h = refl
  take-few (suc n) (x ∷ xs) h = ap (λ ys. x ∷ ys) (take-few n xs (ground arith))

  take-of-take : (n : ℕ) (xs : List A) → take n (take (suc n) xs) ≡ take n xs
  take-of-take zero xs = refl
  take-of-take (suc n) [] = refl
  take-of-take (suc n) (x ∷ xs) = ap (λ ys. x ∷ ys) (take-of-take n xs)

  length-take_more : (n : ℕ) (xs : List A) → n < length xs → length (take (suc n) xs) ≡ suc n
  length-take_more zero [] h = absurd (ground arith)
  length-take_more zero (x ∷ xs) h = refl
  length-take_more (suc n) [] h = absurd (ground arith)
  length-take_more (suc n) (x ∷ xs) h = ap suc (length-take_more n xs (ground arith))

  length-drop : (n : ℕ) (xs : List A) → length (drop n xs) ≤ length xs
  length-drop zero xs = ground arith
  length-drop (suc n) [] = ground arith
  length-drop (suc n) (x ∷ xs) = ground (arith, length-drop n xs)

  -- The last item is the end of the list.
  last-split : (x : A) (xs : List A) → (init : List A) × (x ∷ xs ≡ init ++ last x xs ∷ [])
  last-split x [] = ([], refl)
  last-split x (y ∷ xs) = let (init, e) = last-split y xs in (x ∷ init, ap (λ ys. x ∷ ys) e)

module _ {ℓ} {A : Type ℓ} (key : A → Key) (encode : Key → Str) (decode : Str → Option Key)
    (filters : A → Bool) (k : ℕ) (ds : List A) where
  abbrev page_size : ℕ
  page_size = suc k

  abbrev page_at : Option Str → Option (List A × ℕ × Option Str)
  page_at cursor = list_page key encode decode filters page_size 0 cursor ds

  abbrev with_page : List A → Option (List A) → Option (List A)
  with_page page none = none
  with_page page (some rest) = some (page ++ rest)

  abbrev pub proceed :
      (Option Str → Option (List A)) → Option (List A × ℕ × Option Str) → Option (List A)
  proceed rest none = none
  proceed rest (some (page, total, none)) = some page
  proceed rest (some (page, total, some c)) = with_page page (rest (some c))

  -- What a client gathers: it asks for a page, and while there is a next cursor for that one's.
  -- The number bounds its requests.
  abbrev pub gather : ℕ → Option Str → Option (List A)
  gather zero cursor = none
  gather (suc n) cursor = proceed (λ c. gather n c) (page_at cursor)

  -- A cursor for the record `x` of the sorted listing `xs ++ x ∷ ys` asks for `ys`.
  rows-split :
      (xs : List A) (x : A) (ys : List A)
      → IsDistinct key (select filters ds)
      → newest_first key (select filters ds) ≡ xs ++ x ∷ ys
      → newest_first key (select (matching_after key encode decode filters (key x)) ds) ≡ ys
  rows-split xs x ys d e =
      let sorted = newest_first-IsSorted key (select filters ds) d in
      ap (newest_first key) (select-and filters (behind key (key x)) ds)
      ∙ sym (select-behind-newest_first key (key x) (select filters ds))
      ∙ ap (select (behind key (key x))) e
      ∙ select-behind-split key xs x ys (subst (IsSorted key) e sorted)

  abbrev total : ℕ
  total = count filters ds

  abbrev paging : List A → Option (List A × ℕ × Option Str)
  paging ys = page_of key encode decode total page_size (take (suc page_size) ys)

  no_next :
      (ys : List A)
      → length ys ≤ page_size
      → next_cursor key encode decode page_size ys ys ≡ some none
  unfolding next_cursor
  no_next [] few = ground arith
  no_next (y ∷ ys) few = ground arith

  last_page : (ys : List A) → length ys ≤ page_size → paging ys ≡ some (ys, total, none)
  unfolding next_cursor
  last_page ys few =
      let all = take-few (suc page_size) ys (ground arith) in
      let page = take-few page_size ys few in
      rw (all, page, no_next ys few) (ap (λ zs. some (zs, total, none)) page)

  more_pages :
      (y : A) (ys : List A)
      → page_size < length (y ∷ ys)
      → paging (y ∷ ys)
        ≡ some (take page_size (y ∷ ys), total, some (encode (key (last y (take k ys)))))
  unfolding next_cursor
  more_pages y ys many =
      let long : ltb page_size (suc (length (take (suc k) ys))) ≡ true =
        let enough = length-take_more k ys (ground arith) in ground arith in
      rw (take-of-take k ys, long) refl

  module _ (decodes : (c : Key) → decode (encode c) ≡ some c)
      (distinct : IsDistinct key (select filters ds)) where
    page_after :
        (xs : List A) (x : A) (ys : List A)
        → newest_first key (select filters ds) ≡ xs ++ x ∷ ys
        → page_at (some (encode (key x))) ≡ paging ys
    unfolding list_page
    page_after xs x ys e = rw (list_page, decodes (key x), rows-split xs x ys distinct e) refl

    -- With the pages before `ys` gathered, the rest of the requests gather `ys`.
    gather-from :
        (n : ℕ) (cursor : Option Str) (xs ys : List A)
        → newest_first key (select filters ds) ≡ xs ++ ys
        → page_at cursor ≡ paging ys
        → length ys < n
        → gather n cursor ≡ some ys
    gather-from zero cursor xs ys e here few = absurd (ground arith)
    gather-from (suc n) cursor xs [] e here few =
        ap (proceed (λ c. gather n c)) (here ∙ last_page [] (ground arith))
    gather-from (suc n) cursor xs (y ∷ ys) e here few =
        elim (Bool-cases (leb (length (y ∷ ys)) page_size)) [
          | inl fits ↦ ap (proceed (λ c. gather n c)) (here ∙ last_page (y ∷ ys) (ground arith))
          | inr more ↦
              let x = last y (take k ys) in
              let rest = drop k ys in
              let (init, ends) = last-split y (take k ys) in
              let whole : y ∷ ys ≡ init ++ x ∷ rest =
                ap (λ zs. y ∷ zs) (sym (take-drop k ys))
                ∙ ap (λ zs. zs ++ rest) ends
                ∙ append_assoc init (x ∷ []) rest in
              let at_x : newest_first key (select filters ds) ≡ (xs ++ init) ++ x ∷ rest =
                e ∙ ap (λ zs. xs ++ zs) whole ∙ sym (append_assoc xs init (x ∷ rest)) in
              let gathered : gather n (some (encode (key x))) ≡ some rest =
                gather-from n (some (encode (key x))) ((xs ++ init) ++ x ∷ []) rest
                  (at_x ∙ sym (append_assoc (xs ++ init) (x ∷ []) rest))
                  (page_after (xs ++ init) x rest at_x)
                  (let shorter = length-drop k ys in ground arith) in
              ap (proceed (λ c. gather n c)) (here ∙ more_pages y ys (ground arith))
              ∙ ap (with_page (y ∷ take k ys)) gathered
              ∙ ap (λ zs. some (y ∷ zs)) (take-drop k ys)
        ]

    -- Following the cursors gives every matching record exactly once, newest first. A client that
    -- asks for pages of at least one record, from the first page on and then for each next cursor,
    -- ends after at most one request more than there are matching records, and has gathered a
    -- list in strictly newest-first order in which everything occurs as often as among the matching
    -- records. The conditions are that no two matching records share the sort value and the
    -- tie-breaker, and that an encoded cursor is decoded to what was encoded; the records do not
    -- change meanwhile.
    pub gather-IsSorted :
        (n : ℕ)
        → length (select filters ds) < n
        → (found : List A) × (gather n none ≡ some found)
          × IsSorted key found
          × ((p : A → Bool) → count p found ≡ count p (select filters ds))
    unfolding list_page
    gather-IsSorted n enough =
        let sorted = newest_first key (select filters ds) in
        (
          sorted,
          gather-from n none [] sorted refl refl
              (subst (λ m. m < n) (sym (length-newest_first key (select filters ds))) enough),
          newest_first-IsSorted key (select filters ds) distinct,
          λ p. count-newest_first key p (select filters ds),
        )
