-- ===== src/Paging/Arrivals.antt =====
-- A client that pages through a listing by its cursors while newer records come in
-- (app/services/data/cursor.py).
use fast_api_boiler_plate.Base.{
  ℕ, suc, ◌<◌, ◌≤◌, ◌≡◌, ◌⊎◌, refl, Bool, false, Option, none, some, List, [], ◌∷◌, ◌++◌, Str,
  select, take, length, inl, inr, Option-cases, arith, All, All-append, All-take, All-select, ap,
  ◌∙◌, sym, subst,
}
use mathlib.Core.List.{append_assoc}
use fast_api_boiler_plate.Store.{count}
use fast_api_boiler_plate.Paging.{
  Key, last, newest_first, next_cursor, page_of, matching_after, list_page,
}
use fast_api_boiler_plate.Paging.Order.{IsDistinct, IsSorted, All-newest_first}
use fast_api_boiler_plate.Paging.Following.{gather, gather-IsSorted, proceed}
use fast_api_boiler_plate.Paging.Shifting.{without_total, after-not_older, page-without_total}

module _ {ℓ} {A : Type ℓ} where
  abbrev with_page : List A → Option (List A) → Option (List A)
  with_page page none = none
  with_page page (some rest) = some (page ++ rest)

  -- A page, and what the rest of the requests gather if there is a next cursor.
  abbrev pub follow : (Str → Option (List A)) → Option (List A × Option Str) → Option (List A)
  follow rest none = none
  follow rest (some (page, none)) = some page
  follow rest (some (page, some c)) = with_page page (rest c)

  follow-same :
      (f g : Str → Option (List A)) (r : Option (List A × Option Str))
      → ((page : List A) (c : Str) → r ≡ some (page, some c) → f c ≡ g c)
      → follow f r ≡ follow g r
  follow-same f g none h = refl
  follow-same f g (some (page, none)) h = refl
  follow-same f g (some (page, some c)) h = ap (with_page page) (h page c refl)

  select-none :
      (p : A → Bool) (ds es : List A)
      → All (λ e. p e ≡ false) es
      → select p (ds ++ es) ≡ select p ds
  select-none p [] [] h = refl
  select-none p [] (e ∷ es) h = rw (h.0) (select-none p [] es h.1)
  select-none p (d ∷ ds) es h = ground (arith, select-none p ds es)

  last-All {κ} : (P : A → Type κ) (x : A) (xs : List A) → All P (x ∷ xs) → P (last x xs)
  last-All P x [] h = h.0
  last-All P x (y ∷ ys) h = last-All P y ys h.1

module _ {ℓ} {A : Type ℓ} (key : A → Key) (encode : Key → Str) (decode : Str → Option Key)
    (filters : A → Bool) (k : ℕ) where
  -- The sort value of the record that came in is greater, or the same with a tie-breaker that is no
  -- smaller.
  abbrev pub NotOlder : Key → A → Type 0
  NotOlder c new = (c.0 < (key new).0) ⊎ ((c.0 ≡ (key new).0) × (c.1 ≤ (key new).1))

  abbrev page_now : Option Str → List A → Option (List A × Option Str)
  page_now cursor ds = without_total (list_page key encode decode filters (suc k) 0 cursor ds)

  -- What a client gathers, with the records that come in between its requests: one list of them
  -- behind each request. Their number bounds its requests.
  abbrev pub gather_during : List (List A) → Option Str → List A → Option (List A)
  gather_during [] cursor ds = none
  gather_during (news ∷ later) cursor ds =
      follow (λ c. gather_during later (some c) (ds ++ news)) (page_now cursor ds)

  next_cursor-All :
      (P : A → Type 0) (limit : ℕ) (rows page : List A) {c : Str}
      → All P page
      → next_cursor key encode decode limit rows page ≡ some (some c)
      → (x : A) × P x × (c ≡ encode (key x))
  unfolding next_cursor
  next_cursor-All P limit rows [] h e = absurd (ground arith)
  next_cursor-All P limit rows (x ∷ xs) h e = (last x xs, last-All P x xs h, ground arith)

  page_of-All :
      (P : A → Type 0) (total : ℕ) (rows page : List A) {c : Str}
      → All P rows
      → without_total (page_of key encode decode total (suc k) rows) ≡ some (page, some c)
      → (x : A) × P x × (c ≡ encode (key x))
  page_of-All P total rows page {c} h e =
      elim (Option-cases (next_cursor key encode decode (suc k) rows (take (suc k) rows))) [
        | inl missing ↦ absurd (let bad = rw missing at e in cc)
        | inr (next, there) ↦
            let same : next ≡ some c = let eq = rw there at e in cc in
            next_cursor-All P (suc k) rows (take (suc k) rows) {c = c} (All-take P (suc k) rows h)
              (there ∙ ap some same)
      ]

  -- A next cursor is that of a record.
  page_now-All :
      (P : A → Type 0) (cursor : Option Str) (ds page : List A) {c : Str}
      → All P ds
      → page_now cursor ds ≡ some (page, some c)
      → (x : A) × P x × (c ≡ encode (key x))
  unfolding list_page
  page_now-All P none ds page h e =
      page_of-All P (count filters ds) (take (suc (suc k)) (newest_first key (select filters ds)))
        page
        (All-take P (suc (suc k)) (newest_first key (select filters ds))
          (All-newest_first key P (select filters ds) (All-select P filters ds h)))
        e
  page_now-All P (some cursor) ds page h e = elim (Option-cases (decode cursor)) [
    | inl missing ↦ absurd (let bad = rw (list_page, missing) at e in cc)
    | inr (a, there) ↦
        let chosen = select (matching_after key encode decode filters a) ds in
        page_of-All P (count filters ds) (take (suc (suc k)) (newest_first key chosen)) page
          (All-take P (suc (suc k)) (newest_first key chosen) (
            All-newest_first key P chosen
              (All-select P (matching_after key encode decode filters a) ds h)))
          (rw (list_page, there) at e)
  ]

  page_now-same :
      (c : Key) (ds seen : List A)
      → decode (encode c) ≡ some c
      → All (NotOlder c) seen
      → page_now (some (encode c)) (ds ++ seen) ≡ page_now (some (encode c)) ds
  unfolding list_page
  page_now-same c ds seen e newer =
      let same = select-none (matching_after key encode decode filters c) ds seen (go seen newer) in
      rw (list_page, e, same)
        (page-without_total key encode decode filters (suc k) 0 (count filters (ds ++ seen))
          (count filters ds)
          (take (suc (suc k))
            (newest_first key (select (matching_after key encode decode filters c) ds))))
    where
      go :
          (es : List A)
          → All (NotOlder c) es
          → All (λ e. matching_after key encode decode filters c e ≡ false) es
      go [] h = tt
      go (e ∷ es) h =
          let before = after-not_older key encode decode filters (suc k) 0 c (key e) h.0 in
          (ground arith, go es h.1)

  -- What has come in and what still comes in is no older than the record.
  abbrev IsOld : List A → List (List A) → A → Type 0
  IsOld seen later d = All (NotOlder (key d)) seen × All (All (NotOlder (key d))) later

  All-IsOld :
      (seen news : List A) (later : List (List A)) (ds : List A)
      → All (IsOld seen (news ∷ later)) ds
      → All (IsOld (seen ++ news) later) ds
  All-IsOld seen news later [] h = tt
  All-IsOld seen news later (d ∷ ds) h = (
    (All-append (NotOlder (key d)) seen news h.0.0 h.0.1.0, h.0.1.1),
    All-IsOld seen news later ds h.1,
  )

  gather-follow :
      (ds : List A) (n : ℕ) (cursor : Option Str)
      → gather key encode decode filters k ds (suc n) cursor
        ≡ follow (λ c. gather key encode decode filters k ds n (some c)) (page_now cursor ds)
  gather-follow ds n cursor = go (list_page key encode decode filters (suc k) 0 cursor ds)
    where
      join :
          (page : List A) (total : ℕ) (c : Str) (o : Option (List A))
          → proceed key encode decode filters k ds (λ c'. o) (some (page, total, some c))
            ≡ with_page page o
      join page total c none = refl
      join page total c (some rest) = refl

      go :
          (r : Option (List A × ℕ × Option Str))
          → proceed key encode decode filters k ds
              (λ c. gather key encode decode filters k ds n c)
              r
            ≡ follow (λ c. gather key encode decode filters k ds n (some c)) (without_total r)
      go none = refl
      go (some (page, total, none)) = refl
      go (some (page, total, some c)) =
          join page total c (gather key encode decode filters k ds n (some c))

  module _ (decodes : (c : Key) → decode (encode c) ≡ some c) where
    -- From the cursor of a record on, the client gathers the same as if nothing had come in.
    gather_during-from :
        (ds : List A) (later : List (List A)) (x : A) (seen : List A)
        → IsOld seen later x
        → All (IsOld seen later) ds
        → gather_during later (some (encode (key x))) (ds ++ seen)
          ≡ gather key encode decode filters k ds (length later) (some (encode (key x)))
    gather_during-from ds [] x seen h old = refl
    gather_during-from ds (news ∷ later) x seen h old =
        ap (follow (λ c. gather_during later (some c) ((ds ++ seen) ++ news)))
          (page_now-same (key x) ds seen (decodes (key x)) h.0)
        ∙ follow-same (λ c. gather_during later (some c) ((ds ++ seen) ++ news))
            (λ c. gather key encode decode filters k ds (length later) (some c))
            (page_now (some (encode (key x))) ds)
            (λ page c e.
              let old' = All-IsOld seen news later ds old in
              let (y, held, same) =
                page_now-All (IsOld (seen ++ news) later) (some (encode (key x))) ds page {c = c}
                  old' e in
              ap (λ es. gather_during later (some c) es) (append_assoc ds seen news)
              ∙ subst
                  (λ s.
                    gather_during later (some s) (ds ++ (seen ++ news))
                    ≡ gather key encode decode filters k ds (length later) (some s))
                  (sym same) (gather_during-from ds later y (seen ++ news) held old'))
        ∙ sym (gather-follow ds (length later) (some (encode (key x))))

    gather_during-gather :
        (ds : List A) (later : List (List A))
        → All (IsOld [] later) ds
        → gather_during later none ds ≡ gather key encode decode filters k ds (length later) none
    gather_during-gather ds [] old = refl
    gather_during-gather ds (news ∷ later) old =
        follow-same (λ c. gather_during later (some c) (ds ++ news))
          (λ c. gather key encode decode filters k ds (length later) (some c)) (page_now none ds)
          (λ page c e.
            let old' = All-IsOld [] news later ds old in
            let (y, held, same) = page_now-All (IsOld news later) none ds page {c = c} old' e in
            subst
              (λ s.
                gather_during later (some s) (ds ++ news)
                ≡ gather key encode decode filters k ds (length later) (some s))
              (sym same) (gather_during-from ds later y news held old'))
        ∙ sym (gather-follow ds (length later) none)

    -- Pages do not shift under a client. A client that follows the cursors from the first page on,
    -- while behind each of its requests any number of records come in that are no older than those
    -- which were there at first, gathers exactly the matching records that were there at first:
    -- none is skipped and none is seen twice, strictly newest first. It makes more requests than
    -- there are such records; no two of them share the sort value and the tie-breaker, and an
    -- encoded cursor is decoded to what was encoded.
    pub gather_during-IsSorted :
        (ds : List A) (arrivals : List (List A))
        → IsDistinct key (select filters ds)
        → length (select filters ds) < length arrivals
        → All (λ d. All (All (NotOlder (key d))) arrivals) ds
        → (found : List A) × (gather_during arrivals none ds ≡ some found)
          × IsSorted key found
          × ((p : A → Bool) → count p found ≡ count p (select filters ds))
    gather_during-IsSorted ds arrivals distinct enough newer =
        let (found, all, sorted, counts) =
          gather-IsSorted key encode decode filters k ds decodes distinct (length arrivals)
            enough in
        (found, gather_during-gather ds arrivals (go ds newer) ∙ all, sorted, counts)
      where
        go :
            (xs : List A)
            → All (λ d. All (All (NotOlder (key d))) arrivals) xs
            → All (IsOld [] arrivals) xs
        go [] h = tt
        go (x ∷ xs) h = ((tt, h.0), go xs h.1)
