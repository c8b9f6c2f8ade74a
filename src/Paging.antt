-- ===== src/Paging.antt =====
-- Cursor pagination (app/services/data/cursor.py), as the listings of the audit trail, of jobs and
-- of a user's files use it (app/services/audit.py, app/services/jobs.py,
-- app/services/data/files_ops.py).
--
-- A record has a sort value and a tie-breaker, both numbers. Encoding a cursor (base64 of JSON) and
-- decoding one are parameters.
pub mod Order
pub mod Following
pub mod Shifting
pub mod Arrivals
pub mod Listings
pub mod Tests
use fast_api_boiler_plate.Base.{
  ℕ, zero, suc, ◌+◌, ◌*◌, Bool, true, false, ◌&&◌, ◌||◌, Option, none, some, List, [], ◌∷◌,
  if◌then◌else◌, Str, ltb, ◌==◌, length, select, take, drop,
}
use fast_api_boiler_plate.Store.{count}

abbrev pub Key : Type 0
Key = ℕ × ℕ

-- The filter `after`: records of `b` come strictly after the cursor `a`, newest first.
unfoldable pub after : Key → Key → Bool
after a b = ltb b.0 a.0 || b.0 == a.0 && ltb b.1 a.1

abbrev pub last {ℓ} : {A : Type ℓ} → A → List A → A
last x [] = x
last x (y ∷ ys) = last y ys

module _ {ℓ} {A : Type ℓ} (key : A → Key) where
  -- `newest_first`: descending by the sort value, then by the tie-breaker.
  unfoldable pub insert_newest : A → List A → List A
  insert_newest r [] = r ∷ []
  insert_newest r (x ∷ xs) =
      let rest = insert_newest r xs in if after (key x) (key r) then x ∷ rest else r ∷ x ∷ xs

  unfoldable pub newest_first : List A → List A
  unfolding insert_newest
  newest_first [] = []
  newest_first (r ∷ rs) = insert_newest r (newest_first rs)

  module _ (encode : Key → Str) (decode : Str → Option Key) where
    -- `None` of `next_cursor` on the last page; `page[-1]` of an empty page is an error.
    unfoldable pub next_cursor : ℕ → List A → List A → Option (Option Str)
    next_cursor limit rows [] = if ltb limit (length rows) then none else some none
    next_cursor limit rows (x ∷ xs) =
        some (if ltb limit (length rows) then some (encode (key (last x xs))) else none)

    -- A page, the number of matching records, and the next cursor.
    abbrev pub paged : ℕ → ℕ → List A → Option (Option Str) → Option (List A × ℕ × Option Str)
    paged total page_size rows none = none
    paged total page_size rows (some next) = some (take page_size rows, total, next)

    abbrev pub page_of : ℕ → ℕ → List A → Option (List A × ℕ × Option Str)
    page_of total page_size rows =
        paged total page_size rows (next_cursor page_size rows (take page_size rows))

    abbrev pub matching_after : (A → Bool) → Key → A → Bool
    matching_after filters c r = filters r && after c (key r)

    -- One extra row says whether a next page exists. `none` is an exception: `InvalidCursorError`
    -- for a cursor that was not issued.
    unfoldable pub list_page :
        (A → Bool) → ℕ → ℕ → Option Str → List A → Option (List A × ℕ × Option Str)
    unfolding newest_first next_cursor after count
    list_page filters page_size skip none ds =
        page_of (count filters ds) page_size
          (take (suc page_size) (drop skip (newest_first (select filters ds))))
    list_page filters page_size skip (some cursor) ds = elim (decode cursor) [
      | none ↦ none
      | some c ↦
          page_of (count filters ds) page_size
            (take (suc page_size) (newest_first (select (matching_after filters c) ds)))
    ]
