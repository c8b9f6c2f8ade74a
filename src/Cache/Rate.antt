-- ===== src/Cache/Rate.antt =====
-- The sliding window over a sequence of requests for one key (app/cache/memory.py, `hit`): the
-- limit holds in every window, wherever it is placed.
use fast_api_boiler_plate.Base.{
  ℕ, suc, ◌+◌, ◌≤◌, ◌<◌, ◌≡◌, refl, ◌&&◌, none, some, List, [], ◌∷◌, ◌++◌, Time, arith, ltb, leb,
  if◌then◌else◌, length, length-append, true, ◌*◌, Option-cases, none, some, Str, lookup, insert,
  lookup-insert_self, inl, inr, ap, ◌∙◌, Option,
}
use fast_api_boiler_plate.Cache.Memory.{Memory, second, or_empty, hit, drop_old, slide, refuse}

-- The times of the requests that are let through, for requests at the given times against the
-- counted hits of the key; a request that raises is not let through.
unfoldable pub admitted : ℕ → Time → List Time → List Time → List Time
admitted limit window hits [] = []
admitted limit window hits (t ∷ ts) =
    let kept = drop_old t window hits in
    elim (slide t limit window kept) [
      | none ↦ admitted limit window kept ts
      | some (d, hits') ↦
          let rest = admitted limit window hits' ts in if d.allowed then t ∷ rest else rest
    ]

-- How many of the times lie in the window that ends at `at`: later than `at - window`, and not
-- later than `at`.
abbrev pub within : Time → Time → List Time → ℕ
within at window [] = 0
within at window (t ∷ ts) =
    if ltb at (t + window) && leb t at then suc (within at window ts) else within at window ts

-- Each time is no earlier than the one before it, and than `t`.
abbrev pub InOrder : Time → List Time → Type 0
InOrder t [] = Unit
InOrder t (u ∷ us) = (t ≤ u) × InOrder u us

within-le-length : (at window : Time) (ts : List Time) → within at window ts ≤ length ts
within-le-length at window [] = omega arith
within-le-length at window (t ∷ ts) = ground (arith, within-le-length at window ts)

within-append :
    (at window : Time) (xs ys : List Time)
    → within at window (xs ++ ys) ≡ within at window xs + within at window ys
within-append at window [] ys = omega arith
within-append at window (x ∷ xs) ys = ground (arith, within-append at window xs ys)

-- Times after the end of the window do not count.
within-later :
    (at window t : Time) (ts : List Time) → at < t → InOrder t ts → within at window ts ≡ 0
within-later at window t [] h o = refl
within-later at window t (u ∷ ts) h o = ground (arith, within-later at window u ts)

-- What `drop_old` forgets is outside every window that ends now or later.
within-drop_old :
    (now at window : Time) (hits : List Time)
    → now ≤ at
    → within at window (drop_old now window hits) ≡ within at window hits
unfolding drop_old
within-drop_old now at window [] h = refl
within-drop_old now at window (x ∷ hits) h = ground (arith, within-drop_old now at window hits)

length-drop_old-le :
    (now window : Time) (hits : List Time) → length (drop_old now window hits) ≤ length hits
unfolding drop_old
length-drop_old-le now window [] = omega arith
length-drop_old-le now window (x ∷ hits) = ground (arith, length-drop_old-le now window hits)

-- One request is let through exactly while fewer hits than the limit are counted.
admitted-cons :
    (limit : ℕ) (window : Time) (hits : List Time) (t : Time) (ts : List Time)
    → admitted limit window hits (t ∷ ts) ≡ (
        if ltb (length (drop_old t window hits)) limit
        then t ∷ admitted limit window (drop_old t window hits ++ t ∷ []) ts
        else admitted limit window (drop_old t window hits) ts)
unfolding admitted slide refuse
admitted-cons limit window hits t ts = next (drop_old t window hits)
  where
    next :
        (kept : List Time)
        → (elim (slide t limit window kept) [
          | none ↦ admitted limit window kept ts
          | some (d, hits') ↦
              let rest = admitted limit window hits' ts in if d.allowed then t ∷ rest else rest
        ])
          ≡ (if ltb (length kept) limit
              then t ∷ admitted limit window (kept ++ t ∷ []) ts
              else admitted limit window kept ts)
    next [] = ground arith
    next (h ∷ kept) = ground arith

InOrder-weaken : (t u : Time) (ts : List Time) → t ≤ u → InOrder u ts → InOrder t ts
InOrder-weaken t u [] h o = tt
InOrder-weaken t u (x ∷ ts) h o = (omega arith, o.1)

admitted-InOrder :
    (limit : ℕ) (window t : Time) (hits ts : List Time)
    → InOrder t ts
    → InOrder t (admitted limit window hits ts)
unfolding admitted
admitted-InOrder limit window t hits [] o = tt
admitted-InOrder limit window t hits (u ∷ ts) o = ground (
  arith,
  admitted-cons limit window hits u ts,
  admitted-InOrder limit window u (drop_old u window hits ++ u ∷ []) ts,
  InOrder-weaken t u (admitted limit window (drop_old u window hits) ts),
  admitted-InOrder limit window u (drop_old u window hits) ts,
)

admitted-within :
    (limit : ℕ) (window t at : Time) (hits ts : List Time)
    → length hits ≤ limit
    → InOrder t ts
    → within at window hits + within at window (admitted limit window hits ts) ≤ limit
unfolding admitted
admitted-within limit window t at hits [] few o = omega (arith, within-le-length at window hits)
admitted-within limit window t at hits (u ∷ ts) few o = rw (admitted-cons limit window hits u ts) (
    step (admitted limit window (kept ++ u ∷ []) ts) (admitted limit window kept ts)
      (admitted-InOrder limit window u (kept ++ u ∷ []) ts o.1)
      (admitted-InOrder limit window u kept ts o.1)
      (λ more.
        admitted-within limit window u at (kept ++ u ∷ []) ts
          (omega (arith, length-append {0} kept (u ∷ []))) o.1)
      (admitted-within limit window u at kept ts (omega (arith, length-drop_old-le u window hits))
        o.1))
  where
    kept : List Time
    kept = drop_old u window hits

    step :
        (rest other : List Time)
        → InOrder u rest
        → InOrder u other
        → (length kept < limit → within at window (kept ++ u ∷ []) + within at window rest ≤ limit)
        → within at window kept + within at window other ≤ limit
        → within at window hits
            + within at window (if ltb (length kept) limit then u ∷ rest else other)
          ≤ limit
    step rest other o₁ o₂ ih₁ ih₂ = ground (
      arith,
      within-le-length at window hits,
      within-later at window u rest,
      within-later at window u other,
      within-drop_old u at window hits,
      within-append at window kept (u ∷ []),
    )

-- Of any requests for one key in the order of time, at most `limit` are let through in any window
-- of the given length, wherever it ends.
admitted-le-limit :
    (limit : ℕ) (window : Time) (ts : List Time)
    → InOrder 0 ts
    → (at : Time) → within at window (admitted limit window [] ts) ≤ limit
admitted-le-limit limit window ts o at =
    omega (arith, admitted-within limit window 0 at [] ts (omega arith) o)

-- The requests for `key` that `hit` lets through, one after another on the cache.
unfoldable pub served : {V : Type 0} → Str → ℕ → ℕ → Memory V → List Time → List Time
served key limit window m [] = []
served key limit window m (t ∷ ts) =
    let (answer, m') = hit t key limit window true m in
    let rest = served key limit window m' ts in
    elim answer [ none ↦ rest | some d ↦ if d.allowed then t ∷ rest else rest ]

module _ {V : Type 0} (key : Str) (limit window : ℕ) where
  -- The counted hits of the key are what the last request has written.
  again :
      (m : Memory V) (hits ts : List Time)
      → ((m' : Memory V)
          → served key limit window m' ts
            ≡ admitted limit (window * second) (or_empty (lookup key m'.windows)) ts)
      → served key limit window (record m { windows = insert key hits m.windows }) ts
        ≡ admitted limit (window * second) hits ts
  again m hits ts ih =
      ih (record m { windows = insert key hits m.windows })
      ∙ ap (λ (o : Option (List Time)). admitted limit (window * second) (or_empty o) ts)
          (lookup-insert_self key hits m.windows)

  served-eq-admitted :
      (m : Memory V) (ts : List Time)
      → served key limit window m ts
        ≡ admitted limit (window * second) (or_empty (lookup key m.windows)) ts
  unfolding served admitted hit
  served-eq-admitted m [] = refl
  served-eq-admitted m (t ∷ ts) =
      let kept = drop_old t (window * second) (or_empty (lookup key m.windows)) in
      elim (Option-cases (slide t limit (window * second) kept)) [
        | inl e ↦ ground (arith, again m kept ts (λ m'. served-eq-admitted m' ts))
        | inr (r, e) ↦ ground (arith, again m r.1 ts (λ m'. served-eq-admitted m' ts))
      ]

-- Of any requests for one key in the order of time, on an in-process cache that has not counted
-- the key yet, at most `limit` are let through in any `window` seconds, wherever they end.
pub served-le-limit :
    {V : Type 0} (key : Str) (limit window : ℕ) (m : Memory V) (ts : List Time)
    → lookup key m.windows ≡ none
    → InOrder 0 ts
    → (at : Time) → within at (window * second) (served key limit window m ts) ≤ limit
served-le-limit key limit window m ts new o at =
    rw (served-eq-admitted key limit window m ts, new)
      (admitted-le-limit limit (window * second) ts o at)
