-- ===== src/Cache/Memory.antt =====
-- `MemoryCache` (app/cache/memory.py). Time is in ticks of a microsecond, as `time.monotonic()`
-- reads at the call; times to live and windows are in whole seconds. `json` is the round trip of a
-- value through `json.dumps(value, default=str)` and `json.loads`; no value is `None`.
use fast_api_boiler_plate.Base.{
  ℕ, suc, ◌+◌, ◌-◌, ◌*◌, ◌/◌, max, Bool, true, false, Option, none, some, List, [], ◌∷◌, ◌++◌, Time,
  leb, ◌==◌, if◌then◌else◌, is_some, length, Str, lookup, insert, erase, starts_with,
}

abbrev pub second : Time
second = 1000000

-- `RateDecision`; `retry_after` in seconds.
pub record Decision : Type 0 where
  pub allowed : Bool
  pub current : ℕ
  pub retry_after : Option ℕ

pub record Memory (V : Type 0) : Type 0 where
  pub items : List (Str × (V × Option Time))
  pub windows : List (Str × List Time)
  pub fixed : List (Str × (ℕ × Time))

-- `time.monotonic() + ttl if ttl else None`
abbrev pub expiry : Time → Option ℕ → Option Time
expiry now none = none
expiry now (some ttl) = if ttl == 0 then none else some (now + ttl * second)

abbrev pub has_expired : Time → Option Time → Bool
has_expired now none = false
has_expired now (some t) = leb t now

-- The keys of the items that begin so.
abbrev pub keys_with {ℓ} : {A : Type ℓ} → Str → List (Str × A) → List Str
keys_with p [] = []
keys_with p ((k, v) ∷ d) = if starts_with p k then k ∷ keys_with p d else keys_with p d

module _ {V : Type 0} (json : V → V) where
  unfoldable pub get : Time → Str → Memory V → Option V × Memory V
  get now key m = elim (lookup key m.items) [
    | none ↦ (none, m)
    | some (raw, expires) ↦
        if has_expired now expires
        then (none, record m { items = erase key m.items })
        else (some raw, m)
  ]

  unfoldable pub set : Time → Str → V → Option ℕ → Memory V → Bool × Memory V
  set now key value ttl m =
      (true, record m { items = insert key (json value, expiry now ttl) m.items })

  unfoldable pub add : Time → Str → V → Option ℕ → Memory V → Bool × Memory V
  unfolding get set
  add now key value ttl m =
      let (found, m') = get now key m in
      if is_some found then (false, m') else set now key value ttl m'

  -- `delete` of the keys in turn, with the number of them that were there.
  unfoldable pub delete : List Str → Memory V → ℕ × Memory V
  delete [] m = (0, m)
  delete (k ∷ ks) m =
      let rest = delete ks (record m { items = erase k m.items }) in
      (if is_some (lookup k m.items) then rest.0 + 1 else rest.0, rest.1)

  unfoldable pub delete_prefix : Str → Memory V → ℕ × Memory V
  unfolding delete
  delete_prefix prefix m = delete (keys_with prefix m.items) m

-- `while hits and hits[0] <= now - window: hits.popleft()`; `window` in ticks.
unfoldable pub drop_old : Time → Time → List Time → List Time
drop_old now window [] = []
drop_old now window (h ∷ hits) = if leb (h + window) now then drop_old now window hits else h ∷ hits

-- `max(1, int(t - now) + 1)` in seconds, for `now <= t`.
abbrev pub wait_until : Time → Time → ℕ
wait_until now t = max 1 ((t - now) / second + 1)

-- The answer over the limit; `none` is the `IndexError` of `hits[0]` when the limit is 0 and no hit
-- is counted.
unfoldable pub refuse : Time → Time → List Time → Option (Decision × List Time)
refuse now window [] = none
refuse now window (h ∷ hits) = some (
  record {
    allowed = false;
    current = suc (length hits);
    retry_after = some (wait_until now (h + window));
  },
  h ∷ hits,
)

-- The sliding branch on the hits of one key, the old ones dropped; `window` in ticks.
unfoldable pub slide : Time → ℕ → Time → List Time → Option (Decision × List Time)
unfolding refuse
slide now limit window kept =
    if leb limit (length kept)
    then refuse now window kept
    else some
        (record { allowed = true; current = length kept + 1; retry_after = none }, kept ++ now ∷ [])

-- The fixed branch on the counter of one key.
unfoldable pub count_fixed : Time → ℕ → Time → Option (ℕ × Time) → Decision × (ℕ × Time)
count_fixed now limit window entry =
    let start : ℕ × Time = elim entry [ none ↦ (0, now + window) | some e ↦ e ] in
    let current : ℕ × Time = if leb start.1 now then (0, now + window) else start in
    let n = current.0 + 1 in
    (
      record {
        allowed = leb n limit;
        current = n;
        retry_after = if leb n limit then none else some (wait_until now current.1);
      },
      (n, current.1),
    )

abbrev pub or_empty : Option (List Time) → List Time
or_empty none = []
or_empty (some hits) = hits

unfoldable pub hit :
    {V : Type 0} → Time → Str → ℕ → ℕ → Bool → Memory V → Option Decision × Memory V
unfolding slide count_fixed drop_old
hit now key limit window true m =
    let kept = drop_old now (window * second) (or_empty (lookup key m.windows)) in
    elim (slide now limit (window * second) kept) [
      | none ↦ (none, record m { windows = insert key kept m.windows })
      | some (d, hits) ↦ (some d, record m { windows = insert key hits m.windows })
    ]
hit now key limit window false m =
    let (d, entry) = count_fixed now limit (window * second) (lookup key m.fixed) in
    (some d, record m { fixed = insert key entry m.fixed })
