-- ===== src/Cache/Contents.antt =====
-- What the in-process cache holds (app/cache/memory.py): writes, expiry, claims and deletions.
use fast_api_boiler_plate.Base.{
  ℕ, ◌+◌, ◌*◌, ◌≡◌, refl, ◌≤◌, ◌<◌, true, false, not, ◌||◌, Option, none, some, List, [], ◌∷◌, Time,
  arith, ltb, ◌==◌, if◌then◌else◌, Str, lookup, erase, lookup-insert, lookup-erase,
  lookup-insert_self, ◌&&◌, str_eq, str_eq_iff, starts_with, is_some, any,
}
use fast_api_boiler_plate.Cache.Memory.{
  Memory, second, expiry, has_expired, keys_with, get, set, add, delete, delete_prefix,
}

-- What a read of the key at the time answers.
abbrev pub live : {V : Type 0} → Time → Option (V × Option Time) → Option V
live now none = none
live now (some (raw, expires)) = if has_expired now expires then none else some raw

module _ {V : Type 0} (json : V → V) where
  -- A read answers the live value of the key.
  pub get-live :
      (now : Time) (key : Str) (m : Memory V)
      → (get json now key m).0 ≡ live now (lookup key m.items)
  unfolding get
  get-live now key m = ground arith

  -- A value written with a time to live is what a read of its key answers until that time has
  -- passed, and no longer (a time to live of 0 never ends); what any other key holds is untouched.
  pub get-set :
      (now later : Time) (key other : Str) (value : V) (ttl : ℕ) (m : Memory V)
      → ((get json later key (set json now key value (some ttl) m).1).0
          ≡ (if ttl == 0 || ltb later (now + ttl * second) then some (json value) else none))
        × (str_eq key other ≡ false
            → (get json later other (set json now key value (some ttl) m).1).0
              ≡ (get json later other m).0)
  unfolding set
  get-set now later key other value ttl m = (
    rw
        (
          get-live later key (set json now key value (some ttl) m).1,
          lookup-insert_self key (json value, expiry now (some ttl)) m.items,
        )
        (ground arith),
    λ ne. rw (
      get-live later other (set json now key value (some ttl) m).1,
      get-live later other m,
      lookup-insert other key (json value, expiry now (some ttl)) m.items,
      ne,
    ),
  )

  -- A claim is won exactly when the key holds no live value; the key then holds the claim's value,
  -- and otherwise what it held.
  pub add-claims :
      (now : Time) (key : Str) (value : V) (ttl : Option ℕ) (m : Memory V)
      → ((add json now key value ttl m).0 ≡ not (is_some (get json now key m).0))
        × ((add json now key value ttl m).0 ≡ true
            → lookup key (add json now key value ttl m).1.items ≡ some (json value, expiry now ttl))
        × ((add json now key value ttl m).0 ≡ false → (add json now key value ttl m).1 ≡ m)
  unfolding add get set
  add-claims now key value ttl m = ground (
    arith,
    lookup-insert_self key (json value, expiry now ttl) m.items,
    lookup-insert_self key (json value, expiry now ttl) (erase key m.items),
  )

  occupied :
      (now : Time) (key : Str) (value : V) (ttl : Option ℕ) (m : Memory V) {e : V × Option Time}
      → lookup key m.items ≡ some e
      → has_expired now e.1 ≡ false
      → add json now key value ttl m ≡ (false, m)
  unfolding add get
  occupied now key value ttl m held fresh = ground arith

  -- Of two claims of a key the second is lost while the first one's time to live lasts.
  pub add_exclusive :
      (now later : Time) (key : Str) (value value' : V) (ttl : ℕ) (ttl' : Option ℕ) (m : Memory V)
      → 1 ≤ ttl
      → later < now + ttl * second
      → (add json now key value (some ttl) m).0 ≡ true
      → add json later key value' ttl' (add json now key value (some ttl) m).1
        ≡ (false, (add json now key value (some ttl) m).1)
  unfolding add get
  add_exclusive now later key value value' ttl ttl' m h before won =
      let held : lookup key (add json now key value (some ttl) m).1.items
          ≡ some (json value, expiry now (some ttl)) =
        (add-claims now key value (some ttl) m).1 won in
      occupied later key value' ttl' (add json now key value (some ttl) m).1 held (ground arith)

  lookup-delete :
      (ks : List Str) (j : Str) (m : Memory V)
      → lookup j (delete json ks m).1.items
        ≡ (if any (λ k. str_eq k j) ks then none else lookup j m.items)
  unfolding delete
  lookup-delete [] j m = refl
  lookup-delete (k ∷ ks) j m =
      ground
        (arith, lookup-delete ks j (record m { items = erase k m.items }), lookup-erase j k m.items)

-- The keys found by a prefix are those with the prefix that the dict has.
any-keys_with :
    {A : Type 0} (p j : Str) (d : List (Str × A))
    → any (λ k. str_eq k j) (keys_with p d) ≡ starts_with p j && is_some (lookup j d)
unfolding lookup
any-keys_with p j [] = ground arith
any-keys_with p j ((k, v) ∷ d) = ground (arith, any-keys_with p j d, str_eq_iff k j)

-- Deletion by a prefix removes every key that begins with the prefix, and no other.
pub lookup-delete_prefix :
    {V : Type 0} (json : V → V) (p j : Str) (m : Memory V)
    → lookup j (delete_prefix json p m).1.items
      ≡ (if starts_with p j then none else lookup j m.items)
unfolding delete_prefix
lookup-delete_prefix json p j m =
    ground (arith, lookup-delete json (keys_with p m.items) j m, any-keys_with p j m.items)
