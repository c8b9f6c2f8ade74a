-- ===== src/Cache/Circuit.antt =====
-- The circuit of `CacheService` (app/services/cache.py): what a failed backend costs, for any
-- backend.
use fast_api_boiler_plate.Base.{
  ℕ, ◌+◌, ◌*◌, ◌≡◌, ◌≤◌, ◌<◌, Bool, false, Option, none, some, List, [], ◌∷◌, ◌++◌, All, Time, refl,
  arith, Str,
}
use fast_api_boiler_plate.Cache.Memory.{Decision, second}
use fast_api_boiler_plate.Cache.Service.{
  Outcome, or_default, rstrip_star, returned, raised, Backend, Settings, Clock, Service, get, set,
  delete, clear_pattern, add, hit,
}

-- A call of the service.
pub data Call (V : Type 0) : Type 0 where
  get_of delete_of clear_of : Str → Call V
  set_of add_of : Str → V → Option ℕ → Call V
  hit_of : Str → ℕ → ℕ → Bool → Call V

-- What it gives back.
pub data Answer (V : Type 0) : Type 0 where
  found : Option V → Answer V
  deleted : ℕ → Answer V
  written : Bool → Answer V
  claimed : Outcome Bool → Answer V
  decided : Outcome Decision → Answer V

-- Without the backend: reads miss, writes and deletions are skipped, and claims and rate counting
-- raise.
abbrev pub unavailable : {V : Type 0} → Call V → Answer V
unavailable (get_of key) = found none
unavailable (delete_of key) = deleted 0
unavailable (clear_of pattern) = deleted 0
unavailable (set_of key value ttl) = written false
unavailable (add_of key value ttl) = claimed raised
unavailable (hit_of key limit window sliding) = decided raised

module _ {V : Type 0} (b : Backend V) (cfg : Settings) where
  abbrev answering : {A : Type 0} → (A → Answer V) → A × Service b → Answer V × Service b
  answering f (a, s) = (f a, s)

  abbrev pub perform : Clock → Call V → Service b → Answer V × Service b
  perform clock (get_of key) s = answering found (get b cfg clock key s)
  perform clock (delete_of key) s = answering deleted (delete b cfg clock key s)
  perform clock (clear_of pattern) s = answering deleted (clear_pattern b cfg clock pattern s)
  perform clock (set_of key value ttl) s = answering written (set b cfg clock key value ttl s)
  perform clock (add_of key value ttl) s = answering claimed (add b cfg clock key value ttl s)
  perform clock (hit_of key limit window sliding) s =
      answering decided (hit b cfg clock key limit window sliding s)

  -- The backend in the state `st` raises on what the service asks of it for the call, and is in the
  -- state `st'` then.
  abbrev pub Raises : Time → Call V → b.State → b.State → Type 0
  Raises now (get_of key) st st' = b.get now (cfg.prefix ++ key) st ≡ (raised, st')
  Raises now (delete_of key) st st' = b.delete now (cfg.prefix ++ key) st ≡ (raised, st')
  Raises now (clear_of pattern) st st' =
      b.delete_prefix now (cfg.prefix ++ rstrip_star pattern) st ≡ (raised, st')
  Raises now (set_of key value ttl) st st' =
      b.set now (cfg.prefix ++ key) value (some (or_default ttl cfg.default_ttl)) st ≡ (raised, st')
  Raises now (add_of key value ttl) st st' =
      b.add now (cfg.prefix ++ key) value (some (or_default ttl cfg.default_ttl)) st ≡ (raised, st')
  Raises now (hit_of key limit window sliding) st st' =
      b.hit now key limit window sliding st ≡ (raised, st')

  -- One call after the other.
  abbrev pub perform_all : List (Clock × Call V) → Service b → List (Answer V) × Service b
  perform_all [] s = ([], s)
  perform_all ((clock, c) ∷ cs) s =
      let (a, s') = perform clock c s in let (rest, s'') = perform_all cs s' in (a ∷ rest, s'')

  abbrev pub all_unavailable : List (Clock × Call V) → List (Answer V)
  all_unavailable [] = []
  all_unavailable ((clock, c) ∷ cs) = unavailable c ∷ all_unavailable cs

  perform-Raises :
      (clock : Clock) (c : Call V) (s : Service b) {st : b.State}
      → s.skip_until ≤ clock.asked
      → Raises clock.asked c s.backend st
      → perform clock c s ≡ (
        unavailable c,
        record { backend = st; skip_until = clock.noticed + cfg.cooldown * second },
      )
  unfolding get set delete clear_pattern add hit
  perform-Raises clock (get_of key) s up e = ground arith
  perform-Raises clock (delete_of key) s up e = ground arith
  perform-Raises clock (clear_of pattern) s up e = ground arith
  perform-Raises clock (set_of key value ttl) s up e = ground arith
  perform-Raises clock (add_of key value ttl) s up e = ground arith
  perform-Raises clock (hit_of key limit window sliding) s up e = ground arith

  perform-unavailable :
      (clock : Clock) (c : Call V) (s : Service b)
      → clock.asked < s.skip_until
      → perform clock c s ≡ (unavailable c, s)
  unfolding get set delete clear_pattern add hit
  perform-unavailable clock (get_of key) s h = ground arith
  perform-unavailable clock (delete_of key) s h = ground arith
  perform-unavailable clock (clear_of pattern) s h = ground arith
  perform-unavailable clock (set_of key value ttl) s h = ground arith
  perform-unavailable clock (add_of key value ttl) s h = ground arith
  perform-unavailable clock (hit_of key limit window sliding) s h = ground arith

  perform_all-unavailable :
      (cs : List (Clock × Call V)) (s : Service b)
      → All (λ (c : Clock × Call V). c.0.asked < s.skip_until) cs
      → perform_all cs s ≡ (all_unavailable cs, s)
  perform_all-unavailable [] s h = refl
  perform_all-unavailable ((clock, c) ∷ cs) s h =
      rw (perform-unavailable clock c s h.0, perform_all-unavailable cs s h.1) refl

  -- One failure of the backend, in any of the six operations, opens the circuit. The call that the
  -- backend fails is answered without it: a read misses, a write or a deletion is skipped, and a
  -- claim or rate counting raises. Of all the calls asked, in any number and order, before the
  -- cool-down has passed since that failure was noticed, each is answered the same way, and they
  -- leave the backend's state and the end of the cool-down as the failure left them.
  pub cooling :
      (clock : Clock) (c : Call V) (s : Service b) (later : List (Clock × Call V)) {st : b.State}
      → s.skip_until ≤ clock.asked
      → Raises clock.asked c s.backend st
      → All (λ (d : Clock × Call V). d.0.asked < clock.noticed + cfg.cooldown * second) later
      → perform_all ((clock, c) ∷ later) s ≡ (
        unavailable c ∷ all_unavailable later,
        record { backend = st; skip_until = clock.noticed + cfg.cooldown * second },
      )
  cooling clock c s later {st} up e soon =
      let opened : Service b = record {
        backend = st;
        skip_until = clock.noticed + cfg.cooldown * second;
      } in
      rw (perform-Raises clock c s up e, perform_all-unavailable later opened soon) refl

  -- A read that the backend fails is answered as a miss, and opens the circuit: until the
  -- cool-down, counted from when the failure is noticed, has passed, every further read misses
  -- without contacting the backend.
  pub get-opens :
      (clock : Clock) (key : Str) (s : Service b) {st : b.State}
      → s.skip_until ≤ clock.asked
      → b.get clock.asked (cfg.prefix ++ key) s.backend ≡ (raised, st)
      → (later : Clock) (other : Str) → later.asked < clock.noticed + cfg.cooldown * second
      → let opened : Service b = record {
        backend = st;
        skip_until = clock.noticed + cfg.cooldown * second;
      } in
        (get b cfg clock key s ≡ (none, opened)) × (get b cfg later other opened ≡ (none, opened))
  unfolding get
  get-opens clock key s up e later other h = ground arith

  -- The circuit closes by itself: once the cool-down has passed, a read is the backend's answer
  -- again, under the prefixed key.
  pub get-recovers :
      (clock : Clock) (key : Str) (s : Service b) {found : Option V} {st : b.State}
      → s.skip_until ≤ clock.asked
      → b.get clock.asked (cfg.prefix ++ key) s.backend ≡ (returned found, st)
      → get b cfg clock key s ≡ (found, record { backend = st; skip_until = s.skip_until })
  unfolding get
  get-recovers clock key s up e = ground arith
