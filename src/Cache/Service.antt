-- ===== src/Cache/Service.antt =====
-- `CacheService` (app/services/cache.py): a backend behind `CacheInterface`, with the key prefix,
-- the default time to live, and the circuit that leaves a failed backend alone for a while.
use fast_api_boiler_plate.Base.{
  ℕ, ◌+◌, ◌*◌, Bool, false, Option, none, some, [], ◌∷◌, ◌++◌, Time, leb, ◌==◌, if◌then◌else◌, Str,
}
use fast_api_boiler_plate.Cache.Memory.{Decision, second}
use fast_api_boiler_plate.Cache.Memory

-- A call of the backend returns, or raises.
pub data Outcome (A : Type 0) : Type 0 where
  returned : A → Outcome A
  raised : Outcome A

-- `CacheInterface` (app/cache/interface.py): what the service calls, at the time of the call.
pub record Backend (V : Type 0) : Type 1 where
  pub State : Type 0
  pub get : Time → Str → State → Outcome (Option V) × State
  pub set : Time → Str → V → Option ℕ → State → Outcome Bool × State
  pub add : Time → Str → V → Option ℕ → State → Outcome Bool × State
  pub delete : Time → Str → State → Outcome ℕ × State
  pub delete_prefix : Time → Str → State → Outcome ℕ × State
  pub hit : Time → Str → ℕ → ℕ → Bool → State → Outcome Decision × State

abbrev returning : {S A : Type 0} → A × S → Outcome A × S
returning (a, s) = (returned a, s)

abbrev answering : {S A : Type 0} → Option A × S → Outcome A × S
answering (none, s) = (raised, s)
answering (some a, s) = (returned a, s)

-- The in-process backend.
abbrev pub memory_backend : {V : Type 0} → (V → V) → Backend V
memory_backend {V} json = record {
  State = Memory.Memory V;
  get = λ now key s. returning (Memory.get json now key s);
  set = λ now key v ttl s. returning (Memory.set json now key v ttl s);
  add = λ now key v ttl s. returning (Memory.add json now key v ttl s);
  delete = λ now key s. returning (Memory.delete json (key ∷ []) s);
  delete_prefix = λ now prefix s. returning (Memory.delete_prefix json prefix s);
  hit = λ now key limit window sliding s. answering (Memory.hit now key limit window sliding s);
}

pub record Settings : Type 0 where
  pub default_ttl : ℕ
  pub prefix : Str
  pub cooldown : ℕ

-- What `time.monotonic()` reads when a call begins, and when its failure is recorded.
pub record Clock : Type 0 where
  pub asked : Time
  pub noticed : Time

-- `ttl or self.default_ttl`
abbrev pub or_default : Option ℕ → ℕ → ℕ
or_default none d = d
or_default (some ttl) d = if ttl == 0 then d else ttl

-- `pattern.rstrip('*')`
abbrev keep_unless_star : ℕ → Str → Str
keep_unless_star c [] = if c == b'*' then [] else c ∷ []
keep_unless_star c (d ∷ s) = c ∷ d ∷ s

unfoldable pub rstrip_star : Str → Str
rstrip_star [] = []
rstrip_star (c ∷ s) = keep_unless_star c (rstrip_star s)

module _ {V : Type 0} (b : Backend V) where
  pub record Service : Type 0 where
    pub backend : b.State
    pub skip_until : Time

module _ {V : Type 0} (b : Backend V) (cfg : Settings) where
  -- `available`
  abbrev pub available : Time → Service b → Bool
  available now s = leb s.skip_until now

  -- After the call: a failure opens the circuit (`_record_failure`).
  abbrev pub settle : {A : Type 0} → Clock → Service b → Outcome A × b.State → Outcome A × Service b
  settle clock s (returned a, st) = (returned a, record s { backend = st })
  settle clock s (raised, st) =
      (raised, record { backend = st; skip_until = clock.noticed + cfg.cooldown * second })

  -- The operations with no fallback: `raised` is `CacheUnavailableError`.
  unfoldable pub require :
      {A : Type 0} → Clock → (b.State → Outcome A × b.State) → Service b → Outcome A × Service b
  require clock call s =
      if available clock.asked s then settle clock s (call s.backend) else (raised, s)

  -- The degradable operations: the fallback while the backend is left alone, and when it fails.
  abbrev pub or_else : {A : Type 0} → A → Outcome A × Service b → A × Service b
  or_else d (returned a, s) = (a, s)
  or_else d (raised, s) = (d, s)

  unfoldable pub get : Clock → Str → Service b → Option V × Service b
  unfolding require
  get clock key s = or_else none (require clock (b.get clock.asked (cfg.prefix ++ key)) s)

  unfoldable pub set : Clock → Str → V → Option ℕ → Service b → Bool × Service b
  unfolding require
  set clock key value ttl s = or_else false (
      require clock
        (b.set clock.asked (cfg.prefix ++ key) value (some (or_default ttl cfg.default_ttl))) s)

  unfoldable pub delete : Clock → Str → Service b → ℕ × Service b
  unfolding require
  delete clock key s = or_else 0 (require clock (b.delete clock.asked (cfg.prefix ++ key)) s)

  unfoldable pub clear_pattern : Clock → Str → Service b → ℕ × Service b
  unfolding require rstrip_star
  clear_pattern clock pattern s =
      or_else 0 (require clock (b.delete_prefix clock.asked (cfg.prefix ++ rstrip_star pattern)) s)

  unfoldable pub add : Clock → Str → V → Option ℕ → Service b → Outcome Bool × Service b
  unfolding require
  add clock key value ttl s =
      require clock
        (b.add clock.asked (cfg.prefix ++ key) value (some (or_default ttl cfg.default_ttl))) s

  unfoldable pub hit : Clock → Str → ℕ → ℕ → Bool → Service b → Outcome Decision × Service b
  unfolding require
  hit clock key limit window sliding s =
      require clock (b.hit clock.asked key limit window sliding) s
