-- ===== src/Middleware/Idempotency/Laws.antt =====
-- Retried requests on the in-process cache (app/api/middleware/idempotency.py).
use fast_api_boiler_plate.Base.{
  ℕ, ◌+◌, ◌*◌, ◌≤◌, ◌<◌, ◌≡◌, refl, Bool, true, false, ◌||◌, Option, none, some, List, ◌++◌, Time,
  arith, leb, if◌then◌else◌, Str, codes, lookup, insert, lookup-insert_self, lookup-erase,
  str_eq_refl, str_eq, select, not, ap, ◌∙◌,
}
use fast_api_boiler_plate.Cache.Memory
use fast_api_boiler_plate.Cache.Memory.{second, expiry, has_expired}
use fast_api_boiler_plate.Cache.Service.{
  Outcome, returned, raised, Settings, Clock, Service, memory_backend, or_default, require,
}
use fast_api_boiler_plate.Cache.Service
use fast_api_boiler_plate.Middleware.Idempotency.{
  Request, Message, Entry, running, done, Answer, forwarded, problem, replayed, is_unsafe,
  is_valid_key, is_streamed, not_stored, capture_all, is_replayed_header, to_dict, answer_retry,
  Clocks, cache_key, body_hash, conclude, run_claimed, guarded, handle,
}

-- The entry as it comes back from the cache.
abbrev pub same_entry : Entry → Entry
same_entry e = e

abbrev pub MemoryService : Type 0
MemoryService = Service (memory_backend same_entry)

-- Whether an answer with these messages is kept for retries.
abbrev pub is_kept : List Message → Bool
is_kept sent =
    let c = capture_all sent in not (leb 500 c.status || not_stored c.status || c.too_big)

-- What is kept of it.
abbrev pub kept : Str → List Message → Entry
kept hash sent =
    let c = capture_all sent in done hash c.status (select is_replayed_header c.headers) c.content

-- What the cache holds under a key, and how long what is written now is held.
abbrev pub item : Settings → Str → MemoryService → Option (Entry × Option Time)
item cfg key s = lookup (cfg.prefix ++ key) s.backend.items

abbrev pub keeps_until : Settings → ℕ → Time → Option Time
keeps_until cfg ttl now = expiry now (some (or_default (some ttl) cfg.default_ttl))

keeps_until-live :
    (cfg : Settings) (ttl : ℕ) (now later : Time)
    → 1 ≤ ttl
    → later < now + ttl * second
    → has_expired later (keeps_until cfg ttl now) ≡ false
keeps_until-live cfg ttl now later pos h = ground arith

module _ {W : Type 0} (app : Request → Str → W → Option (List Message) × W) (cfg : Settings)
    (ttl : ℕ) where
  -- A taken key answers the request: the application does not run, and nothing is written.
  guarded-held :
      (clocks : Clocks) (key hash : Str) (r : Request) (w : W) (s : MemoryService) {e : Entry}
      {expires : Option Time}
      → item cfg key s ≡ some (e, expires)
      → has_expired clocks.claim.asked expires ≡ false
      → has_expired clocks.after.asked expires ≡ false
      → s.skip_until ≤ clocks.claim.asked
      → s.skip_until ≤ clocks.after.asked
      → guarded app (memory_backend same_entry) cfg ttl clocks key hash r w s
        ≡ (answer_retry hash (some e), w, s)
  unfolding guarded Service.add Service.get Memory.add Memory.get
  guarded-held clocks key hash r w s held f g up up' = ground arith

  conclude-item :
      (clock : Clock) (key hash : Str) (sent : List Message) (s : MemoryService)
      → s.skip_until ≤ clock.asked
      → let out = conclude (memory_backend same_entry) cfg ttl clock key hash sent s in
        (out.skip_until ≡ s.skip_until)
        × (item cfg key out ≡ (
            if is_kept sent then some (kept hash sent, keeps_until cfg ttl clock.asked) else none))
  unfolding conclude Service.delete Service.set Memory.delete Memory.set
  conclude-item clock key hash sent s up = ground (
    arith,
    lookup-insert_self (cfg.prefix ++ key) (kept hash sent, keeps_until cfg ttl clock.asked)
        s.backend.items,
    lookup-erase (cfg.prefix ++ key) (cfg.prefix ++ key) s.backend.items,
    str_eq_refl (cfg.prefix ++ key),
  )

  -- The service once the request has claimed the key.
  abbrev claimed : Time → Str → Str → MemoryService → MemoryService
  claimed now key hash s = record s {
    backend = record s.backend {
      items = insert (cfg.prefix ++ key) (running hash, keeps_until cfg ttl now) s.backend.items;
    };
  }

  guarded-runs :
      (clocks : Clocks) (key hash : Str) (r : Request) (w : W) (s : MemoryService)
      → item cfg key s ≡ none
      → s.skip_until ≤ clocks.claim.asked
      → guarded app (memory_backend same_entry) cfg ttl clocks key hash r w s
        ≡ run_claimed app
            (memory_backend same_entry)
            cfg
            ttl
            clocks.after
            key
            hash
            r
            w
            (claimed clocks.claim.asked key hash s)
  unfolding guarded Service.add Memory.add Memory.get Memory.set
  guarded-runs clocks key hash r w s free up = ground arith

  -- A free key: the application runs, and its answer is kept or the key is released.
  guarded-free :
      (clocks : Clocks) (key hash : Str) (r : Request) (w w' : W) (s : MemoryService)
      {sent : List Message}
      → item cfg key s ≡ none
      → s.skip_until ≤ clocks.claim.asked
      → s.skip_until ≤ clocks.after.asked
      → app r r.body w ≡ (some sent, w')
      → let out = guarded app (memory_backend same_entry) cfg ttl clocks key hash r w s in
        (out.0 ≡ forwarded sent)
        × (out.1 ≡ w')
        × (out.2.skip_until ≡ s.skip_until)
        × (item cfg key out.2 ≡ (
            if is_kept sent
            then some (kept hash sent, keeps_until cfg ttl clocks.after.asked)
            else none))
  unfolding run_claimed
  guarded-free clocks key hash r w w' s {sent} free up up' ran =
      let (skipped, stored) =
        conclude-item clocks.after key hash sent (claimed clocks.claim.asked key hash s) up' in
      rw (guarded-runs clocks key hash r w s free up, run_claimed, ran)
        (refl, ap (λ (p : Option (List Message) × W). p.1) ran, skipped, stored)

-- A request that the middleware guards: with a well-formed key, an unsafe method and a length that
-- can be read.
pub record IsGuarded (r : Request) : Type 0 where
  pub key : Str
  pub streamed : Bool
  pub keyed : r.key ≡ some key
  pub unsafe : is_unsafe r.method ≡ true
  pub valid : is_valid_key key ≡ true
  pub sized : is_streamed r ≡ some streamed

module _ (sha256 : Str → Str) {W : Type 0} (app : Request → Str → W → Option (List Message) × W)
    (cfg : Settings) (ttl : ℕ) where
  abbrev pub run : Clocks → Request → W → MemoryService → Answer × W × MemoryService
  run = handle app (memory_backend same_entry) cfg ttl sha256

  abbrev pub key_of : {r : Request} → IsGuarded r → Str
  key_of {r} g = cache_key sha256 r g.key

  abbrev pub hash_of : {r : Request} → IsGuarded r → Str
  hash_of {r} g = body_hash sha256 r g.streamed

  run-guarded :
      (clocks : Clocks) (r : Request) (g : IsGuarded r) (w : W) (s : MemoryService)
      → run clocks r w s
        ≡ guarded app (memory_backend same_entry) cfg ttl clocks (key_of g) (hash_of g) r w s
  unfolding handle
  run-guarded clocks r g w s =
      let keyed = g.keyed in
      let unsafe = g.unsafe in let valid = g.valid in let sized = g.sized in ground arith

  -- While another request holds the key, a request with that key is answered 409, whatever its
  -- body: the application does not run for it, and nothing is written.
  pub run-conflict :
      (clocks : Clocks) (r : Request) (g : IsGuarded r) (w : W) (s : MemoryService) {hash : Str}
      {expires : Option Time}
      → item cfg (key_of g) s ≡ some (running hash, expires)
      → has_expired clocks.claim.asked expires ≡ false
      → has_expired clocks.after.asked expires ≡ false
      → s.skip_until ≤ clocks.claim.asked
      → s.skip_until ≤ clocks.after.asked
      → run clocks r w s ≡ (problem 409, w, s)
  unfolding answer_retry
  run-conflict clocks r g w s held f f' up up' =
      run-guarded clocks r g w s
      ∙ guarded-held app cfg ttl clocks (key_of g) (hash_of g) r w s held f f' up up'

  module _ (clocks later : Clocks) (r : Request) (g : IsGuarded r) (w w' : W) (s : MemoryService)
      {sent : List Message} (free : item cfg (key_of g) s ≡ none)
      (up : s.skip_until ≤ clocks.claim.asked) (up' : s.skip_until ≤ clocks.after.asked)
      (ran : app r r.body w ≡ (some sent, w')) where
    after_first :
        ((run clocks r w s).0 ≡ forwarded sent)
        × ((run clocks r w s).1 ≡ w')
        × ((run clocks r w s).2.skip_until ≡ s.skip_until)
        × (item cfg (key_of g) (run clocks r w s).2 ≡ (
            if is_kept sent
            then some (kept (hash_of g) sent, keeps_until cfg ttl clocks.after.asked)
            else none))
    after_first =
        rw (run-guarded clocks r g w s)
          (guarded-free app cfg ttl clocks (key_of g) (hash_of g) r w w' s free up up' ran)

    retry-answer :
        1 ≤ ttl
        → is_kept sent ≡ true
        → s.skip_until ≤ later.claim.asked
        → s.skip_until ≤ later.after.asked
        → later.claim.asked < clocks.after.asked + ttl * second
        → later.after.asked < clocks.after.asked + ttl * second
        → (r' : Request) (g' : IsGuarded r') (w'' : W) → key_of g' ≡ key_of g
        → run later r' w'' (run clocks r w s).2
          ≡ (answer_retry (hash_of g') (some (kept (hash_of g) sent)), w'', (run clocks r w s).2)
    retry-answer pos keep up₁ up₂ soon soon' r' g' w'' same =
        let (_, _, skip, stored) = after_first in
        run-guarded later r' g' w'' (run clocks r w s).2
        ∙ guarded-held app cfg ttl later (key_of g') (hash_of g') r' w'' (run clocks r w s).2
            (rw (← same, keep) at stored)
            (keeps_until-live cfg ttl clocks.after.asked later.claim.asked pos soon)
            (keeps_until-live cfg ttl clocks.after.asked later.after.asked pos soon') (rw skip up₁)
            (rw skip up₂)

    -- The first request with a key runs and is answered by the application. Where that answer is
    -- one to keep, a retry within the time to live, of a request with the same key in the same
    -- scope and the same body hash, is answered with the kept status, headers and content: the
    -- application does not run again, whatever its state, and nothing is written.
    pub retry-replayed :
        1 ≤ ttl
        → is_kept sent ≡ true
        → s.skip_until ≤ later.claim.asked
        → s.skip_until ≤ later.after.asked
        → later.claim.asked < clocks.after.asked + ttl * second
        → later.after.asked < clocks.after.asked + ttl * second
        → (r' : Request) (g' : IsGuarded r') (w'' : W) → key_of g' ≡ key_of g
        → hash_of g' ≡ hash_of g
        → ((run clocks r w s).0 ≡ forwarded sent)
          × ((run clocks r w s).1 ≡ w')
          × (run later r' w'' (run clocks r w s).2 ≡ (
            replayed
                (capture_all sent).status
                (insert
                  (codes "Idempotent-Replayed")
                  (codes "true")
                  (to_dict (select is_replayed_header (capture_all sent).headers)))
                (capture_all sent).content,
            w'',
            (run clocks r w s).2,
          ))
    unfolding answer_retry
    retry-replayed pos keep up₁ up₂ soon soon' r' g' w'' same body = (
      after_first.0,
      after_first.1,
      retry-answer pos keep up₁ up₂ soon soon' r' g' w'' same ∙ rw (body, str_eq_refl (hash_of g)),
    )

    -- The same key with another body hash is rejected with 422 as long as the first answer is
    -- kept: the application does not run, and nothing is written.
    pub retry-mismatched :
        1 ≤ ttl
        → is_kept sent ≡ true
        → s.skip_until ≤ later.claim.asked
        → s.skip_until ≤ later.after.asked
        → later.claim.asked < clocks.after.asked + ttl * second
        → later.after.asked < clocks.after.asked + ttl * second
        → (r' : Request) (g' : IsGuarded r') (w'' : W) → key_of g' ≡ key_of g
        → str_eq (hash_of g) (hash_of g') ≡ false
        → run later r' w'' (run clocks r w s).2 ≡ (problem 422, w'', (run clocks r w s).2)
    unfolding answer_retry
    retry-mismatched pos keep up₁ up₂ soon soon' r' g' w'' same other =
        retry-answer pos keep up₁ up₂ soon soon' r' g' w'' same ∙ rw other

    -- After an answer that is not kept (a server error, an authentication or limit rejection, or
    -- one too large) the key is free again: a retry of the request runs the application anew.
    pub retry-reruns :
        is_kept sent ≡ false
        → s.skip_until ≤ later.claim.asked
        → s.skip_until ≤ later.after.asked
        → (w'' w₃ : W) {again : List Message} → app r r.body w'' ≡ (some again, w₃)
        → ((run later r w'' (run clocks r w s).2).0 ≡ forwarded again)
          × ((run later r w'' (run clocks r w s).2).1 ≡ w₃)
    retry-reruns drop up₁ up₂ w'' w₃ {again} reran =
        let (_, _, skip, stored) = after_first in
        let out =
          guarded-free app cfg ttl later (key_of g) (hash_of g) r w'' w₃ (run clocks r w s).2
            {sent = again} (rw drop at stored) (rw skip up₁) (rw skip up₂) reran in
        rw (run-guarded later r g w'' (run clocks r w s).2) (out.0, out.1)
