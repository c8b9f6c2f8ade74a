-- ===== src/Middleware/Tests.antt =====
-- The middlewares' theorems at concrete inputs.
use fast_api_boiler_plate.Base.{
  ℕ, ◌+◌, ◌≡◌, refl, true, false, none, some, List, [], ◌∷◌, ◌++◌, Time, arith, Str, codes, insert,
  select, lookup, str_eq, starts_with, Option,
}
use fast_api_boiler_plate.Cache.Service.{Settings}
use fast_api_boiler_plate.Middleware.Idempotency.{
  Request, Message, start, body, forwarded, problem, replayed, running, Clocks, capture_all,
  to_dict, is_replayed_header, is_valid_key, is_streamed,
}
use fast_api_boiler_plate.Middleware.Idempotency.Laws.{
  MemoryService, IsGuarded, run, key_of, is_kept, run-conflict, retry-replayed, retry-mismatched,
  retry-reruns,
}

abbrev cfg : Settings
cfg = record { default_ttl = 60; prefix = codes "app:"; cooldown = 30 }

-- The hash is an argument of the model: here, the text itself.
abbrev sha : Str → Str
sha s = s

-- The application counts the requests that it has run; this one is answered by 201, or by 503.
abbrev app : Request → Str → ℕ → Option (List Message) × ℕ
app r b n = (some (start 201 [] ∷ body (codes "ok") ∷ []), n + 1)

abbrev failing : Request → Str → ℕ → Option (List Message) × ℕ
failing r b n = (some (start 503 [] ∷ []), n + 1)

abbrev post : Request
post = record {
  method = codes "POST";
  key = some (codes "k-123456");
  content_length = some (codes "2");
  content_type = codes "text/plain";
  authorization = none;
  cookie = none;
  path = codes "/a";
  query = [];
  body = codes "hi";
}

abbrev post-IsGuarded : IsGuarded post
unfolding is_valid_key is_streamed starts_with str_eq
post-IsGuarded = record {
  key = codes "k-123456";
  streamed = false;
  keyed = refl;
  unsafe = refl;
  valid = refl;
  sized = refl;
}

abbrev empty : MemoryService
empty = record { backend = record { items = []; windows = []; fixed = [] }; skip_until = 0 }

abbrev clocks : Time → Clocks
clocks t = record {
  claim = record { asked = t; noticed = t };
  after = record { asked = t + 1; noticed = t + 1 };
}

-- The request is in flight: only the claim stands.
abbrev busy : MemoryService
busy = record empty {
  backend = record {
    items = (codes "app:" ++ key_of sha app cfg 60 post-IsGuarded, (running [], none)) ∷ [];
    windows = [];
    fixed = [];
  };
}

run-conflict_example : run sha app cfg 60 (clocks 10) post 0 busy ≡ (problem 409, 0, busy)
unfolding lookup str_eq post-IsGuarded
run-conflict_example =
    run-conflict sha app cfg 60 (clocks 10) post post-IsGuarded 0 busy {hash = []} {expires = none}
      refl refl refl (omega arith) (omega arith)

kept_answer : is_kept (start 201 [] ∷ body (codes "ok") ∷ []) ≡ true
unfolding capture_all
kept_answer = refl

dropped_answer : is_kept (start 503 [] ∷ []) ≡ false
unfolding capture_all
dropped_answer = refl

abbrev sent : List Message
sent = start 201 [] ∷ body (codes "ok") ∷ []

retry-replayed_example :
    ((run sha app cfg 60 (clocks 10) post 0 empty).0 ≡ forwarded sent)
    × ((run sha app cfg 60 (clocks 10) post 0 empty).1 ≡ 1)
    × (run sha app cfg 60 (clocks 20) post 5 (run sha app cfg 60 (clocks 10) post 0 empty).2 ≡ (
      replayed
          (capture_all sent).status
          (insert
            (codes "Idempotent-Replayed")
            (codes "true")
            (to_dict (select is_replayed_header (capture_all sent).headers)))
          (capture_all sent).content,
      5,
      (run sha app cfg 60 (clocks 10) post 0 empty).2,
    ))
unfolding lookup
retry-replayed_example =
    retry-replayed sha app cfg 60 (clocks 10) (clocks 20) post post-IsGuarded 0 1 empty
      {sent = sent} refl (omega arith) (omega arith) refl (omega arith) kept_answer (omega arith)
      (omega arith) (omega arith) (omega arith) post post-IsGuarded 5 refl refl

abbrev other : Request
other = record post { body = codes "no" }

abbrev other-IsGuarded : IsGuarded other
unfolding is_valid_key is_streamed starts_with str_eq
other-IsGuarded = record {
  key = codes "k-123456";
  streamed = false;
  keyed = refl;
  unsafe = refl;
  valid = refl;
  sized = refl;
}

retry-mismatched_example :
    run sha app cfg 60 (clocks 20) other 5 (run sha app cfg 60 (clocks 10) post 0 empty).2
    ≡ (problem 422, 5, (run sha app cfg 60 (clocks 10) post 0 empty).2)
unfolding lookup str_eq post-IsGuarded other-IsGuarded
retry-mismatched_example =
    retry-mismatched sha app cfg 60 (clocks 10) (clocks 20) post post-IsGuarded 0 1 empty
      {sent = sent} refl (omega arith) (omega arith) refl (omega arith) kept_answer (omega arith)
      (omega arith) (omega arith) (omega arith) other other-IsGuarded 5 refl refl

retry-reruns_example :
    ((run sha failing cfg 60
        (clocks 20)
        post
        5
        (run sha failing cfg 60 (clocks 10) post 0 empty).2).0
      ≡ forwarded (start 503 [] ∷ []))
    × ((run sha failing cfg 60
          (clocks 20)
          post
          5
          (run sha failing cfg 60 (clocks 10) post 0 empty).2).1
        ≡ 6)
unfolding lookup
retry-reruns_example =
    retry-reruns sha failing cfg 60 (clocks 10) (clocks 20) post post-IsGuarded 0 1 empty
      {sent = start 503 [] ∷ []} refl (omega arith) (omega arith) refl dropped_answer (omega arith)
      (omega arith) 5 6 {again = start 503 [] ∷ []} refl
