-- ===== src/Middleware/Idempotency.antt =====
-- `IdempotencyMiddleware` (app/api/middleware/idempotency.py).
--
-- The application behind the middleware is an argument: on the body that it receives and a state of
-- its own it sends messages or raises. SHA-256 is an argument too. The stored content is the bytes
-- whose base64 text the source stores.
pub mod Laws
use fast_api_boiler_plate.Base.{
  ℕ, ◌+◌, ◌*◌, ◌-◌, Bool, true, false, not, ◌&&◌, ◌||◌, Option, none, some, List, [], ◌∷◌, ◌++◌,
  map, ltb, leb, ◌==◌, if◌then◌else◌, length, Str, codes, str_eq, starts_with, insert, any, select,
}
use mathlib.Core.List.{foldl}
use fast_api_boiler_plate.Cache.Service.{
  Outcome, returned, raised, Backend, Settings, Clock, Service,
}
use fast_api_boiler_plate.Cache.Service

pub record Request : Type 0 where
  pub method : Str
  pub key : Option Str
  pub content_length : Option Str
  pub content_type : Str
  pub authorization : Option Str
  pub cookie : Option Str
  pub path : Str
  pub query : Str
  pub body : Str

abbrev pub Headers : Type 0
Headers = List (Str × Str)

-- What the application sends.
pub data Message : Type 0 where
  start : ℕ → Headers → Message
  body : Str → Message
  other : Message

-- The record under a key.
pub data Entry : Type 0 where
  running : Str → Entry
  done : Str → ℕ → Headers → Str → Entry

pub data Answer : Type 0 where
  -- what the application sent
  forwarded : List Message → Answer
  -- the application's exception, or one of the middleware's own
  failed : Answer
  problem : ℕ → Answer
  replayed : ℕ → Headers → Str → Answer

abbrev pub is_unsafe : Str → Bool
is_unsafe m =
    any (λ u. str_eq u m) (codes "POST" ∷ codes "PUT" ∷ codes "PATCH" ∷ codes "DELETE" ∷ [])

abbrev pub is_key_char : ℕ → Bool
is_key_char c =
    leb b'A' c && leb c b'Z'
    || leb b'a' c && leb c b'z'
    || leb b'0' c && leb c b'9'
    || c == b'_'
    || c == b'-'

abbrev pub all_of : (ℕ → Bool) → Str → Bool
all_of p [] = true
all_of p (c ∷ s) = p c && all_of p s

-- `KEY_PATTERN.fullmatch`
unfoldable pub is_valid_key : Str → Bool
is_valid_key k = all_of is_key_char k && leb 8 (length k) && leb (length k) 128

abbrev pub max_stored_body : ℕ
max_stored_body = 1048576

abbrev pub max_buffered_request : ℕ
max_buffered_request = 1048576

-- `str.isdigit` on the Latin-1 characters of a header: the ASCII digits, and the three superscript
-- digits, on which `int` then raises.
abbrev pub is_ascii_digit : ℕ → Bool
is_ascii_digit c = leb b'0' c && leb c b'9'

abbrev pub is_digit : ℕ → Bool
is_digit c = is_ascii_digit c || c == 178 || c == 179 || c == 185

abbrev pub is_empty : Str → Bool
is_empty [] = true
is_empty (c ∷ s) = false

unfoldable pub to_int : ℕ → Str → Option ℕ
to_int acc [] = some acc
to_int acc (c ∷ s) = if is_ascii_digit c then to_int (acc * 10 + (c - b'0')) s else none

-- Whether the body is streamed; `none` is the `ValueError` of `int`.
unfoldable pub is_streamed : Request → Option Bool
unfolding to_int
is_streamed r = elim r.content_length [
  | none ↦ some true
  | some n ↦
      if is_empty n || not (all_of is_digit n)
      then some true
      else if starts_with (codes "multipart/") r.content_type
      then some true
      else elim (to_int 0 n) [ none ↦ none | some size ↦ some (ltb max_buffered_request size) ]
]

-- `length or 'unknown'`
abbrev pub or_unknown : Option Str → Str
or_unknown none = codes "unknown"
or_unknown (some n) = if is_empty n then codes "unknown" else n

abbrev pub or_text : Option Str → Str → Str
or_text none d = d
or_text (some s) d = if is_empty s then d else s

abbrev pub credentials : Request → Str
credentials r = or_text r.authorization (or_text r.cookie [])

abbrev pub lower : ℕ → ℕ
lower c = if leb b'A' c && leb c b'Z' then c + 32 else c

abbrev pub is_replayed_header : Str × Str → Bool
is_replayed_header (k, v) =
    any (λ h. str_eq h (map lower k))
      (codes "content-type" ∷ codes "location" ∷ codes "content-disposition" ∷ [])

-- `status in NOT_STORED`
abbrev pub not_stored : ℕ → Bool
not_stored s = s == 401 || s == 403 || s == 408 || s == 425 || s == 429

pub record Captured : Type 0 where
  pub status : ℕ
  pub headers : Headers
  pub content : Str
  pub too_big : Bool

-- `capture_send`
abbrev pub capture : Captured → Message → Captured
capture c (start status headers) = record c { status = status; headers = headers }
capture c (body chunk) = record c {
  content = c.content ++ chunk;
  too_big = c.too_big || ltb max_stored_body (length (c.content ++ chunk));
}
capture c other = c

unfoldable pub capture_all : List Message → Captured
capture_all = foldl capture (record { status = 500; headers = []; content = []; too_big = false })

-- `dict(stored["headers"])`
abbrev pub to_dict : Headers → Headers
to_dict = foldl (λ d h. insert h.0 h.1 d) []

-- The answer to a request whose key is taken.
unfoldable pub answer_retry : Str → Option Entry → Answer
answer_retry hash none = problem 409
answer_retry hash (some (running h)) = problem 409
answer_retry hash (some (done h status headers content)) =
    if str_eq h hash
    then replayed status (insert (codes "Idempotent-Replayed") (codes "true") (to_dict headers))
        content
    else problem 422

-- The clocks of the calls of the cache: the claim, and the read or write after it.
pub record Clocks : Type 0 where
  pub claim : Clock
  pub after : Clock

module _ (sha256 : Str → Str) where
  abbrev pub scope_text : Request → Str → Str
  scope_text r key =
      credentials r
      ++ (codes "|"
          ++ (r.method
              ++ (codes "|" ++ (r.path ++ (codes "?" ++ (r.query ++ (codes "|" ++ key)))))))

  abbrev pub cache_key : Request → Str → Str
  cache_key r key = codes "idempotency:" ++ sha256 (scope_text r key)

  abbrev pub body_hash : Request → Bool → Str
  body_hash r true = codes "length:" ++ or_unknown r.content_length
  body_hash r false = sha256 r.body

module _ (b : Backend Entry) (cfg : Settings) (ttl : ℕ) where
  -- What is left once the application has answered.
  unfoldable pub conclude : Clock → Str → Str → List Message → Service b → Service b
  unfolding capture_all
  conclude clock key hash sent s =
      let c = capture_all sent in
      if leb 500 c.status || not_stored c.status || c.too_big
      then (Service.delete b cfg clock key s).1
      else (Service.set b cfg clock key
          (done hash c.status (select is_replayed_header c.headers) c.content) (some ttl) s).1

module _ {W : Type 0} (app : Request → Str → W → Option (List Message) × W) (b : Backend Entry)
    (cfg : Settings) (ttl : ℕ) where
  -- The request holds the claim: it runs.
  unfoldable pub run_claimed : Clock → Str → Str → Request → W → Service b → Answer × W × Service b
  unfolding conclude
  run_claimed clock key hash r w s =
      let (sent, w') = app r r.body w in
      elim sent [
        | none ↦ (failed, w', (Service.delete b cfg clock key s).1)
        | some messages ↦ (forwarded messages, w', conclude b cfg ttl clock key hash messages s)
      ]

  abbrev pub after_claim :
      Clock → Str → Str → Request → W → Outcome Bool × Service b → Answer × W × Service b
  after_claim clock key hash r w (raised, s) = (problem 503, w, s)
  after_claim clock key hash r w (returned true, s) = run_claimed clock key hash r w s
  after_claim clock key hash r w (returned false, s) =
      (answer_retry hash (Service.get b cfg clock key s).0, w, (Service.get b cfg clock key s).1)

  unfoldable pub guarded : Clocks → Str → Str → Request → W → Service b → Answer × W × Service b
  unfolding run_claimed
  guarded clocks key hash r w s =
      after_claim clocks.after key hash r w
        (Service.add b cfg clocks.claim key (running hash) (some ttl) s)

  abbrev pub forward : Request → W → Service b → Answer × W × Service b
  forward r w s =
      let (sent, w') = app r r.body w in
      (elim sent [ none ↦ failed | some messages ↦ forwarded messages ], w', s)

  unfoldable pub handle : (Str → Str) → Clocks → Request → W → Service b → Answer × W × Service b
  unfolding guarded is_streamed
  handle sha256 clocks r w s = elim r.key [
    | none ↦ forward r w s
    | some key ↦
        if is_unsafe r.method
        then if is_valid_key key
          then elim (is_streamed r) [
            | none ↦ (failed, w, s)
            | some streamed ↦
                guarded clocks (cache_key sha256 r key) (body_hash sha256 r streamed) r w s
          ]
          else (problem 400, w, s)
        else forward r w s
  ]
