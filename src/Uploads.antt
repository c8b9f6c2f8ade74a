-- ===== src/Uploads.antt =====
-- Chunked uploads (app/services/file/chunked_upload.py): the bounds that a new session and every
-- chunk are checked against, and the reassembly.
--
-- The staged chunks of one upload are a dictionary from chunk number to bytes (the storage
-- directory of the upload). Each operation on them takes the session's record that
-- `get_upload_info` has answered; its status is always in progress. Numbers that the client sends
-- are natural numbers, and the configured chunk size is at least 1. A filename, a content type, tags
-- and metadata are left out.
pub mod Bounds
pub mod Tests
use fast_api_boiler_plate.Base.{
  ℕ, zero, suc, ◌+◌, ◌-◌, ◌*◌, ◌/◌, ◌%◌, min, Bool, true, false, not, ◌&&◌, ◌||◌, Option, none,
  some, List, [], ◌∷◌, ◌++◌, if◌then◌else◌, Ident, Str, codes, str_eq, ltb, leb, length, ◌==◌, map,
}
use fast_api_boiler_plate.Cache.Service.{
  Backend, Settings, Clock, Service, Outcome, returned, raised,
}
use fast_api_boiler_plate.Cache.Service

-- `UPLOAD_ID_PATTERN`: 8 to 64 letters, digits, dashes and underscores.
abbrev pub is_id_char : ℕ → Bool
is_id_char c =
    (leb 48 c && leb c 57)
    || (leb 65 c && leb c 90)
    || (leb 97 c && leb c 122)
    || c == b'_'
    || c == b'-'

abbrev pub all_chars : Str → Bool
all_chars [] = true
all_chars (c ∷ cs) = is_id_char c && all_chars cs

unfoldable pub valid_upload_id : Str → Bool
valid_upload_id id = leb 8 (length id) && leb (length id) 64 && all_chars id

pub record Limits : Type 0 where
  pub max_total_size : ℕ
  pub max_chunk_size : ℕ
  pub max_chunks : ℕ
  pub upload_ttl : ℕ

pub record Upload : Type 0 where
  pub upload_id : Str
  pub user_id : Str
  pub total_chunks : ℕ
  pub total_size : ℕ

-- `-(-a // b)`, with `b` at least 1.
abbrev pub ceil_div : ℕ → ℕ → ℕ
ceil_div a b = (a + (b - 1)) / b

pub data Refusal : Type 0 where
  bad_id bad_size bad_chunks unavailable : Refusal

pub data Started : Type 0 where
  started : Upload → Started
  refused : Refusal → Started

-- The checks of `start_upload` on what the client declares.
unfoldable pub declared : Limits → Str → ℕ → ℕ → Option Refusal
unfolding valid_upload_id
declared limits id total_chunks total_size =
    let min_chunks = ceil_div total_size limits.max_chunk_size in
    if not (valid_upload_id id)
    then some bad_id
    else (if not (ltb 0 total_size && leb total_size limits.max_total_size)
        then some bad_size
        else (if not
              (leb min_chunks total_chunks && leb total_chunks (min total_size limits.max_chunks))
            then some bad_chunks
            else none))

-- What a chunk may weigh.
unfoldable pub chunk_limit : Limits → Upload → ℕ
chunk_limit limits u = min limits.max_chunk_size (2 * ceil_div u.total_size u.total_chunks)

abbrev pub Staged : Type 0
Staged = List (ℕ × Str)

-- The backend's `save` with `overwrite=True`, and a read.
unfoldable pub save : ℕ → Str → Staged → Staged
save n bytes [] = (n, bytes) ∷ []
save n bytes ((m, old) ∷ d) = if m == n then (n, bytes) ∷ d else (m, old) ∷ save n bytes d

unfoldable pub open_stream : ℕ → Staged → Option Str
open_stream n [] = none
open_stream n ((m, bytes) ∷ d) = if m == n then some bytes else open_stream n d

-- `save_chunk` for the session's record.
unfoldable pub save_chunk : Limits → Option Upload → ℕ → Str → Staged → Bool × Staged
unfolding save chunk_limit
save_chunk limits none n bytes d = (false, d)
save_chunk limits (some u) n bytes d =
    if not (leb 1 n && leb n u.total_chunks)
    then (false, d)
    else (if length bytes == 0 || ltb (chunk_limit limits u) (length bytes)
        then (false, d)
        else (true, save n bytes d))

abbrev insert_number : ℕ → List ℕ → List ℕ
insert_number n [] = n ∷ []
insert_number n (m ∷ ms) = if leb n m then n ∷ m ∷ ms else m ∷ insert_number n ms

abbrev sort_numbers : List ℕ → List ℕ
sort_numbers [] = []
sort_numbers (n ∷ ns) = insert_number n (sort_numbers ns)

abbrev pub count_up : ℕ → ℕ → List ℕ
count_up n zero = []
count_up n (suc k) = n ∷ count_up (n + 1) k

abbrev pub eq_numbers : List ℕ → List ℕ → Bool
eq_numbers [] [] = true
eq_numbers (x ∷ xs) (y ∷ ys) = x == y && eq_numbers xs ys
eq_numbers _ _ = false

unfoldable pub received_chunks : Staged → List ℕ
received_chunks d = sort_numbers (map (λ p. p.0) d)

unfoldable pub is_complete : Option Upload → Staged → Bool
unfolding received_chunks
is_complete none d = false
is_complete (some u) d = eq_numbers (received_chunks d) (count_up 1 u.total_chunks)

-- The stream that `pieces` yields: the bytes, and whether it ends well (or else raises
-- `UploadSizeMismatchError`).
unfoldable pub pieces : ℕ → ℕ → ℕ → ℕ → Staged → Str × Bool
pieces size total n zero d = ([], total == size)
pieces size total n (suc k) d = elim (open_stream n d) [
  | none ↦ ([], false)
  | some bytes ↦
      let (rest, ok) = pieces size (total + length bytes) (n + 1) k d in (bytes ++ rest, ok)
]

unfoldable pub open_assembled : Option Upload → Staged → Option (Str × Bool)
unfolding pieces is_complete
open_assembled none d = none
open_assembled (some u) d =
    if is_complete (some u) d then some (pieces u.total_size 0 1 u.total_chunks d) else none

module _ (b : Backend Upload) (cfg : Settings) (limits : Limits) where
  -- `_info_key`
  abbrev pub info_key : Str → Str → Str
  info_key user id = codes "chunked_upload:" ++ user ++ codes ":" ++ id

  unfoldable pub get_upload_info : Clock → Str → Str → Service b → Option Upload × Service b
  get_upload_info clock user id c = Service.get b cfg clock (info_key user id) c

  abbrev pub after_add : Clock → Str → Str → Upload → Outcome Bool × Service b → Started × Service b
  after_add clock user id info (raised, c) = (refused unavailable, c)
  after_add clock user id info (returned true, c) = (started info, c)
  after_add clock user id info (returned false, c) =
      let (found, c') = get_upload_info clock user id c in
      (elim found [ none ↦ started info | some old ↦ started old ], c')

  unfoldable pub start_upload : Clock → Clock → Str → Str → ℕ → ℕ → Service b → Started × Service b
  unfolding declared get_upload_info
  start_upload adding reading user id total_chunks total_size c =
      elim (declared limits id total_chunks total_size) [
        | some why ↦ (refused why, c)
        | none ↦
            after_add reading user id
              (record {
                upload_id = id;
                user_id = user;
                total_chunks = total_chunks;
                total_size = total_size;
              })
              (Service.add b cfg adding (info_key user id)
                (record {
                  upload_id = id;
                  user_id = user;
                  total_chunks = total_chunks;
                  total_size = total_size;
                })
                (some limits.upload_ttl) c)
      ]
