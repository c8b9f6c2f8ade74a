-- ===== src/Files.antt =====
-- Stored files and their versions (app/services/file/file_service.py, app/services/data/files_ops.py,
-- app/services/file/streams.py), over a storage backend that keeps bytes under paths.
--
-- Users, files, hashes and the tags and metadata of a file are numbers. Thumbnails, the description
-- of spreadsheets and the API view of a record are left out, and the test of the content type is an
-- argument, as are the id of a new file and which characters are alphanumeric (`isalnum`); so is
-- SHA-256. The backend fails only by a path that is taken or by what the stream raises.
pub mod Service
pub mod Owners
pub mod Kept
pub mod Uploading
pub mod Isolation
pub mod Quota
pub mod Tests
use fast_api_boiler_plate.Base.{
  ℕ, zero, suc, ◌+◌, Bool, true, false, not, ◌&&◌, ◌||◌, Option, none, some, List, [], ◌∷◌, ◌++◌,
  if◌then◌else◌, Ident, Time, Str, str_eq, ltb, leb, ◌==◌, contains, is_some, length, select, take,
}
use fast_api_boiler_plate.Store.{get_record, update_record, update_many, delete_record}
use fast_api_boiler_plate.Sessions.{find_unpaged}

-- `f"{user_id}/{file_id}/{version}/{safe_filename}"`
pub record StoragePath : Type 0 where
  pub user_id : Ident
  pub file_id : Ident
  pub version : ℕ
  pub name : Str

unfoldable pub same_path : StoragePath → StoragePath → Bool
same_path p q =
    p.user_id == q.user_id
    && p.file_id == q.file_id
    && p.version == q.version
    && str_eq p.name q.name

pub record FileRecord : Type 0 where
  pub file_id : Ident
  pub user_id : Ident
  pub filename : Str
  pub size : ℕ
  pub hash : Ident
  pub version : ℕ
  pub storage_path : StoragePath
  pub info : ℕ
  pub is_latest : Bool
  pub created_at : Time
  pub updated_at : Time
  pub deleted_at : Option Time

pub record Limits : Type 0 where
  pub max_file_size : ℕ
  pub user_quota : ℕ
  pub max_versions : ℕ
  pub max_filename : ℕ
  pub versioning_enabled : Bool
  pub deduplication_enabled : Bool
  pub cap : ℕ
  pub is_alnum : ℕ → Bool
  pub sha256 : Str → Ident

abbrev pub Stored : Type 0
Stored = List (StoragePath × Str)

pub record Files : Type 0 where
  pub records : List FileRecord
  pub stored : Stored

-- `_generate_storage_path`
abbrev pub is_safe : Limits → ℕ → Bool
is_safe limits c =
    limits.is_alnum c
    || contains c (b'.' ∷ b'-' ∷ b'_' ∷ b'(' ∷ b')' ∷ b'[' ∷ b']' ∷ b'{' ∷ b'}' ∷ b' ' ∷ [])

abbrev pub strip_left : Str → Str
strip_left [] = []
strip_left (c ∷ s) = if c == b' ' then strip_left s else c ∷ s

abbrev pub keep_unless_space : ℕ → Str → Str
keep_unless_space c [] = if c == b' ' then [] else c ∷ []
keep_unless_space c (d ∷ s) = c ∷ d ∷ s

abbrev pub strip_right : Str → Str
strip_right [] = []
strip_right (c ∷ s) = keep_unless_space c (strip_right s)

abbrev pub underscored : Str → Str
underscored [] = []
underscored (c ∷ s) = (if c == b' ' then b'_' else c) ∷ underscored s

abbrev pub only_dots : Str → Bool
only_dots [] = true
only_dots (c ∷ s) = c == b'.' && only_dots s

unfoldable pub safe_filename : Limits → Str → Str
safe_filename limits filename =
    let safe = underscored (strip_right (strip_left (select (is_safe limits) filename))) in
    if only_dots safe then b'f' ∷ b'i' ∷ b'l' ∷ b'e' ∷ [] else safe

unfoldable pub generate_storage_path : Limits → Ident → Ident → ℕ → Str → StoragePath
unfolding safe_filename
generate_storage_path limits user file version filename = record {
  user_id = user;
  file_id = file;
  version = version;
  name = safe_filename limits filename;
}

-- `MeteredStream`: the bytes that flow by, or `none` once they are more than the limit.
unfoldable pub metered : ℕ → ℕ → List Str → Option Str
metered limit size [] = some []
metered limit size (chunk ∷ chunks) =
    let rest = metered limit (size + length chunk) chunks in
    if ltb limit (size + length chunk)
    then none
    else elim rest [ none ↦ none | some bytes ↦ some (chunk ++ bytes) ]

-- The backend's `exists`, `delete` and reads.
unfoldable pub read : StoragePath → Stored → Option Str
unfolding same_path
read p [] = none
read p ((q, bytes) ∷ d) = if same_path q p then some bytes else read p d

unfoldable pub delete : StoragePath → Stored → Stored
unfolding same_path
delete p [] = []
delete p ((q, bytes) ∷ d) = if same_path q p then delete p d else (q, bytes) ∷ delete p d

-- `save_stream` with `overwrite=False` of bytes that have been measured.
unfoldable pub save_stream : StoragePath → Str → Stored → Bool × Stored
unfolding read
save_stream p bytes d = if is_some (read p d) then (false, d) else (true, (p, bytes) ∷ d)

-- ---- records (`FilesOps`)
abbrev pub is_version_of : Ident → FileRecord → Bool
is_version_of file r = r.file_id == file

abbrev pub is_live : Bool → FileRecord → Bool
is_live include_deleted r = include_deleted || not (is_some r.deleted_at)

abbrev pub newer : FileRecord → Option FileRecord → FileRecord
newer r none = r
newer r (some t) = if ltb r.version t.version then t else r

-- The first of the highest version: `sort=[("version", -1)], limit=1`.
unfoldable pub newest : (FileRecord → Bool) → List FileRecord → Option FileRecord
newest filters [] = none
newest filters (r ∷ rs) =
    let rest = newest filters rs in if filters r then some (newer r rest) else rest

abbrev pub is_asked : Option ℕ → FileRecord → Bool
is_asked none r = true
is_asked (some version) r = r.version == version

unfoldable pub get_file_by_id : Ident → Option ℕ → Bool → List FileRecord → Option FileRecord
unfolding newest
get_file_by_id file version include_deleted rs =
    newest (λ r. is_version_of file r && is_asked version r && is_live include_deleted r) rs

abbrev pub insert_version : FileRecord → List FileRecord → List FileRecord
insert_version r [] = r ∷ []
insert_version r (t ∷ ts) = if ltb r.version t.version then t ∷ insert_version r ts else r ∷ t ∷ ts

abbrev pub newest_first : List FileRecord → List FileRecord
newest_first [] = []
newest_first (r ∷ rs) = insert_version r (newest_first rs)

unfoldable pub get_file_versions : Limits → Ident → Bool → List FileRecord → List FileRecord
get_file_versions limits file include_deleted rs =
    take limits.cap
      (newest_first (select (λ r. is_version_of file r && is_live include_deleted r) rs))

abbrev pub total_size : List FileRecord → ℕ
total_size [] = 0
total_size (r ∷ rs) = r.size + total_size rs

unfoldable pub user_storage_bytes : Limits → Ident → List FileRecord → ℕ
unfolding find_unpaged
user_storage_bytes limits user rs = total_size (find_unpaged limits.cap (λ r. r.user_id == user) rs)

unfoldable pub get_file_by_hash : Ident → Ident → List FileRecord → Option FileRecord
get_file_by_hash hash user rs =
    get_record (λ r. r.hash == hash && r.user_id == user && not (is_some r.deleted_at)) rs

abbrev pub is_superseded : Ident → ℕ → FileRecord → Bool
is_superseded file version r = r.file_id == file && r.is_latest && ltb r.version version

abbrev pub demote : FileRecord → FileRecord
demote r = record r { is_latest = false }

-- The new version is inserted, then the older ones are demoted.
unfoldable pub create_file_metadata : Time → FileRecord → List FileRecord → List FileRecord
create_file_metadata now r rs = update_many (is_superseded r.file_id r.version) demote (
    rs ++ record r { is_latest = true; created_at = now; updated_at = now; deleted_at = none } ∷ [])

abbrev pub has_version : Ident → ℕ → FileRecord → Bool
has_version file version r = r.file_id == file && r.version == version

unfoldable pub update_newest :
    Ident → (FileRecord → FileRecord) → List FileRecord → Bool × List FileRecord
unfolding get_file_by_id
update_newest file change rs = elim (get_file_by_id file none false rs) [
  | none ↦ (false, rs)
  | some latest ↦
      let changed = update_record (has_version file latest.version) change rs in
      (changed.1, changed.0)
]

unfoldable pub delete_versions : Ident → List FileRecord → List FileRecord → List FileRecord
delete_versions file [] rs = rs
delete_versions file (v ∷ vs) rs =
    delete_versions file vs (delete_record (has_version file v.version) rs).0

abbrev pub remove_all :
    Limits → Time → Ident → Bool → List FileRecord → List FileRecord → Bool × List FileRecord
remove_all limits now file hard [] rs = (false, rs)
remove_all limits now file true (v ∷ vs) rs = (true, delete_versions file (v ∷ vs) rs)
remove_all limits now file false (v ∷ vs) rs = (
  true,
  update_many (λ r. r.file_id == file && not (is_some r.deleted_at))
      (λ r. record r { deleted_at = some now; updated_at = now }) rs,
)

unfoldable pub delete_file_metadata :
    Limits → Time → Ident → Bool → List FileRecord → Bool × List FileRecord
unfolding get_file_versions delete_versions
delete_file_metadata limits now file hard rs =
    remove_all limits now file hard (get_file_versions limits file hard rs) rs
