-- ===== src/Files/Service.antt =====
-- The operations of FileService (app/services/file/file_service.py) on the records and the stored
-- bytes. A request is run to its end before the next one.
use fast_api_boiler_plate.Base.{
  ℕ, ◌+◌, Bool, true, false, not, ◌&&◌, ◌||◌, Option, none, some, List, [], ◌∷◌, if◌then◌else◌,
  Ident, Time, Str, ltb, leb, ◌==◌, length, ◌⊎◌, inl, inr,
}
use fast_api_boiler_plate.Files.{
  StoragePath, FileRecord, Limits, Stored, Files, generate_storage_path, metered, read, delete,
  save_stream, get_file_by_id, get_file_versions, user_storage_bytes, get_file_by_hash,
  create_file_metadata, update_newest, delete_file_metadata,
}

-- The `ValueError`s of an upload, and the errors its stream raises.
pub data Refusal : Type 0 where
  bad_filename type_not_allowed not_found versioning_disabled too_many_versions over_quota too_large
        not_saved empty_file :
      Refusal

pub data Uploaded : Type 0 where
  refused : Refusal → Uploaded
  existing : FileRecord → Uploaded
  created : FileRecord → Uploaded

-- `_check_quota`: may the user store that much more?
unfoldable pub check_quota : Limits → Ident → ℕ → List FileRecord → Bool
check_quota limits user incoming rs =
    limits.user_quota == 0 || leb (user_storage_bytes limits user rs + incoming) limits.user_quota

unfoldable pub check_version_limit : Limits → FileRecord → Bool
check_version_limit limits latest = ltb latest.version limits.max_versions

abbrev pub if_owner : Ident → Option FileRecord → Option FileRecord
if_owner user none = none
if_owner user (some r) = if r.user_id == user then some r else none

unfoldable pub get_owned : Ident → Ident → Option ℕ → List FileRecord → Option FileRecord
unfolding get_file_by_id
get_owned file user version rs = if_owner user (get_file_by_id file version false rs)

-- What is asked of an upload: `accepted` is whether `_validate_file_type` accepts its content type.
pub record Upload : Type 0 where
  pub filename : Str
  pub accepted : Bool
  pub chunks : List Str
  pub info : ℕ
  pub file_id : Option Ident

-- The file and the version that an upload writes.
abbrev pub next_version : Limits → Ident → Option FileRecord → Refusal ⊎ (Ident × ℕ)
next_version limits file none = inl not_found
next_version limits file (some latest) =
    if not limits.versioning_enabled
    then inl versioning_disabled
    else if check_version_limit limits latest
    then inr (file, latest.version + 1)
    else inl too_many_versions

unfoldable pub upload_target :
    Limits → Ident → Ident → Option Ident → List FileRecord → Refusal ⊎ (Ident × ℕ)
unfolding check_version_limit
upload_target limits user new none rs = inr (new, 1)
upload_target limits user new (some file) rs =
    next_version limits file (get_owned file user none rs)

abbrev pub duplicate : Limits → Ident → ℕ → Str → List FileRecord → Option FileRecord
duplicate limits user version bytes rs =
    if limits.deduplication_enabled && version == 1
    then get_file_by_hash (limits.sha256 bytes) user rs
    else none

-- An upload whose bytes have been stored under a new path.
unfoldable pub record_upload : Limits → Time → FileRecord → Str → Files → Uploaded × Files
unfolding check_quota
record_upload limits now r bytes f =
    let unsaved : Files = record f { stored = delete r.storage_path f.stored } in
    if length bytes == 0
    then (refused empty_file, unsaved)
    else if not (check_quota limits r.user_id (length bytes) f.records)
    then (refused over_quota, unsaved)
    else elim (duplicate limits r.user_id r.version bytes f.records) [
      | some twin ↦ (existing twin, unsaved)
      | none ↦ (created r, record f { records = create_file_metadata now r f.records })
    ]

abbrev pub store_upload :
    Limits → Time → FileRecord → Str → Files → Bool × Stored → Uploaded × Files
store_upload limits now r bytes f (false, stored) = (refused not_saved, f)
store_upload limits now r bytes f (true, stored) =
    record_upload limits now r bytes (record f { stored = stored })

abbrev pub uploaded_record : Limits → Time → Ident → Upload → Ident → ℕ → Str → FileRecord
uploaded_record limits now user u file version bytes = record {
  file_id = file;
  user_id = user;
  filename = u.filename;
  size = length bytes;
  hash = limits.sha256 bytes;
  version = version;
  storage_path = generate_storage_path limits user file version u.filename;
  info = u.info;
  is_latest = true;
  created_at = now;
  updated_at = now;
  deleted_at = none;
}

unfoldable pub save_upload : Limits → Time → Ident → Upload → Ident → ℕ → Files → Uploaded × Files
unfolding check_quota metered save_stream
save_upload limits now user u file version f =
    if not (check_quota limits user 0 f.records)
    then (refused over_quota, f)
    else elim (metered limits.max_file_size 0 u.chunks) [
      | none ↦ (refused too_large, f)
      | some bytes ↦
          let r = uploaded_record limits now user u file version bytes in
          store_upload limits now r bytes f (save_stream r.storage_path bytes f.stored)
    ]

abbrev pub write_target :
    Limits → Time → Ident → Upload → Files → Refusal ⊎ (Ident × ℕ) → Uploaded × Files
write_target limits now user u f (inl refusal) = (refused refusal, f)
write_target limits now user u f (inr (file, version)) =
    save_upload limits now user u file version f

unfoldable pub upload_stream : Limits → Time → Ident → Ident → Upload → Files → Uploaded × Files
unfolding upload_target save_upload
upload_stream limits now new user u f =
    if length u.filename == 0 || ltb limits.max_filename (length u.filename)
    then (refused bad_filename, f)
    else if not u.accepted
    then (refused type_not_allowed, f)
    else write_target limits now user u f (upload_target limits user new u.file_id f.records)

-- `update_file_metadata`: `change` sets the name, the tags and the metadata that are given.
pub record Changes : Type 0 where
  pub filename : Option Str
  pub info : Option ℕ

abbrev pub set_filename : Option Str → FileRecord → FileRecord
set_filename none r = r
set_filename (some name) r = record r { filename = name }

abbrev pub set_info : Option ℕ → FileRecord → FileRecord
set_info none r = r
set_info (some n) r = record r { info = n }

abbrev pub apply_changes : Time → Changes → FileRecord → FileRecord
apply_changes now c r = record (set_info c.info (set_filename c.filename r)) { updated_at = now }

unfoldable pub update_file_metadata :
    Time → Ident → Ident → Changes → Files → Option FileRecord × Files
unfolding get_owned update_newest
update_file_metadata now file user c f = elim (get_owned file user none f.records) [
  | none ↦ (none, f)
  | some latest ↦
      let rs = (update_newest file (apply_changes now c) f.records).1 in
      (get_file_by_id file none false rs, record f { records = rs })
]

-- `delete_file`: a hard deletion also drops the bytes of every version.
abbrev pub delete_paths : List FileRecord → Stored → Stored
delete_paths [] d = d
delete_paths (v ∷ vs) d = delete_paths vs (delete v.storage_path d)

unfoldable pub delete_file : Limits → Time → Ident → Ident → Bool → Files → Bool × Files
unfolding get_file_by_id get_file_versions delete delete_file_metadata
delete_file limits now file user hard f =
    elim (if_owner user (get_file_by_id file none hard f.records)) [
      | none ↦ (false, f)
      | some latest ↦
          let found = delete_file_metadata limits now file hard f.records in
          let versions = get_file_versions limits file true f.records in
          (
            found.0,
            record {
              records = found.1;
              stored = if hard then delete_paths versions f.stored else f.stored;
            },
          )
    ]

-- `get_file_versions` of the service: only the owner sees them.
abbrev pub own_versions : Ident → List FileRecord → List FileRecord
own_versions user [] = []
own_versions user (v ∷ vs) = if v.user_id == user then v ∷ vs else []

unfoldable pub owned_versions : Limits → Ident → Ident → List FileRecord → List FileRecord
unfolding get_file_versions
owned_versions limits file user rs = own_versions user (get_file_versions limits file false rs)

-- `modify_as_new_version`: `mutate` edits the copied bytes, or reports failure.
abbrev pub modified : Limits → FileRecord → StoragePath → Str → FileRecord
modified limits latest path bytes = record latest {
  version = latest.version + 1;
  storage_path = path;
  size = length bytes;
  hash = limits.sha256 bytes;
}

pub data Modified : Type 0 where
  over_limit : Refusal → Modified
  unmodified : Modified
  modified_to : FileRecord → Modified

abbrev pub record_edit :
    Limits → Time → FileRecord → StoragePath → Option Str → Files → Stored → Modified × Files
record_edit limits now latest path none f stored =
    (unmodified, record f { stored = delete path stored })
record_edit limits now latest path (some bytes) f stored =
    let dropped : Files = record f { stored = delete path stored } in
    if ltb limits.max_file_size (length bytes)
    then (over_limit too_large, dropped)
    else if length bytes == 0
    then (unmodified, dropped)
    else let r = modified limits latest path bytes in
      (
        modified_to r,
        record {
          records = create_file_metadata now r f.records;
          stored = (path, bytes) ∷ delete path stored;
        },
      )

abbrev pub edit_copy :
    Limits → Time → FileRecord → StoragePath → Option Str → Files → Bool × Stored → Modified × Files
edit_copy limits now latest path edited f (false, stored) = (unmodified, f)
edit_copy limits now latest path edited f (true, stored) =
    record_edit limits now latest path edited f stored

unfoldable pub modify_as_new_version :
    Limits → Time → Ident → Ident → (Str → Option Str) → Files → Modified × Files
unfolding get_owned check_version_limit check_quota delete
modify_as_new_version limits now file user mutate f = elim (get_owned file user none f.records) [
  | none ↦ (unmodified, f)
  | some latest ↦
      if not (check_version_limit limits latest)
      then (over_limit too_many_versions, f)
      else if not (check_quota limits user latest.size f.records)
      then (over_limit over_quota, f)
      else elim (read latest.storage_path f.stored) [
        | none ↦ (unmodified, f)
        | some bytes ↦
            let path =
              generate_storage_path limits user file (latest.version + 1) latest.filename in
            edit_copy limits now latest path (mutate bytes) f (save_stream path bytes f.stored)
      ]
]

-- The requests that change something, each with what the client sends.
pub data Request : Type 0 where
  upload : Ident → Upload → Request
  update : Ident → Changes → Request
  remove : Ident → Bool → Request
  edit : Ident → (Str → Option Str) → Request

unfoldable pub serve : Limits → Time → Ident → Request → Files → Files
unfolding upload_stream update_file_metadata delete_file modify_as_new_version
serve limits now user (upload new u) f = (upload_stream limits now new user u f).1
serve limits now user (update file c) f = (update_file_metadata now file user c f).1
serve limits now user (remove file hard) f = (delete_file limits now file user hard f).1
serve limits now user (edit file mutate) f = (modify_as_new_version limits now file user mutate f).1
