-- ===== src/Files/Tests.antt =====
-- Two users' files, and the theorems of app/services/file/file_service.py on them.
use fast_api_boiler_plate.Base.{
  ℕ, ◌+◌, ◌≤◌, ◌≡◌, refl, true, false, not, ◌&&◌, none, some, [], ◌∷◌, Ident, Str, str_eq, arith,
  leb, ◌==◌, All, select, length, if◌then◌else◌,
}
use fast_api_boiler_plate.Files.{
  StoragePath, FileRecord, Limits, Files, read, generate_storage_path, metered, save_stream,
  safe_filename, get_file_by_id, newest, user_storage_bytes, same_path,
}
use fast_api_boiler_plate.Files.Owners.{IsOwned}
use fast_api_boiler_plate.Files.Service.{
  Upload, upload, serve, upload_stream, created, upload_target, save_upload, record_upload,
  check_quota, get_owned, check_version_limit,
}
use fast_api_boiler_plate.Sessions.{find_unpaged}
use fast_api_boiler_plate.Files.Isolation.{serve-Keeps}
use fast_api_boiler_plate.Files.Quota.{usage, upload_stream-Within}

abbrev checksum : Str → Ident
checksum [] = 0
checksum (c ∷ s) = c + checksum s

abbrev limits : Limits
limits = record {
  max_file_size = 6;
  user_quota = 8;
  max_versions = 3;
  max_filename = 255;
  versioning_enabled = true;
  deduplication_enabled = true;
  cap = 100;
  is_alnum = λ c. leb b'a' c && leb c b'z';
  sha256 = checksum;
}

-- Ids up to 10 were drawn for user 1, the others for user 2.
abbrev drawn_for : Ident → Ident
drawn_for n = if leb n 10 then 1 else 2

abbrev file : Ident → Ident → ℕ → Str → FileRecord
file user id version bytes = record {
  file_id = id;
  user_id = user;
  filename = b'a' ∷ [];
  size = length bytes;
  hash = checksum bytes;
  version = version;
  storage_path = generate_storage_path limits user id version (b'a' ∷ []);
  info = 0;
  is_latest = true;
  created_at = 0;
  updated_at = 0;
  deleted_at = none;
}

abbrev ours : Str
ours = 7 ∷ 8 ∷ 9 ∷ []

abbrev theirs : Str
theirs = 1 ∷ 2 ∷ []

abbrev files : Files
files = record {
  records = file 1 5 1 ours ∷ file 2 11 1 theirs ∷ [];
  stored =
      ((file 1 5 1 ours).storage_path, ours) ∷ ((file 2 11 1 theirs).storage_path, theirs) ∷ [];
}

abbrev more : Upload
more = record {
  filename = b'a' ∷ b' ' ∷ b'/' ∷ b'b' ∷ [];
  accepted = true;
  chunks = (4 ∷ 5 ∷ []) ∷ (6 ∷ []) ∷ [];
  info = 3;
  file_id = some 5;
}

-- A second version of the file is made, under a name without the separator.
second_version :
    (upload_stream limits 100 6 1 more files).0
    ≡ created (record (file 1 5 2 (4 ∷ 5 ∷ 6 ∷ [])) {
      filename = more.filename;
      storage_path = record {
        user_id = 1;
        file_id = 5;
        version = 2;
        name = b'a' ∷ b'_' ∷ b'b' ∷ [];
      };
      info = 3;
      created_at = 100;
      updated_at = 100;
    })
unfolding upload_stream upload_target save_upload record_upload check_quota metered save_stream
    generate_storage_path safe_filename get_owned check_version_limit get_file_by_id newest
    user_storage_bytes find_unpaged read same_path str_eq
second_version = refl

serve-Keeps_example :
    let g = serve limits 100 1 (upload 6 more) files in
    All (IsOwned drawn_for) g.records
    × (select (λ r. not (r.user_id == 1)) g.records
        ≡ select (λ r. not (r.user_id == 1)) files.records)
    × ((p : StoragePath) → (p.user_id == 1) ≡ false → read p g.stored ≡ read p files.stored)
unfolding generate_storage_path
serve-Keeps_example =
    serve-Keeps drawn_for 1 limits 100 (upload 6 more) files refl ((refl, refl), ((refl, refl), tt))

upload_stream-Within_example :
    usage 1 (upload_stream limits 100 6 1 more files).1.records ≤ limits.user_quota
upload_stream-Within_example =
    upload_stream-Within limits 100 1 refl 6 more files (ground arith) (ground arith)
