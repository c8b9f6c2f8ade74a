-- ===== src/Files/Uploading.antt =====
-- An upload (`FileService.upload_stream`, app/services/file/file_service.py) writes only its
-- user's files.
use fast_api_boiler_plate.Base.{
  ℕ, ◌≡◌, refl, Bool, true, false, not, ◌||◌, Option, none, some, List, Ident, Time, Str, arith,
  ltb, ◌==◌, All, inl, inr, Option-cases, ap, ◌∙◌, sym, length, ◌⊎◌,
}
use fast_api_boiler_plate.Files.{
  FileRecord, Limits, Stored, Files, save_stream, metered, generate_storage_path,
}
use fast_api_boiler_plate.Files.Owners.{IsOwned, KeepsRecords, KeepsStored, keeps-create}
use fast_api_boiler_plate.Files.Service.{
  Refusal, not_found, Upload, check_quota, get_owned, next_version, upload_target, duplicate,
  record_upload, store_upload, uploaded_record, save_upload, write_target, upload_stream,
}
use fast_api_boiler_plate.Files.Kept.{
  Keeps, Keeps-same, Keeps-if, found-owner, keeps-dropped, keeps-save_stream,
}

module _ (owner : Ident → Ident) (user : Ident) where
  -- ---- uploads
  Keeps-record_upload :
      (limits : Limits) (now : Time) (r : FileRecord) (bytes : Str) (f : Files) (stored : Stored)
      → IsOwned owner r
      → r.user_id ≡ user
      → All (IsOwned owner) f.records
      → KeepsStored user f.stored stored
      → Keeps owner user f (record_upload limits now r bytes (record f { stored = stored })).1
  unfolding record_upload
  Keeps-record_upload limits now r bytes f stored mine same h s =
      let dropped = keeps-dropped owner user r.storage_path f.stored stored (mine.1 ∙ same) s in
      let unsaved : KeepsRecords owner user f.records f.records = (h, refl) in
      Keeps-if owner user f (length bytes == 0) _ _ (unsaved, dropped)
        (Keeps-if owner user f (not (check_quota limits r.user_id (length bytes) f.records)) _ _
          (unsaved, dropped)
          (elim (Option-cases (duplicate limits r.user_id r.version bytes f.records)) [
            | inl e ↦ rw e (keeps-create owner user now r f.records mine same h, s)
            | inr (twin, e) ↦ rw e (unsaved, dropped)
          ]))

  Keeps-store_upload :
      (limits : Limits) (now : Time) (r : FileRecord) (bytes : Str) (f : Files)
      (saved : Bool × Stored)
      → IsOwned owner r
      → r.user_id ≡ user
      → All (IsOwned owner) f.records
      → KeepsStored user f.stored saved.1
      → Keeps owner user f (store_upload limits now r bytes f saved).1
  Keeps-store_upload limits now r bytes f (false, stored) mine same h s = Keeps-same owner user f h
  Keeps-store_upload limits now r bytes f (true, stored) mine same h s =
      Keeps-record_upload limits now r bytes f stored mine same h s

  Keeps-save_upload :
      (limits : Limits) (now : Time) (u : Upload) (file : Ident) (version : ℕ) (f : Files)
      → owner file ≡ user
      → All (IsOwned owner) f.records
      → Keeps owner user f (save_upload limits now user u file version f).1
  unfolding save_upload generate_storage_path
  Keeps-save_upload limits now u file version f mine h =
      Keeps-if owner user f (not (check_quota limits user 0 f.records)) _ _
        (Keeps-same owner user f h)
        (elim (Option-cases (metered limits.max_file_size 0 u.chunks)) [
          | inl e ↦ rw e (Keeps-same owner user f h)
          | inr (bytes, e) ↦
              let r = uploaded_record limits now user u file version bytes in
              rw e (
                Keeps-store_upload limits now r bytes f (save_stream r.storage_path bytes f.stored)
                  (sym mine, refl) refl h
                  (keeps-save_stream owner user r.storage_path bytes f.stored refl))
        ])

  next_version-file :
      (limits : Limits) (asked : Ident) (latest : FileRecord) {file : Ident} {version : ℕ}
      → next_version limits asked (some latest) ≡ inr (file, version)
      → asked ≡ file
  next_version-file limits asked latest e = ground arith

  target-owner :
      (limits : Limits) (new : Ident) (asked : Option Ident) (rs : List FileRecord) {file : Ident}
      {version : ℕ}
      → owner new ≡ user
      → All (IsOwned owner) rs
      → upload_target limits user new asked rs ≡ inr (file, version)
      → owner file ≡ user
  unfolding upload_target get_owned
  target-owner limits new none rs {file} {version} fresh h e =
      let same : new ≡ file = cc in ap owner (sym same) ∙ fresh
  target-owner limits new (some asked) rs {file} {version} fresh h e =
      elim (Option-cases (get_owned asked user none rs)) [
        | inl missing ↦
            absurd (
              let bad : inl not_found ≡ inr (file, version) = rw (upload_target, missing) at e in
              cc)
        | inr (latest, found) ↦
            let (_, _, mine) = found-owner owner user asked none false rs h found in
            let same : asked ≡ file =
              next_version-file limits asked latest (rw (upload_target, found) at e) in
            ap owner (sym same) ∙ mine
      ]

  Keeps-target :
      (limits : Limits) (now : Time) (u : Upload) (f : Files) (target : Refusal ⊎ (Ident × ℕ))
      → ((file : Ident) (version : ℕ) → target ≡ inr (file, version) → owner file ≡ user)
      → All (IsOwned owner) f.records
      → Keeps owner user f (write_target limits now user u f target).1
  Keeps-target limits now u f (inl refusal) mine h = Keeps-same owner user f h
  Keeps-target limits now u f (inr (file, version)) mine h =
      Keeps-save_upload limits now u file version f (mine file version refl) h

  pub Keeps-upload :
      (limits : Limits) (now : Time) (new : Ident) (u : Upload) (f : Files)
      → owner new ≡ user
      → All (IsOwned owner) f.records
      → Keeps owner user f (upload_stream limits now new user u f).1
  unfolding upload_stream
  Keeps-upload limits now new u f fresh h =
      Keeps-if owner user f (length u.filename == 0 || ltb limits.max_filename (length u.filename))
        _ _ (Keeps-same owner user f h)
        (Keeps-if owner user f (not u.accepted) _ _ (Keeps-same owner user f h) (
          Keeps-target limits now u f (upload_target limits user new u.file_id f.records)
            (λ file version e. target-owner limits new u.file_id f.records fresh h e) h))
