-- ===== src/Files/Quota.antt =====
-- The storage quota of a user holds across uploads (app/services/file/file_service.py,
-- `_check_quota` and `upload_stream`).
use fast_api_boiler_plate.Base.{
  ℕ, zero, suc, ◌+◌, ◌≤◌, ◌≡◌, refl, Bool, true, false, ◌||◌, none, List, [], ◌∷◌, ◌++◌, Ident,
  Time, Str, arith, ltb, ◌==◌, select, inl, inr, Bool-cases, Option-cases, length, ◌⊎◌, take, subst,
  ap, ◌∙◌,
}
use fast_api_boiler_plate.Store.{update_many}
use fast_api_boiler_plate.Sessions.{find_unpaged}
use fast_api_boiler_plate.Files.{
  FileRecord, Limits, Stored, Files, save_stream, metered, total_size, user_storage_bytes,
  is_superseded, demote, create_file_metadata,
}
use fast_api_boiler_plate.Files.Service.{
  Refusal, Upload, check_quota, upload_target, duplicate, record_upload, store_upload,
  uploaded_record, save_upload, write_target, upload_stream,
}

abbrev pub of_user : Ident → FileRecord → Bool
of_user user r = r.user_id == user

-- What a user stores, in bytes, counting every version.
abbrev pub usage : Ident → List FileRecord → ℕ
usage user rs = total_size (select (of_user user) rs)

take-all {ℓ} : {A : Type ℓ} (n : ℕ) (xs : List A) → length xs ≤ n → take n xs ≡ xs
take-all zero [] h = refl
take-all zero (x ∷ xs) h = absurd (ground arith)
take-all (suc n) [] h = refl
take-all (suc n) (x ∷ xs) h = rw (take-all n xs (ground arith)) refl

usage-demote :
    (user : Ident) (filters : FileRecord → Bool) (rs : List FileRecord)
    → usage user (update_many filters demote rs) ≡ usage user rs
unfolding update_many
usage-demote user filters [] = refl
usage-demote user filters (r ∷ rs) = ground (arith, usage-demote user filters rs)

usage-append :
    (user : Ident) (rs : List FileRecord) (r : FileRecord)
    → r.user_id ≡ user
    → usage user (rs ++ r ∷ []) ≡ usage user rs + r.size
usage-append user [] r h = ground arith
usage-append user (x ∷ rs) r h = ground (arith, usage-append user rs r h)

usage-create :
    (now : Time) (r : FileRecord) (rs : List FileRecord)
    → usage r.user_id (create_file_metadata now r rs) ≡ usage r.user_id rs + r.size
unfolding create_file_metadata
usage-create now r rs =
    let new : FileRecord = record r {
      is_latest = true;
      created_at = now;
      updated_at = now;
      deleted_at = none;
    } in
    usage-demote r.user_id (is_superseded r.file_id r.version) (rs ++ new ∷ [])
    ∙ usage-append r.user_id rs new refl

module _ (limits : Limits) (now : Time) (user : Ident)
    (limited : (limits.user_quota == 0) ≡ false) where
  checked :
      (incoming : ℕ) (rs : List FileRecord)
      → length (select (of_user user) rs) ≤ limits.cap
      → check_quota limits user incoming rs ≡ true
      → usage user rs + incoming ≤ limits.user_quota
  unfolding check_quota user_storage_bytes find_unpaged
  checked incoming rs few ok =
      let all = take-all limits.cap (select (of_user user) rs) few in
      let measured : user_storage_bytes limits user rs ≡ usage user rs = ap total_size all in
      ground arith

  abbrev Within : List FileRecord → Type 0
  Within rs = usage user rs ≤ limits.user_quota

  Within-record_upload :
      (r : FileRecord) (bytes : Str) (f : Files)
      → r.user_id ≡ user
      → r.size ≡ length bytes
      → length (select (of_user user) f.records) ≤ limits.cap
      → Within f.records
      → Within (record_upload limits now r bytes f).1.records
  unfolding record_upload
  Within-record_upload r bytes f mine size few h = elim (Bool-cases (length bytes == 0)) [
    | inl empty ↦ rw (record_upload, empty) h
    | inr full ↦ elim (Bool-cases (check_quota limits r.user_id (length bytes) f.records)) [
      | inr over ↦ rw (record_upload, full, over) h
      | inl ok ↦ elim (Option-cases (duplicate limits r.user_id r.version bytes f.records)) [
        | inr (twin, e) ↦ rw (record_upload, full, ok, e) h
        | inl e ↦
            let fits =
              checked (length bytes) f.records few
                (subst (λ u. check_quota limits u (length bytes) f.records ≡ true) mine ok) in
            let grown : usage user (create_file_metadata now r f.records)
                ≡ usage user f.records + r.size =
              subst
                (λ u. usage u (create_file_metadata now r f.records) ≡ usage u f.records + r.size)
                mine (usage-create now r f.records) in
            rw (record_upload, full, ok, e)
              (let out : usage user (create_file_metadata now r f.records) ≤ limits.user_quota =
                  ground arith in
                out)
      ]
    ]
  ]

  Within-store_upload :
      (r : FileRecord) (bytes : Str) (f : Files) (saved : Bool × Stored)
      → r.user_id ≡ user
      → r.size ≡ length bytes
      → length (select (of_user user) f.records) ≤ limits.cap
      → Within f.records
      → Within (store_upload limits now r bytes f saved).1.records
  Within-store_upload r bytes f (false, stored) mine size few h = h
  Within-store_upload r bytes f (true, stored) mine size few h =
      Within-record_upload r bytes (record f { stored = stored }) mine size few h

  Within-save_upload :
      (u : Upload) (file : Ident) (version : ℕ) (f : Files)
      → length (select (of_user user) f.records) ≤ limits.cap
      → Within f.records
      → Within (save_upload limits now user u file version f).1.records
  unfolding save_upload
  Within-save_upload u file version f few h =
      elim (Bool-cases (check_quota limits user 0 f.records)) [
        | inr over ↦ rw (save_upload, over) h
        | inl ok ↦ elim (Option-cases (metered limits.max_file_size 0 u.chunks)) [
          | inl e ↦ rw (save_upload, ok, e) h
          | inr (bytes, e) ↦
              let r = uploaded_record limits now user u file version bytes in
              rw (save_upload, ok, e)
                (Within-store_upload r bytes f (save_stream r.storage_path bytes f.stored) refl refl
                  few h)
        ]
      ]

  Within-write_target :
      (u : Upload) (f : Files) (target : Refusal ⊎ (Ident × ℕ))
      → length (select (of_user user) f.records) ≤ limits.cap
      → Within f.records
      → Within (write_target limits now user u f target).1.records
  Within-write_target u f (inl refusal) few h = h
  Within-write_target u f (inr (file, version)) few h = Within-save_upload u file version f few h

  -- Uploads stay within the quota. For a user with a quota who is within it, and who has at most as
  -- many file records as one database call returns, the sizes of all the user's records, every
  -- version counted, are within the quota after an upload too, whether it is refused, handed an
  -- existing file, or makes a file or a version.
  pub upload_stream-Within :
      (new : Ident) (u : Upload) (f : Files)
      → length (select (of_user user) f.records) ≤ limits.cap
      → usage user f.records ≤ limits.user_quota
      → usage user (upload_stream limits now new user u f).1.records ≤ limits.user_quota
  unfolding upload_stream
  upload_stream-Within new u f few h =
      elim (Bool-cases (length u.filename == 0 || ltb limits.max_filename (length u.filename))) [
        | inl bad ↦ rw (upload_stream, bad) h
        | inr good ↦ elim (Bool-cases u.accepted) [
          | inr bad ↦ rw (upload_stream, good, bad) h
          | inl ok ↦
              rw (upload_stream, good, ok)
                (Within-write_target u f (upload_target limits user new u.file_id f.records) few h)
        ]
      ]
