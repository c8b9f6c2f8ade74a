-- ===== src/Files/Isolation.antt =====
-- No request of a user touches another user's files (app/services/file/file_service.py).
use fast_api_boiler_plate.Base.{
  ℕ, ◌+◌, ◌≡◌, refl, Bool, true, false, not, ◌&&◌, Option, none, some, List, if◌then◌else◌, Ident,
  Time, Str, arith, ltb, ◌==◌, All, select, inl, inr, Option-cases, ◌∙◌, sym, length,
}
use fast_api_boiler_plate.Store.Elsewhere.{All-select_to}
use fast_api_boiler_plate.Files.{
  StoragePath, FileRecord, Limits, Stored, Files, read, delete, save_stream, is_live, is_version_of,
  get_file_by_id, get_file_versions, generate_storage_path,
}
use fast_api_boiler_plate.Files.Owners.{
  IsOwned, KeepsStored, keeps-create, keeps-update, keeps-delete, All-get_file_versions,
}
use fast_api_boiler_plate.Files.Service.{
  Changes, Request, upload, update, remove, edit, serve, check_quota, check_version_limit, if_owner,
  get_owned, set_filename, set_info, apply_changes, update_file_metadata, delete_paths, delete_file,
  modified, record_edit, edit_copy, modify_as_new_version,
}
use fast_api_boiler_plate.Files.Kept.{
  Keeps, Keeps-same, Keeps-if, found-owner, keeps-dropped, keeps-put, keeps-delete_paths,
  keeps-save_stream,
}
use fast_api_boiler_plate.Files.Uploading.{Keeps-upload}

module _ (owner : Ident → Ident) (user : Ident) where
  flat :
      (f g : Files)
      → Keeps owner user f g
      → All (IsOwned owner) g.records
        × (select (λ r. not (r.user_id == user)) g.records
            ≡ select (λ r. not (r.user_id == user)) f.records)
        × ((p : StoragePath) → (p.user_id == user) ≡ false → read p g.stored ≡ read p f.stored)
  flat f g k = (k.0.0, k.0.1, k.1)

  -- ---- changes and deletions
  abbrev SameOwner : FileRecord → FileRecord → Type 0
  SameOwner r r' = (IsOwned owner r → IsOwned owner r') × (r'.user_id ≡ r.user_id)

  named-SameOwner : (o : Option Str) (r : FileRecord) → SameOwner r (set_filename o r)
  named-SameOwner none r = (λ k. k, refl)
  named-SameOwner (some name) r = (λ k. k, refl)

  informed-SameOwner : (o : Option ℕ) (r : FileRecord) → SameOwner r (set_info o r)
  informed-SameOwner none r = (λ k. k, refl)
  informed-SameOwner (some n) r = (λ k. k, refl)

  keeps-changes :
      (now : Time) (c : Changes) (r : FileRecord)
      → IsOwned owner r
      → IsOwned owner (apply_changes now c r) × ((apply_changes now c r).user_id ≡ r.user_id)
  keeps-changes now c r h =
      let (owned, same) = named-SameOwner c.filename r in
      let (owned', same') = informed-SameOwner c.info (set_filename c.filename r) in
      (owned' (owned h), same' ∙ same)

  Keeps-update_file :
      (now : Time) (file : Ident) (c : Changes) (f : Files)
      → All (IsOwned owner) f.records
      → Keeps owner user f (update_file_metadata now file user c f).1
  unfolding update_file_metadata get_owned
  Keeps-update_file now file c f h = elim (Option-cases (get_owned file user none f.records)) [
    | inl e ↦ rw (update_file_metadata, e) (Keeps-same owner user f h)
    | inr (latest, e) ↦
        let (_, _, mine) = found-owner owner user file none false f.records h e in
        rw (update_file_metadata, e)
          (
            keeps-update owner user file (apply_changes now c) f.records mine (keeps-changes now c)
                h,
            λ p t. refl,
          )
  ]

  version_paths :
      (limits : Limits) (file : Ident) (rs : List FileRecord)
      → owner file ≡ user
      → All (IsOwned owner) rs
      → All (λ v. v.storage_path.user_id ≡ user) (get_file_versions limits file true rs)
  version_paths limits file rs mine h =
      All-get_file_versions (λ v. v.storage_path.user_id ≡ user) limits file true rs
        (All-select_to (λ r. is_version_of file r && is_live true r) rs (λ r k t. ground arith) h)

  stored-keeps :
      (limits : Limits) (file : Ident) (hard : Bool) (f : Files)
      → owner file ≡ user
      → All (IsOwned owner) f.records
      → KeepsStored user f.stored (
          if hard
          then delete_paths (get_file_versions limits file true f.records) f.stored
          else f.stored)
  stored-keeps limits file false f mine h = λ p t. refl
  stored-keeps limits file true f mine h =
      keeps-delete_paths owner user (get_file_versions limits file true f.records) f.stored f.stored
        (version_paths limits file f.records mine h) (λ p t. refl)

  Keeps-delete_file :
      (limits : Limits) (now : Time) (file : Ident) (hard : Bool) (f : Files)
      → All (IsOwned owner) f.records
      → Keeps owner user f (delete_file limits now file user hard f).1
  unfolding delete_file
  Keeps-delete_file limits now file hard f h =
      elim (Option-cases (if_owner user (get_file_by_id file none hard f.records))) [
        | inl e ↦ rw (delete_file, e) (Keeps-same owner user f h)
        | inr (latest, e) ↦
            let (_, _, mine) = found-owner owner user file none hard f.records h e in
            rw (delete_file, e)
              (
                keeps-delete owner user limits now file hard f.records mine h,
                stored-keeps limits file hard f mine h,
              )
      ]

  -- ---- edits
  Keeps-record_edit :
      (limits : Limits) (now : Time) (latest : FileRecord) (path : StoragePath)
      (edited : Option Str) (f : Files) (stored : Stored)
      → IsOwned owner latest
      → latest.user_id ≡ user
      → path.user_id ≡ user
      → All (IsOwned owner) f.records
      → KeepsStored user f.stored stored
      → Keeps owner user f (record_edit limits now latest path edited f stored).1
  Keeps-record_edit limits now latest path none f stored mine same own h s =
      ((h, refl), keeps-dropped owner user path f.stored stored own s)
  Keeps-record_edit limits now latest path (some bytes) f stored mine same own h s =
      let dropped = keeps-dropped owner user path f.stored stored own s in
      Keeps-if owner user f (ltb limits.max_file_size (length bytes)) _ _ ((h, refl), dropped)
        (Keeps-if owner user f (length bytes == 0) _ _ ((h, refl), dropped)
          (
            keeps-create owner user now (modified limits latest path bytes) f.records
                (mine.0, own ∙ sym same) same h,
            keeps-put owner user path bytes f.stored (delete path stored) own dropped,
          ))

  Keeps-edit_copy :
      (limits : Limits) (now : Time) (latest : FileRecord) (path : StoragePath)
      (edited : Option Str) (f : Files) (saved : Bool × Stored)
      → IsOwned owner latest
      → latest.user_id ≡ user
      → path.user_id ≡ user
      → All (IsOwned owner) f.records
      → KeepsStored user f.stored saved.1
      → Keeps owner user f (edit_copy limits now latest path edited f saved).1
  Keeps-edit_copy limits now latest path edited f (false, stored) mine same own h s =
      Keeps-same owner user f h
  Keeps-edit_copy limits now latest path edited f (true, stored) mine same own h s =
      Keeps-record_edit limits now latest path edited f stored mine same own h s

  Keeps-modify :
      (limits : Limits) (now : Time) (file : Ident) (mutate : Str → Option Str) (f : Files)
      → All (IsOwned owner) f.records
      → Keeps owner user f (modify_as_new_version limits now file user mutate f).1
  unfolding modify_as_new_version get_owned generate_storage_path
  Keeps-modify limits now file mutate f h =
      elim (Option-cases (get_owned file user none f.records)) [
        | inl e ↦ rw (modify_as_new_version, e) (Keeps-same owner user f h)
        | inr (latest, e) ↦
            let (there, same, mine) = found-owner owner user file none false f.records h e in
            rw (modify_as_new_version, e)
              (Keeps-if owner user f (not (check_version_limit limits latest)) _ _
                (Keeps-same owner user f h)
                (Keeps-if owner user f (not (check_quota limits user latest.size f.records)) _ _
                  (Keeps-same owner user f h)
                  (elim (Option-cases (read latest.storage_path f.stored)) [
                    | inl k ↦ rw k (Keeps-same owner user f h)
                    | inr (bytes, k) ↦
                        let path =
                          generate_storage_path limits user file (latest.version + 1)
                            latest.filename in
                        rw k (
                          Keeps-edit_copy limits now latest path (mutate bytes) f
                            (save_stream path bytes f.stored) there.0 same refl h
                            (keeps-save_stream owner user path bytes f.stored refl))
                  ])))
      ]

  -- The request of a user carries an id drawn for that user when it makes a file.
  abbrev pub IsFresh : Request → Type 0
  IsFresh (upload new u) = owner new ≡ user
  IsFresh (update file c) = Unit
  IsFresh (remove file hard) = Unit
  IsFresh (edit file mutate) = Unit

  -- No request of a user touches another user's files: whatever is uploaded, changed, edited or
  -- deleted, and for whichever file id, accepted or refused, the records of every other user are
  -- afterwards the same in the same order, every path of another user holds the same bytes, and
  -- every record still belongs to the user that its id was drawn for, as does the path of its
  -- bytes. The condition is that this held of the records before, and that the id that an upload
  -- draws for a new file is the user's.
  pub serve-Keeps :
      (limits : Limits) (now : Time) (request : Request) (f : Files)
      → IsFresh request
      → All (IsOwned owner) f.records
      → let g = serve limits now user request f in
        All (IsOwned owner) g.records
        × (select (λ r. not (r.user_id == user)) g.records
            ≡ select (λ r. not (r.user_id == user)) f.records)
        × ((p : StoragePath) → (p.user_id == user) ≡ false → read p g.stored ≡ read p f.stored)
  unfolding serve
  serve-Keeps limits now (upload new u) f fresh h =
      flat f _ (Keeps-upload owner user limits now new u f fresh h)
  serve-Keeps limits now (update file c) f fresh h = flat f _ (Keeps-update_file now file c f h)
  serve-Keeps limits now (remove file hard) f fresh h =
      flat f _ (Keeps-delete_file limits now file hard f h)
  serve-Keeps limits now (edit file mutate) f fresh h =
      flat f _ (Keeps-modify limits now file mutate f h)
