-- ===== src/Files/Kept.antt =====
-- What a request of FileService (app/services/file/file_service.py) keeps of the others' files.
use fast_api_boiler_plate.Base.{
  subst, ℕ, ◌≡◌, refl, Bool, true, false, ◌&&◌, Option, none, some, List, [], ◌∷◌, if◌then◌else◌,
  Ident, Str, arith, ◌==◌, All, select, inl, inr, Bool-cases, Option-cases, some_inj, ◌∙◌, is_some,
}
use fast_api_boiler_plate.Store.Elsewhere.{All-select_to}
use fast_api_boiler_plate.Files.{
  StoragePath, FileRecord, Stored, Files, read, delete, save_stream, is_live, is_version_of,
  is_asked, get_file_by_id,
}
use fast_api_boiler_plate.Files.Owners.{
  IsOwned, KeepsRecords, KeepsStored, read-delete_other, read-save_other, newest-All,
}
use fast_api_boiler_plate.Files.Service.{if_owner, delete_paths}

module _ (owner : Ident → Ident) (user : Ident) where
  -- Owned records, and nothing of the others has changed.
  abbrev pub Keeps : Files → Files → Type 0
  Keeps f g = KeepsRecords owner user f.records g.records × KeepsStored user f.stored g.stored

  pub Keeps-same : (f : Files) → All (IsOwned owner) f.records → Keeps f f
  Keeps-same f h = ((h, refl), λ p k. refl)

  pub Keeps-if {ℓ} :
      {R : Type ℓ} (f : Files) (b : Bool) (x y : R × Files)
      → Keeps f x.1
      → Keeps f y.1
      → Keeps f (if b then x else y).1
  Keeps-if f true x y h k = h
  Keeps-if f false x y h k = k

  matched :
      (file : Ident) (version : Option ℕ) (include_deleted : Bool) (rs : List FileRecord)
      → All (IsOwned owner) rs
      → All
          (λ r. IsOwned owner r × (r.file_id ≡ file))
          (select (λ r. is_version_of file r && is_asked version r && is_live include_deleted r) rs)
  matched file version include_deleted rs h =
      All-select_to (λ r. is_version_of file r && is_asked version r && is_live include_deleted r)
        rs (λ r k t. (k, ground arith)) h

  -- A file that the owner's test lets through was drawn for the user.
  pub found-owner :
      (file : Ident) (version : Option ℕ) (include_deleted : Bool) (rs : List FileRecord)
      {r : FileRecord}
      → All (IsOwned owner) rs
      → if_owner user (get_file_by_id file version include_deleted rs) ≡ some r
      → (IsOwned owner r × (r.file_id ≡ file)) × (r.user_id ≡ user) × (owner file ≡ user)
  unfolding get_file_by_id
  found-owner file version include_deleted rs {r} h e =
      elim (Option-cases (get_file_by_id file version include_deleted rs)) [
        | inl missing ↦ absurd (let bad : none ≡ some r = rw missing at e in cc)
        | inr (t, found) ↦
            let here =
              newest-All (λ r. IsOwned owner r × (r.file_id ≡ file))
                (λ r. is_version_of file r && is_asked version r && is_live include_deleted r) rs
                (matched file version include_deleted rs h) found in
            elim (Bool-cases (t.user_id == user)) [
              | inl mine ↦
                  let same : t ≡ r = some_inj (rw (found, mine) at e) in
                  subst
                    (λ r.
                      (IsOwned owner r × (r.file_id ≡ file))
                      × (r.user_id ≡ user)
                      × (owner file ≡ user))
                    same (here, ground arith, ground arith)
              | inr other ↦ absurd (let bad : none ≡ some r = rw (found, other) at e in cc)
            ]
      ]

  -- Bytes are dropped, or put, under a path of the user's.
  pub keeps-dropped :
      (path : StoragePath) (d d' : Stored)
      → path.user_id ≡ user
      → KeepsStored user d d'
      → KeepsStored user d (delete path d')
  keeps-dropped path d d' mine s p t = read-delete_other p path d' (ground arith) ∙ s p t

  pub keeps-put :
      (path : StoragePath) (bytes : Str) (d d' : Stored)
      → path.user_id ≡ user
      → KeepsStored user d d'
      → KeepsStored user d ((path, bytes) ∷ d')
  keeps-put path bytes d d' mine s p t = read-save_other p path bytes d' (ground arith) ∙ s p t

  pub keeps-delete_paths :
      (vs : List FileRecord) (d d' : Stored)
      → All (λ v. v.storage_path.user_id ≡ user) vs
      → KeepsStored user d d'
      → KeepsStored user d (delete_paths vs d')
  keeps-delete_paths [] d d' h s = s
  keeps-delete_paths (v ∷ vs) d d' h s =
      keeps-delete_paths vs d (delete v.storage_path d') h.1
        (keeps-dropped v.storage_path d d' h.0 s)

  pub keeps-save_stream :
      (path : StoragePath) (bytes : Str) (d : Stored)
      → path.user_id ≡ user
      → KeepsStored user d (save_stream path bytes d).1
  unfolding save_stream
  keeps-save_stream path bytes d mine = elim (Bool-cases (is_some (read path d))) [
    | inl e ↦ rw (save_stream, e) (λ p t. refl)
    | inr e ↦ rw (save_stream, e) (keeps-put path bytes d d mine (λ p t. refl))
  ]
