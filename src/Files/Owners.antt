-- ===== src/Files/Owners.antt =====
-- What the operations on file records and stored bytes (app/services/data/files_ops.py,
-- app/services/file/storage/local.py) leave of another user's files.
use fast_api_boiler_plate.Base.{
  subst, ◌≡◌, refl, Bool, true, false, not, ◌&&◌, Option, none, some, List, [], ◌∷◌, ◌++◌, Ident,
  Time, Str, arith, ltb, ◌==◌, All, All-append, All-take, select, inl, inr, Bool-cases,
  Option-cases, some_inj, ◌∙◌, is_some,
}
use fast_api_boiler_plate.Store.{delete_record}
use fast_api_boiler_plate.Store.Laws.{All-update_record, All-update_many, All-delete_record}
use fast_api_boiler_plate.Store.Elsewhere.{
  select-append_other, select-update_many_other, select-update_record_other,
  select-delete_record_other,
}
use fast_api_boiler_plate.Files.{
  StoragePath, same_path, FileRecord, Limits, Stored, read, delete, is_live, is_version_of, newer,
  newest, get_file_by_id, insert_version, newest_first, get_file_versions, is_superseded, demote,
  create_file_metadata, has_version, update_newest, delete_versions, remove_all,
  delete_file_metadata,
}

-- ---- stored bytes
same_path-other :
    (p q k : StoragePath)
    → (p.user_id == q.user_id) ≡ false
    → same_path q k ≡ true
    → same_path p k ≡ false
unfolding same_path
same_path-other p q k h e = ground arith

pub read-delete_other :
    (p q : StoragePath) (d : Stored)
    → (p.user_id == q.user_id) ≡ false
    → read p (delete q d) ≡ read p d
unfolding read delete
read-delete_other p q [] h = refl
read-delete_other p q ((k, bytes) ∷ d) h =
    let rest = read-delete_other p q d h in
    elim (Bool-cases (same_path q k)) [
      | inl e ↦ let other = same_path-other p q k h e in ground arith
      | inr e ↦ ground arith
    ]

same_path-user : (p q : StoragePath) → (p.user_id == q.user_id) ≡ false → same_path q p ≡ false
unfolding same_path
same_path-user p q h = ground arith

pub read-save_other :
    (p q : StoragePath) (bytes : Str) (d : Stored)
    → (p.user_id == q.user_id) ≡ false
    → read p ((q, bytes) ∷ d) ≡ read p d
unfolding read
read-save_other p q bytes d h = rw (read, same_path-user p q h) refl

-- ---- the newest version and the list of versions are records
module _ {κ} (P : FileRecord → Type κ) where
  newer-either :
      (r : FileRecord) (o : Option FileRecord)
      → P r
      → ((t : FileRecord) → o ≡ some t → P t)
      → P (newer r o)
  newer-either r none h k = h
  newer-either r (some t) h k = elim (Bool-cases (ltb r.version t.version)) [
    | inl e ↦ rw e (k t refl)
    | inr e ↦ rw e h
  ]

  pub newest-All :
      (filters : FileRecord → Bool) (rs : List FileRecord) {r : FileRecord}
      → All P (select filters rs)
      → newest filters rs ≡ some r
      → P r
  unfolding newest
  newest-All filters [] h e = cc
  newest-All filters (x ∷ rs) {r} h e = elim (Bool-cases (filters x)) [
    | inl t ↦
        let here : P x × All P (select filters rs) = rw t at h in
        subst P (some_inj (rw (newest, t) at e))
          (newer-either x (newest filters rs) here.0 (λ y k. newest-All filters rs here.1 k))
    | inr t ↦ newest-All filters rs (rw t at h) (rw (newest, t) at e)
  ]

  All-insert_version :
      (r : FileRecord) (rs : List FileRecord) → P r → All P rs → All P (insert_version r rs)
  All-insert_version r [] p h = (p, tt)
  All-insert_version r (t ∷ ts) p h = elim (Bool-cases (ltb r.version t.version)) [
    | inl e ↦ rw e (h.0, All-insert_version r ts p h.1)
    | inr e ↦ rw e (p, h)
  ]

  All-newest_first : (rs : List FileRecord) → All P rs → All P (newest_first rs)
  All-newest_first [] h = tt
  All-newest_first (r ∷ rs) h = All-insert_version r (newest_first rs) h.0 (All-newest_first rs h.1)

  pub All-get_file_versions :
      (limits : Limits) (file : Ident) (include_deleted : Bool) (rs : List FileRecord)
      → All P (select (λ r. is_version_of file r && is_live include_deleted r) rs)
      → All P (get_file_versions limits file include_deleted rs)
  unfolding get_file_versions
  All-get_file_versions limits file include_deleted rs h =
      All-take P limits.cap
        (newest_first (select (λ r. is_version_of file r && is_live include_deleted r) rs))
        (All-newest_first (select (λ r. is_version_of file r && is_live include_deleted r) rs) h)

-- What `d'` keeps of the others' bytes in `d`.
abbrev pub KeepsStored : Ident → Stored → Stored → Type 0
KeepsStored user d d' = (p : StoragePath) → (p.user_id == user) ≡ false → read p d' ≡ read p d

-- ---- records of the users that the ids were drawn for
module _ (owner : Ident → Ident) where
  -- A record belongs to the user its id was drawn for, and so does the path of its bytes.
  abbrev pub IsOwned : FileRecord → Type 0
  IsOwned r = (r.user_id ≡ owner r.file_id) × (r.storage_path.user_id ≡ r.user_id)

  -- The records `rs'` that came of `rs` are owned, and have the same records of the others.
  abbrev pub KeepsRecords : Ident → List FileRecord → List FileRecord → Type 0
  KeepsRecords user rs rs' =
      All IsOwned rs'
      × (select (λ r. not (r.user_id == user)) rs' ≡ select (λ r. not (r.user_id == user)) rs)

  module _ (user : Ident) where
    abbrev others : FileRecord → Bool
    others r = not (r.user_id == user)

    pub keeps-create :
        (now : Time) (r : FileRecord) (rs : List FileRecord)
        → IsOwned r
        → r.user_id ≡ user
        → All IsOwned rs
        → KeepsRecords user rs (create_file_metadata now r rs)
    unfolding create_file_metadata
    keeps-create now r rs mine same h =
        let new : FileRecord = record r {
          is_latest = true;
          created_at = now;
          updated_at = now;
          deleted_at = none;
        } in
        let all = All-append IsOwned rs (new ∷ []) h (mine, tt) in
        (
          All-update_many IsOwned (is_superseded r.file_id r.version) demote (rs ++ new ∷ [])
              (λ d t k. k) all,
          select-update_many_other IsOwned others (is_superseded r.file_id r.version) demote
                (rs ++ new ∷ []) (λ d k t. ground arith) all
              ∙ select-append_other others rs {d = new} (ground arith),
        )

    pub keeps-update :
        (file : Ident) (change : FileRecord → FileRecord) (rs : List FileRecord)
        → owner file ≡ user
        → ((r : FileRecord) → IsOwned r → IsOwned (change r) × ((change r).user_id ≡ r.user_id))
        → All IsOwned rs
        → KeepsRecords user rs (update_newest file change rs).1
    unfolding update_newest
    keeps-update file change rs mine keep h =
        elim (Option-cases (get_file_by_id file none false rs)) [
          | inl e ↦ rw (update_newest, e) (h, refl)
          | inr (latest, e) ↦
              rw (update_newest, e)
                (
                  All-update_record IsOwned (has_version file latest.version) change rs
                      (λ d t k. (keep d k).0) h,
                  select-update_record_other IsOwned others (has_version file latest.version) change
                      rs (λ d k t. let (_, same) = keep d k in (ground arith, ground arith)) h,
                )
        ]

    keeps-delete_versions :
        (file : Ident) (vs rs : List FileRecord)
        → owner file ≡ user
        → All IsOwned rs
        → KeepsRecords user rs (delete_versions file vs rs)
    unfolding delete_versions
    keeps-delete_versions file [] rs mine h = (h, refl)
    keeps-delete_versions file (v ∷ vs) rs mine h =
        let all = All-delete_record IsOwned (has_version file v.version) rs h in
        let rest =
          keeps-delete_versions file vs (delete_record (has_version file v.version) rs).0 mine
            all in
        (
          rest.0,
          rest.1
              ∙ select-delete_record_other IsOwned others (has_version file v.version) rs
                  (λ d k t. ground arith) h,
        )

    keeps-remove_all :
        (limits : Limits) (now : Time) (file : Ident) (hard : Bool) (vs rs : List FileRecord)
        → owner file ≡ user
        → All IsOwned rs
        → KeepsRecords user rs (remove_all limits now file hard vs rs).1
    keeps-remove_all limits now file hard [] rs mine h = (h, refl)
    keeps-remove_all limits now file true (v ∷ vs) rs mine h =
        keeps-delete_versions file (v ∷ vs) rs mine h
    keeps-remove_all limits now file false (v ∷ vs) rs mine h =
        let filters : FileRecord → Bool = λ r. r.file_id == file && not (is_some r.deleted_at) in
        let change : FileRecord → FileRecord =
          λ r. record r { deleted_at = some now; updated_at = now } in
        (
          All-update_many IsOwned filters change rs (λ d t k. k) h,
          select-update_many_other IsOwned others filters change rs
              (λ d k t. (ground arith, ground arith)) h,
        )

    pub keeps-delete :
        (limits : Limits) (now : Time) (file : Ident) (hard : Bool) (rs : List FileRecord)
        → owner file ≡ user
        → All IsOwned rs
        → KeepsRecords user rs (delete_file_metadata limits now file hard rs).1
    unfolding delete_file_metadata
    keeps-delete limits now file hard rs mine h =
        keeps-remove_all limits now file hard (get_file_versions limits file hard rs) rs mine h
