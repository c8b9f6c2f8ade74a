-- ===== src/Access.antt =====
-- `RBACService` (app/services/rbac.py) and the temporary grants
-- (app/services/data/temp_permissions_ops.py).
--
-- Roles and groups are numbers, and their definitions (the configuration) are arguments. The audit
-- trail is left out. One reading of the clock serves all the queries of a call. Cached permission
-- sets are a cache of their own.
pub mod Roles
pub mod Inheritance
pub mod Changes
pub mod Tests
use fast_api_boiler_plate.Base.{
  ℕ, ◌+◌, Bool, true, false, not, ◌&&◌, ◌||◌, Option, none, some, List, [], ◌∷◌, ◌++◌, map,
  if◌then◌else◌, Ident, Time, Str, codes, str_eq, ltb, leb, ◌==◌, contains, remove, is_some,
}
use fast_api_boiler_plate.Store.{get_record, update_record}
use fast_api_boiler_plate.Cache.Service.{Backend, Settings, Clock, Service}
use fast_api_boiler_plate.Cache.Service
use fast_api_boiler_plate.Data.{Data}
use fast_api_boiler_plate.Users.{User, Field, get_user_by_id, update_user}
use fast_api_boiler_plate.Sessions.{find_unpaged}
use Roles.{covers, resolve_role_inheritance}

-- `entity_type` and `entity_id`
pub data Entity : Type 0 where
  of_user : Str → Entity
  of_group : Ident → Entity

abbrev pub same_entity : Entity → Entity → Bool
same_entity (of_user a) (of_user b) = str_eq a b
same_entity (of_group a) (of_group b) = a == b
same_entity _ _ = false

pub record Grant : Type 0 where
  pub id : Ident
  pub entity : Entity
  pub permission_id : Str
  pub start_time : Option Time
  pub end_time : Option Time
  pub revoked_at : Option Time
  pub created_at : Time

abbrev pub has_started : Time → Grant → Bool
has_started now g = elim g.start_time [ none ↦ true | some t ↦ leb t now ]

abbrev pub is_unended : Time → Grant → Bool
is_unended now g = elim g.end_time [ none ↦ true | some t ↦ ltb now t ]

-- The filter of `get_active`.
unfoldable pub is_active_grant : Time → Entity → Grant → Bool
is_active_grant now e g =
    same_entity g.entity e && not (is_some g.revoked_at) && has_started now g && is_unended now g

unfoldable pub get_active : ℕ → Time → Entity → List Grant → List Grant
unfolding find_unpaged is_active_grant
get_active cap now e grants = find_unpaged cap (is_active_grant now e) grants

abbrev pub Groups : Type 0
Groups = List (Ident × List Ident)

-- `self.groups.get(group_id, {}).get("roles", [])`
abbrev pub group_roles : Groups → Ident → List Ident
group_roles [] g = []
group_roles ((h, rs) ∷ groups) g = if h == g then rs else group_roles groups g

abbrev pub concat_map {ℓ κ} : {A : Type ℓ} {B : Type κ} → (A → List B) → List A → List B
concat_map f [] = []
concat_map f (x ∷ xs) = f x ++ concat_map f xs

-- The order of texts.
unfoldable pub str_lt : Str → Str → Bool
str_lt [] [] = false
str_lt [] (d ∷ t) = true
str_lt (c ∷ s) [] = false
str_lt (c ∷ s) (d ∷ t) = ltb c d || (c == d && str_lt s t)

abbrev pub insert_set : Str → List Str → List Str
insert_set p [] = p ∷ []
insert_set p (q ∷ qs) =
    if str_eq q p then q ∷ qs else (if str_lt p q then p ∷ q ∷ qs else q ∷ insert_set p qs)

-- `sorted` of a set.
unfoldable pub sorted_set : List Str → List Str
unfolding str_lt
sorted_set [] = []
sorted_set (p ∷ ps) = insert_set p (sorted_set ps)

-- The definitions: `self.roles` and `self.groups`.
pub record Config : Type 0 where
  pub roles : Roles.Roles
  pub groups : Groups
  pub permission_ttl : ℕ
  pub cap : ℕ

-- What a user's roles, groups and active grants add up to.
unfoldable pub effective : Config → Time → List Grant → Str → Option User → List Str
effective config now grants user none =
    map (λ g. g.permission_id) (get_active config.cap now (of_user user) grants)
effective config now grants user (some u) =
    concat_map (resolve_role_inheritance config.roles) u.roles
    ++ (concat_map
          (λ g. concat_map (resolve_role_inheritance config.roles) (group_roles config.groups g))
          u.groups
        ++ (map (λ g. g.permission_id) (get_active config.cap now (of_user user) grants)
            ++ concat_map
                (λ h. map (λ g. g.permission_id) (get_active config.cap now (of_group h) grants))
                u.groups))

-- The field of the user record that a change is about.
pub data Assigned : Type 0 where
  roles groups : Assigned

abbrev pub get_list : Assigned → User → List Ident
get_list roles u = u.roles
get_list groups u = u.groups

abbrev pub set_list : Assigned → List Ident → User → User
set_list roles xs u = record u { roles = xs }
set_list groups xs u = record u { groups = xs }

-- The list with the value added once, or its first occurrence removed.
abbrev pub changed_list : Bool → Ident → List Ident → List Ident
changed_list true v current = if contains v current then current else current ++ v ∷ []
changed_list false v current = if contains v current then remove v current else current

module _ (bu : Backend User) (bp : Backend (List Str)) where
  pub record Access : Type 0 where
    pub users : Data bu
    pub grants : List Grant
    pub cache : Service bp

module _ (bu : Backend User) (bp : Backend (List Str)) (cfg : Settings)
    (default_key : Field → Str → Str) (config : Config) (clock : ℕ → Clock) (now : Time) where
  -- `PERMISSION_CACHE_PREFIX` and the user's id.
  abbrev pub permission_key : Str → Str
  permission_key user = codes "user_permissions:" ++ user

  abbrev pub resolve_uncached :
      Str → Access bu bp → Option (List Str) × Service bp → List Str × Access bu bp
  resolve_uncached user s (some v, c) = (v, record s { cache = c })
  resolve_uncached user s (none, c) =
      let (found, users) =
        get_user_by_id bu cfg default_key (clock 1) (clock 2) user false s.users in
      let result = sorted_set (effective config now s.grants user found) in
      (
        result,
        record s {
          users = users;
          cache =
              (Service.set bp cfg (clock 3) (permission_key user) result
                (some config.permission_ttl) c).1;
        },
      )

  unfoldable pub resolve_user_permissions : Str → Access bu bp → List Str × Access bu bp
  resolve_user_permissions user s =
      resolve_uncached user s (Service.get bp cfg (clock 0) (permission_key user) s.cache)

  unfoldable pub check_permission : Str → Str → Access bu bp → Bool × Access bu bp
  unfolding resolve_user_permissions
  check_permission user permission s =
      let (held, s') = resolve_user_permissions user s in (covers held permission, s')

  -- The caller is the user with the scopes of its API token, if it has come with one.
  unfoldable pub allows : Str → Option (List Str) → Str → Access bu bp → Bool × Access bu bp
  unfolding check_permission
  allows user none permission s = check_permission user permission s
  allows user (some scopes) permission s =
      if not (covers scopes permission) then (false, s) else check_permission user permission s

  -- `_forget`
  unfoldable pub forget : Str → Access bu bp → Access bu bp
  forget user s = record s {
    cache = (Service.delete bp cfg (clock 4) (permission_key user) s.cache).1;
  }

  abbrev pub change_found :
      Str
      → Assigned
      → Ident
      → Bool
      → Bool
      → Option User × Data bu
      → Access bu bp
      → Bool × Access bu bp
  change_found user field value add known (none, users) s = (false, record s { users = users })
  change_found user field value add known (some u, users) s =
      let (updated, users') =
        update_user bu cfg default_key (λ n. clock (n + 5)) now user
          (set_list field (changed_list add value (get_list field u))) users in
      if add && not known then (false, record s { users = users }) else (
        updated,
        if updated then forget user (record s { users = users' }) else record s { users = users' },
      )

  -- `_change_list`; `known` says whether the definitions have the value.
  unfoldable pub change_list :
      Str → Assigned → Ident → Bool → Bool → Access bu bp → Bool × Access bu bp
  unfolding forget
  change_list user field value add known s =
      change_found user field value add known
        (get_user_by_id bu cfg default_key (clock 1) (clock 2) user false s.users) s

  abbrev pub is_known_role : Ident → Bool
  is_known_role r = is_some (Roles.get_role r config.roles)

  abbrev pub is_known_group : Ident → Groups → Bool
  is_known_group g [] = false
  is_known_group g ((h, rs) ∷ gs) = h == g || is_known_group g gs

  unfoldable pub assign_role : Str → Ident → Access bu bp → Bool × Access bu bp
  assign_role user role s = change_list user roles role true (is_known_role role) s

  unfoldable pub remove_role : Str → Ident → Access bu bp → Bool × Access bu bp
  remove_role user role s = change_list user roles role false (is_known_role role) s

  unfoldable pub assign_group : Str → Ident → Access bu bp → Bool × Access bu bp
  assign_group user group s =
      change_list user groups group true (is_known_group group config.groups) s

  -- `_forget_entity`: a group's grant drops every cached set.
  unfoldable pub forget_entity : Entity → Access bu bp → Access bu bp
  unfolding forget
  forget_entity (of_user user) s = forget user s
  forget_entity (of_group g) s = record s {
    cache = (Service.clear_pattern bp cfg (clock 4) (codes "user_permissions:") s.cache).1;
  }

  -- The grant, with its id.
  unfoldable pub create_temporary_permission : Grant → Access bu bp → Ident × Access bu bp
  unfolding forget_entity
  create_temporary_permission g s = (
    g.id,
    forget_entity g.entity (record s { grants = s.grants ++ record g { created_at = now } ∷ [] }),
  )

  abbrev has_grant_id : Ident → Grant → Bool
  has_grant_id x g = g.id == x

  unfoldable pub revoke_temporary_permission : Ident → Access bu bp → Bool × Access bu bp
  unfolding forget_entity
  revoke_temporary_permission x s = elim (get_record (has_grant_id x) s.grants) [
    | none ↦ (false, s)
    | some g ↦
        let (grants, found) =
          update_record (has_grant_id x) (λ h. record h { revoked_at = some now }) s.grants in
        (found, if found then forget_entity g.entity (record s { grants = grants }) else s)
  ]
