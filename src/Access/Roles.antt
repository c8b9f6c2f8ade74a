-- ===== src/Access/Roles.antt =====
-- Role definitions and what they grant (app/services/rbac.py): wildcards and inheritance.
--
-- Roles are numbers, a permission is a text `resource:action`. A Python set is a list here, of which
-- only the members count. The recursion on inherited roles takes fuel.
use fast_api_boiler_plate.Base.{
  ℕ, zero, suc, ◌≡◌, Bool, true, false, ◌||◌, Option, none, some, List, [], ◌∷◌, ◌++◌,
  if◌then◌else◌, Ident, Str, codes, str_eq, any, ◌==◌, contains,
}

-- `permission.partition(":")[0]`
unfoldable pub resource_of : Str → Str
resource_of [] = []
resource_of (c ∷ s) = if c == b':' then [] else c ∷ resource_of s

abbrev pub holds : Str → List Str → Bool
holds p held = any (λ q. str_eq q p) held

unfoldable pub covers : List Str → Str → Bool
unfolding resource_of
covers held permission =
    holds (codes "*") held
    || holds permission held
    || holds (resource_of permission ++ codes ":*") held

pub record Role : Type 0 where
  pub permissions : List Str
  pub inherits : List Ident

abbrev pub Roles : Type 0
Roles = List (Ident × Role)

-- `self.roles.get(current)`
unfoldable pub get_role : Ident → Roles → Option Role
get_role r [] = none
get_role r ((q, role) ∷ roles) = if q == r then some role else get_role r roles

-- The two sets of `resolve_role_inheritance`.
pub record Found : Type 0 where
  pub permissions : List Str
  pub expanded : List Ident

-- `for parent in role.get("inherits", []): expand(parent, …)`
unfoldable pub expand_all : (Ident → Found → Found) → List Ident → Found → Found
expand_all visit [] s = s
expand_all visit (parent ∷ parents) s = expand_all visit parents (visit parent s)

-- `expand`
unfoldable pub expand : ℕ → Roles → Ident → List Ident → Found → Found
unfolding expand_all
expand zero roles current path s = s
expand (suc fuel) roles current path s = elim (contains current path) [
  | true ↦ s
  | false ↦ elim (get_role current roles) [
    | none ↦ s
    | some role ↦ elim (contains current s.expanded) [
      | true ↦ s
      | false ↦
          expand_all (λ parent. expand fuel roles parent (path ++ current ∷ [])) role.inherits
            (record {
              permissions = s.permissions ++ role.permissions;
              expanded = current ∷ s.expanded;
            })
    ]
  ]
]

abbrev pub size_of : Roles → ℕ
size_of [] = 0
size_of (r ∷ roles) = suc (size_of roles)

-- Every call below another one is for one more role, so the number of roles is fuel enough.
unfoldable pub resolve_role_inheritance : Roles → Ident → List Str
unfolding expand
resolve_role_inheritance roles role =
    (expand (suc (size_of roles)) roles role []
      (record { permissions = []; expanded = [] })).permissions

-- What a role grants, described without the search: the permissions of the roles that it reaches.
pub data Reach (roles : Roles) (from : Ident) : Ident → Type 0 where
  here : Reach roles from from
  up :
      {r parent : Ident} {role : Role}
      → Reach roles from r
      → get_role r roles ≡ some role
      → contains parent role.inherits ≡ true
      → Reach roles from parent

abbrev pub Grants : Roles → Ident → Str → Type 0
Grants roles from p =
    (r : Ident) × (role : Role) × Reach roles from r
    × (get_role r roles ≡ some role)
    × (holds p role.permissions ≡ true)
