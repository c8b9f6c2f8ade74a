-- ===== src/Access/Inheritance.antt =====
-- The search through inherited roles finds what it should (app/services/rbac.py,
-- `resolve_role_inheritance`), cycles and diamonds included.
use fast_api_boiler_plate.Base.{
  ℕ, zero, suc, ◌+◌, ◌≤◌, ◌<◌, ◌≡◌, ◌↔◌, refl, true, false, ◌||◌, some, List, [], ◌∷◌, ◌++◌,
  if◌then◌else◌, Ident, Str, str_eq, any-append, ◌==◌, ==_iff, contains, arith, inl, inr,
  Bool-cases, Option-cases, some_inj, sym, subst, ◌∙◌, ap,
}
use fast_api_boiler_plate.Access.Roles.{
  Role, Roles, get_role, holds, Found, expand, expand_all, size_of, resolve_role_inheritance, Reach,
  Grants, here, up,
}

-- The defined roles that have not been expanded.
abbrev left : Roles → List Ident → ℕ
left [] E = 0
left ((q, role) ∷ roles) E = (if contains q E then 0 else 1) + left roles E

left_mono :
    (roles : Roles) (E F : List Ident)
    → ((x : Ident) → contains x E ≡ true → contains x F ≡ true)
    → left roles F ≤ left roles E
left_mono [] E F h = omega arith
left_mono ((q, role) ∷ roles) E F h = ground (arith, h q, left_mono roles E F h)

-- `E` with one more role.
contains-cons : (x r : Ident) (E : List Ident) → contains x E ≡ true → contains x (r ∷ E) ≡ true
contains-cons x r E h = ground arith

left-cons :
    (roles : Roles) (r : Ident) (E : List Ident) {role : Role}
    → get_role r roles ≡ some role
    → contains r E ≡ false
    → left roles (r ∷ E) < left roles E
unfolding get_role
left-cons [] r E e h = absurd (cc)
left-cons ((q, first) ∷ roles) r E {role} e h = elim (Bool-cases (q == r)) [
  | inl t ↦ ground (arith, left_mono roles E (r ∷ E) (λ x. contains-cons x r E))
  | inr t ↦ ground (arith, left-cons roles r E {role = role} (rw t at e) h)
]

left-le : (roles : Roles) (E : List Ident) → left roles E ≤ size_of roles
left-le [] E = omega arith
left-le ((q, role) ∷ roles) E = ground (arith, left-le roles E)

module _ (roles : Roles) (from : Ident) where
  abbrev IsDefined : Ident → Type 0
  IsDefined r = (role : Role) × (get_role r roles ≡ some role)

  -- Of the roles on the path the parents are still being looked at.
  record Inv (path : List Ident) (s : Found) : Type 0 where
    within : (x : Ident) → contains x path ≡ true → contains x s.expanded ≡ true
    closed :
        (e c : Ident) (role : Role)
        → contains e s.expanded ≡ true
        → contains e path ≡ false
        → get_role e roles ≡ some role
        → contains c role.inherits ≡ true
        → IsDefined c
        → contains c s.expanded ≡ true
    granted :
        (e : Ident) (role : Role) (p : Str)
        → contains e s.expanded ≡ true
        → get_role e roles ≡ some role
        → holds p role.permissions ≡ true
        → holds p s.permissions ≡ true
    reached : (e : Ident) → contains e s.expanded ≡ true → Reach roles from e
    sound : (p : Str) → holds p s.permissions ≡ true → Grants roles from p

  abbrev Grows : Found → Found → Type 0
  Grows s s' = (x : Ident) → contains x s.expanded ≡ true → contains x s'.expanded ≡ true

  record Post (path : List Ident) (current : Ident) (s s' : Found) : Type 0 where
    grows : Grows s s'
    inv : Inv path s'
    has : IsDefined current → contains current s'.expanded ≡ true

  -- The same for all parents.
  record Posts (path : List Ident) (parents : List Ident) (s s' : Found) : Type 0 where
    grows : Grows s s'
    inv : Inv path s'
    has : (c : Ident) → contains c parents ≡ true → IsDefined c → contains c s'.expanded ≡ true

  expand_all-Posts :
      (n : ℕ) (path : List Ident) (visit : Ident → Found → Found)
      → ((c : Ident) (s : Found)
          → Inv path s
          → Reach roles from c
          → left roles s.expanded < n
          → Post path c s (visit c s))
      → (parents : List Ident) (s : Found) → Inv path s
      → ((c : Ident) → contains c parents ≡ true → Reach roles from c)
      → left roles s.expanded < n
      → Posts path parents s (expand_all visit parents s)
  unfolding expand_all
  expand_all-Posts n path visit each [] s inv reach few = record {
    grows = λ x h. h;
    inv = inv;
    has = λ c h d. absurd (cc);
  }
  expand_all-Posts n path visit each (parent ∷ parents) s inv reach few =
      let s1 = visit parent s in
      let first = each parent s inv (reach parent (ground arith)) few in
      let smaller = left_mono roles s.expanded s1.expanded first.grows in
      let rest =
        expand_all-Posts n path visit each parents s1 first.inv (λ c h. reach c (ground arith))
          (omega arith) in
      record {
        grows = λ x h. rest.grows x (first.grows x h);
        inv = rest.inv;
        has = λ c h d. elim (Bool-cases (parent == c)) [
          | inl t ↦
              let same : parent ≡ c = (==_iff parent c).0 t in
              rest.grows c (
                subst (λ (y : Ident). contains y s1.expanded ≡ true) same
                  (first.has (subst (λ y. IsDefined y) (sym same) d)))
          | inr t ↦ rest.has c (ground arith) d
        ];
      }

  abbrev added : Ident → Role → Found → Found
  added current role s = record {
    permissions = s.permissions ++ role.permissions;
    expanded = current ∷ s.expanded;
  }

  abbrev below : Ident → List Ident → List Ident
  below current path = path ++ current ∷ []

  contains-below :
      (x current : Ident) (path : List Ident)
      → contains x (below current path) ≡ contains x path || current == x
  contains-below x current path = ground (arith, any-append (λ y. y == x) path (current ∷ []))

  holds-append : (p : Str) (ps qs : List Str) → holds p (ps ++ qs) ≡ holds p ps || holds p qs
  holds-append p ps qs = any-append (λ q. str_eq q p) ps qs

  same_role :
      (e current : Ident) {role role' : Role}
      → (current == e) ≡ true
      → get_role current roles ≡ some role
      → get_role e roles ≡ some role'
      → role ≡ role'
  same_role e current t d d' =
      let same : current ≡ e = (==_iff current e).0 t in
      some_inj (sym d ∙ ap (λ (y : Ident). get_role y roles) same ∙ d')

  -- A role is expanded: its parents are about to be looked at.
  added-Inv :
      (path : List Ident) (current : Ident) (role : Role) (s : Found)
      → Inv path s
      → Reach roles from current
      → get_role current roles ≡ some role
      → Inv (below current path) (added current role s)
  added-Inv path current role s inv reach d = record {
    within = λ x h. ground (arith, contains-below x current path, inv.within x);
    closed = λ e c r h off g i k. contains-cons c current s.expanded (
        inv.closed e c r (ground (arith, contains-below e current path))
          (ground (arith, contains-below e current path)) g i k);
    granted = λ e r p h g q. elim (Bool-cases (current == e)) [
      | inl t ↦
          let same = same_role e current t d g in
          rw (holds-append p s.permissions role.permissions, same, q) (ground arith)
      | inr t ↦
          let old = inv.granted e r p (ground arith) g q in
          rw (holds-append p s.permissions role.permissions, old) refl
    ];
    reached = λ e h. elim (Bool-cases (current == e)) [
      | inl t ↦ subst (λ y. Reach roles from y) ((==_iff current e).0 t) reach
      | inr t ↦ inv.reached e (ground arith)
    ];
    sound = λ p h. elim (Bool-cases (holds p s.permissions)) [
      | inl t ↦ inv.sound p t
      | inr t ↦
          (current, role, reach, d, ground (arith, holds-append p s.permissions role.permissions))
    ];
  }

  -- Its parents have been looked at.
  visited-Inv :
      (path : List Ident) (current : Ident) (role : Role) (s s' : Found)
      → Inv path s
      → get_role current roles ≡ some role
      → Posts (below current path) role.inherits (added current role s) s'
      → Inv path s'
  visited-Inv path current role s s' inv d after = record {
    within = λ x h. after.grows x (contains-cons x current s.expanded (inv.within x h));
    closed = λ e c r h off g i k. elim (Bool-cases (current == e)) [
      | inl t ↦
          after.has c
            (subst (λ (z : Role). contains c z.inherits ≡ true) (sym (same_role e current t d g)) i)
            k
      | inr t ↦ after.inv.closed e c r h (ground (arith, contains-below e current path)) g i k
    ];
    granted = after.inv.granted;
    reached = after.inv.reached;
    sound = after.inv.sound;
  }

  expand-Post :
      (fuel : ℕ) (path : List Ident) (current : Ident) (s : Found)
      → Inv path s
      → Reach roles from current
      → left roles s.expanded < fuel
      → Post path current s (expand fuel roles current path s)
  unfolding expand
  expand-Post zero path current s inv reach few = absurd (omega arith)
  expand-Post (suc fuel) path current s inv reach few = elim (Bool-cases (contains current path)) [
    | inl t ↦
        rw (expand, t) (record { grows = λ x h. h; inv = inv; has = λ d. inv.within current t })
    | inr t ↦ elim (Option-cases (get_role current roles)) [
      | inl missing ↦
          rw (expand, t, missing)
            (record {
              grows = λ x h. h;
              inv = inv;
              has = λ d. absurd (let bad = sym missing ∙ d.1 in cc);
            })
      | inr (role, d) ↦ elim (Bool-cases (contains current s.expanded)) [
        | inl u ↦ rw (expand, t, d, u) (record { grows = λ x h. h; inv = inv; has = λ _. u })
        | inr u ↦
            let after =
              expand_all-Posts fuel (below current path)
                (λ c s'. expand fuel roles c (below current path) s')
                (λ c s' inv' reach' few'.
                  expand-Post fuel (below current path) c s' inv' reach' few')
                role.inherits (added current role s) (added-Inv path current role s inv reach d)
                (λ c h. up reach d h)
                (omega (arith, left-cons roles current s.expanded {role = role} d u)) in
            rw (expand, t, d, u)
              (record {
                grows = λ x h. after.grows x (contains-cons x current s.expanded h);
                inv = visited-Inv path current role s _ inv d after;
                has = λ _. after.grows current (ground arith);
              })
      ]
    ]
  ]

module _ (roles : Roles) (from : Ident) where
  abbrev nothing : Found
  nothing = record { permissions = []; expanded = [] }

  nothing-Inv : Inv roles from [] nothing
  nothing-Inv = record {
    within = λ x h. h;
    closed = λ e c r h off g i k. absurd (cc);
    granted = λ e r p h g q. absurd (cc);
    reached = λ e h. absurd (cc);
    sound = λ p h. absurd (cc);
  }

  all_found : Post roles from [] from nothing (expand (suc (size_of roles)) roles from [] nothing)
  all_found =
      expand-Post roles from (suc (size_of roles)) [] from nothing nothing-Inv here
        (omega (arith, left-le roles []))

  reached-found :
      (r : Ident)
      → Reach roles from r
      → IsDefined roles from r
      → contains r (expand (suc (size_of roles)) roles from [] nothing).expanded ≡ true
  reached-found r here d = all_found.has d
  reached-found r (up {r = below} {role = role} reach g i) d =
      all_found.inv.closed below r role (reached-found below reach (role, g)) refl g i d

  -- The search grants exactly the permissions of the roles that are reached by inheritance, itself
  -- included, whatever cycles and diamonds there are, and never runs out of fuel before.
  pub resolve_role_inheritance-Grants :
      (p : Str) → (holds p (resolve_role_inheritance roles from) ≡ true) ↔ Grants roles from p
  unfolding resolve_role_inheritance
  resolve_role_inheritance-Grants p = (
    λ h. all_found.inv.sound p h,
    λ (r, role, reach, g, q). all_found.inv.granted r role p (reached-found r reach (role, g)) g q,
  )
