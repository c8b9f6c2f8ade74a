-- ===== src/Access/Changes.antt =====
-- A change of a user's roles or groups is what the next check goes by (app/services/rbac.py).
use fast_api_boiler_plate.Base.{
  ℕ, ◌+◌, ◌≤◌, ◌≡◌, refl, Bool, true, false, Option, none, some, List, ◌∷◌, ◌++◌, Ident, Time,
  arith, Str, codes, str_eq_refl, lookup, lookup-erase, ap, ◌∙◌, sym, some_inj, some_inj,
}
use fast_api_boiler_plate.Store.{get_record}
use fast_api_boiler_plate.Cache.Memory
use fast_api_boiler_plate.Cache.Service.{Backend, Settings, Clock, Service, memory_backend}
use fast_api_boiler_plate.Cache.Service
use fast_api_boiler_plate.Data.Laws.{
  same, Stored, IsCoherent, get-coherent, get-IsCoherent, get-skip,
}
use fast_api_boiler_plate.Users.{User, Field, id, has_id, get_user_by_id, update_user}
use fast_api_boiler_plate.Users.Cached.{users_memory, IsUp, update_user-cached}
use fast_api_boiler_plate.Access.{
  Config, Assigned, roles, groups, get_list, set_list, changed_list, effective, sorted_set, Access,
  resolve_uncached, resolve_user_permissions, forget, change_found, change_list,
}

abbrev pub sets_memory : Backend (List Str)
sets_memory = memory_backend same

-- Nothing is read where nothing is cached.
get-none :
    {A : Type 0} (cfg : Settings) (clock : Clock) (key : Str)
    (c : Service (memory_backend (same {A = A})))
    → lookup (cfg.prefix ++ key) c.backend.items ≡ none
    → (Service.get (memory_backend same) cfg clock key c).0 ≡ none
unfolding Service.get Memory.get
get-none cfg clock key c h = ground arith

delete-none :
    {A : Type 0} (cfg : Settings) (clock : Clock) (key : Str)
    (c : Service (memory_backend (same {A = A})))
    → c.skip_until ≤ clock.asked
    → lookup
        (cfg.prefix ++ key)
        (Service.delete (memory_backend same) cfg clock key c).1.backend.items
      ≡ none
unfolding Service.delete Service.require Memory.delete
delete-none cfg clock key c up = ground (
  arith,
  lookup-erase (cfg.prefix ++ key) (cfg.prefix ++ key) c.backend.items,
  str_eq_refl (cfg.prefix ++ key),
)

set_list-id : (field : Assigned) (xs : List Ident) (u : User) → (set_list field xs u).id ≡ u.id
set_list-id roles xs u = refl
set_list-id groups xs u = refl

module _ (cfg : Settings) (default_key : Field → Str → Str) (config : Config) (c : ℕ)
    (cs : Str) where
  abbrev State : Type 0
  State = Access users_memory sets_memory

  abbrev pub stored : State → Option User
  stored s = get_record (has_id (c ∷ cs)) s.users.db

  -- The cached copy of the user, if there is one, is the stored record.
  abbrev pub IsFresh : State → Type 0
  IsFresh s = IsCoherent cfg (default_key id (c ∷ cs)) (has_id (c ∷ cs)) s.users

  abbrev pub resolve : (ℕ → Clock) → Time → State → List Str × State
  resolve clock now s =
      resolve_user_permissions users_memory sets_memory cfg default_key config clock now (c ∷ cs) s

  read_user :
      (reading writing : Clock) (s : State)
      → IsFresh s
      → (get_user_by_id users_memory cfg default_key reading writing (c ∷ cs) false s.users).0
        ≡ stored s
  unfolding get_user_by_id
  read_user reading writing s h =
      get-coherent cfg (default_key id (c ∷ cs)) (has_id (c ∷ cs)) reading writing s.users h

  abbrev held : State → Option (List Str × Option Time)
  held s = lookup (cfg.prefix ++ (codes "user_permissions:" ++ c ∷ cs)) s.cache.backend.items

  -- With no cached permissions a check goes by the stored record.
  resolve-stored :
      (clock : ℕ → Clock) (now : Time) (s : State)
      → IsFresh s
      → held s ≡ none
      → (resolve clock now s).0 ≡ sorted_set (effective config now s.grants (c ∷ cs) (stored s))
  unfolding resolve_user_permissions
  resolve-stored clock now s h missing =
      uncached (Service.get sets_memory cfg (clock 0) (codes "user_permissions:" ++ c ∷ cs) s.cache)
        (get-none cfg (clock 0) (codes "user_permissions:" ++ c ∷ cs) s.cache missing)
    where
      uncached :
          (o : Option (List Str) × Service sets_memory)
          → o.0 ≡ none
          → (resolve_uncached users_memory sets_memory cfg default_key config clock now
              (c ∷ cs)
              s
              o).0
            ≡ sorted_set (effective config now s.grants (c ∷ cs) (stored s))
      uncached (some v, d) e = absurd (cc)
      uncached (none, d) e =
          ap (λ (o : Option User). sorted_set (effective config now s.grants (c ∷ cs) o))
            (read_user (clock 1) (clock 2) s h)

  module _ (clock : ℕ → Clock) (now : Time) (field : Assigned) (value : Ident)
      (add known : Bool) where
    abbrev pub change : State → Bool × State
    change s =
        change_list users_memory sets_memory cfg default_key config clock now (c ∷ cs) field value
          add known s

    abbrev found : State → Option User × Stored User
    found s = get_user_by_id users_memory cfg default_key (clock 1) (clock 2) (c ∷ cs) false s.users

    abbrev updates : User → User
    updates r = set_list field (changed_list add value (get_list field r)) r

    found-kept :
        (s : State)
        → IsFresh s
        → ((found s).1.db ≡ s.users.db) × ((found s).1.cache.skip_until ≡ s.users.cache.skip_until)
    unfolding get_user_by_id
    found-kept s h = (
      (get-IsCoherent cfg (default_key id (c ∷ cs)) (has_id (c ∷ cs)) (clock 1) (clock 2) s.users
          h).0,
      get-skip cfg (default_key id (c ∷ cs)) (has_id (c ∷ cs)) (clock 1) (clock 2) s.users,
    )

    abbrev written : User → Stored User → State → State
    written r users s =
        forget users_memory sets_memory cfg default_key config clock now (c ∷ cs) (record s {
          users =
              (update_user users_memory cfg default_key (λ n. clock (n + 5)) now (c ∷ cs)
                (set_list field (changed_list add value (get_list field r))) users).1;
        })

    found-written :
        (s : State) (o : Option User × Stored User) {r : User}
        → o.0 ≡ some r
        → (change_found users_memory sets_memory cfg default_key config clock now
            (c ∷ cs)
            field
            value
            add
            known
            o
            s).0
          ≡ true
        → (change_found users_memory sets_memory cfg default_key config clock now
            (c ∷ cs)
            field
            value
            add
            known
            o
            s).1
          ≡ written r o.1 s
    found-written s (none, users) e ok = absurd (cc)
    found-written s (some u, users) {r} e ok =
        let same_user : u ≡ r = some_inj e in rw (← same_user) (ground arith)

    -- Once a role or group has been given to a user or taken away, with both caches answering and
    -- a cached copy of the user, if there is one, that is the stored record, the next permissions
    -- that are resolved, at any time, are those of the changed lists.
    pub change_list-effective :
        (clock' : ℕ → Clock) (later : Time) (s : State) {r : User}
        → IsFresh s
        → stored s ≡ some r
        → IsUp cfg default_key (λ n. clock (n + 5)) s.users
        → s.cache.skip_until ≤ (clock 4).asked
        → (change s).0 ≡ true
        → (resolve clock' later (change s).1).0
          ≡ sorted_set (effective config later s.grants (c ∷ cs) (some (updates r)))
    unfolding change_list forget effective
    change_list-effective clock' later s {r} h e up up' ok =
        let (db, skip) = found-kept s h in
        let users = (found s).1 in
        let here : get_record (has_id (c ∷ cs)) users.db ≡ some r =
          ap (get_record (has_id (c ∷ cs))) db ∙ e in
        let (after, gone) =
          update_user-cached cfg default_key (λ n. clock (n + 5)) now c cs
            (set_list field (changed_list add value (get_list field r))) users {r = r}
            (λ n. omega (arith, skip, up n)) here (set_list-id field _ r) in
        let left : (change s).1 ≡ written r users s =
          found-written s (found s) (read_user (clock 1) (clock 2) s h ∙ e) ok in
        let fresh : IsFresh (written r users s) =
          λ v t there. absurd (let bad = sym gone ∙ there in cc) in
        let emptied = delete-none cfg (clock 4) (codes "user_permissions:" ++ c ∷ cs) s.cache up' in
        ap (λ (z : State). (resolve clock' later z).0) left
        ∙ resolve-stored clock' later (written r users s) fresh emptied
        ∙ ap (λ (o : Option User). sorted_set (effective config later s.grants (c ∷ cs) o)) after
