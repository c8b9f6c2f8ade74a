-- ===== src/ApiTokens/Lifecycle.antt =====
-- A personal access token from its creation to its revocation (app/services/auth/api_tokens.py).
use fast_api_boiler_plate.Base.{
  ℕ, ◌+◌, ◌*◌, ◌≤◌, ◌≡◌, refl, Bool, true, false, none, List, [], ◌∷◌, ◌++◌, if◌then◌else◌, Ident,
  Time, Str, Option, some, codes, str_eq, str_eq_iff, str_eq_refl, ◌||◌, arith, leb, ◌==◌, any, inl,
  inr, Bool-cases, ap, ◌∙◌, sym, subst,
}
use fast_api_boiler_plate.Store.{get_record, delete_record}
use fast_api_boiler_plate.Cache.Service.{Backend, Settings, Clock}
use fast_api_boiler_plate.Data.{Data}
use fast_api_boiler_plate.Access.{str_lt, insert_set, sorted_set}
use fast_api_boiler_plate.Users.{User, Field, get_user_by_id}
use fast_api_boiler_plate.ApiTokens.{
  ApiToken, Config, issued, has_hash, is_own, new_token, create, revoke, owner_payload,
  authenticate, Payload,
}

module _ {ℓ} {A : Type ℓ} (filters : A → Bool) where
  get-append :
      (ds : List A) (d : A)
      → any filters ds ≡ false
      → filters d ≡ true
      → get_record filters (ds ++ d ∷ []) ≡ some d
  unfolding get_record
  get-append [] d h t = rw t refl
  get-append (x ∷ ds) d h t = ground (arith, get-append ds d)

  delete-append :
      (ds : List A) (d : A)
      → any filters ds ≡ false
      → filters d ≡ true
      → delete_record filters (ds ++ d ∷ []) ≡ (ds, true)
  unfolding delete_record
  delete-append [] d h t = rw t refl
  delete-append (x ∷ ds) d h t = ground (arith, delete-append ds d)

  get-absent : (ds : List A) → any filters ds ≡ false → get_record filters ds ≡ none
  unfolding get_record
  get-absent [] h = refl
  get-absent (x ∷ ds) h = ground (arith, get-absent ds)

-- What an issued token is.
created :
    (config : Config) (now : Time) (id hash : Ident) (user : Str) (name : Ident) (scopes : List Str)
    (days : ℕ) (rs rs' : List ApiToken) (r : ApiToken)
    → create config now id hash user name scopes days rs ≡ (issued r, rs')
    → (r ≡ new_token config now id hash user name scopes days)
      × (rs' ≡ rs ++ r ∷ [])
      × (days ≤ config.max_days)
unfolding create
created config now id hash user name scopes days rs rs' r e = ground arith

is_own-new :
    (config : Config) (now : Time) (id hash : Ident) (user : Str) (name : Ident) (scopes : List Str)
    (days : ℕ)
    → is_own user id (new_token config now id hash user name scopes days) ≡ true
is_own-new config now id hash user name scopes days = ground (arith, str_eq_refl user)

own-absent :
    (user : Str) (id : Ident) (rs : List ApiToken)
    → any (λ q. q.id == id) rs ≡ false
    → any (is_own user id) rs ≡ false
own-absent user id [] h = refl
own-absent user id (r ∷ rs) h = ground (arith, own-absent user id rs)

any-insert_set :
    (x p : Str) (ps : List Str)
    → any (str_eq x) (insert_set p ps) ≡ (str_eq x p || any (str_eq x) ps)
any-insert_set x p [] = refl
any-insert_set x p (q ∷ qs) = elim (Bool-cases (str_eq q p)) [
  | inl t ↦
      let same : str_eq x q ≡ str_eq x p = ap (str_eq x) ((str_eq_iff q p).0 t) in
      rw (t, same) (ground arith)
  | inr t ↦ elim (Bool-cases (str_lt p q)) [
    | inl k ↦ rw (t, k) refl
    | inr k ↦ rw (t, k, any-insert_set x p qs) (ground arith)
  ]
]

-- Sorting a list of texts into a set neither drops nor adds one.
any-sorted_set : (x : Str) (ps : List Str) → any (str_eq x) (sorted_set ps) ≡ any (str_eq x) ps
unfolding sorted_set
any-sorted_set x [] = refl
any-sorted_set x (p ∷ ps) =
    any-insert_set x p (sorted_set ps) ∙ ap (λ b. str_eq x p || b) (any-sorted_set x ps)

-- The caller that a token stands for at the time `t`, by its expiry and scopes and the record of
-- its owner.
abbrev pub caller : Time → List Str → Time → Option User → Option Payload
caller expiry scopes t none = none
caller expiry scopes t (some u) =
    if leb expiry t
    then none
    else if str_eq u.status (codes "active")
    then some (record {
      user_id = u.id;
      username = u.username;
      roles = u.roles;
      exp = expiry;
      scopes = scopes;
    })
    else none

caller-owner_payload :
    (r : ApiToken) (t : Time) (found : Option User)
    → (if leb r.expires_at t then none else owner_payload r found)
      ≡ caller r.expires_at r.scopes t found
caller-owner_payload r t none = elim (Bool-cases (leb r.expires_at t)) [
  | inl k ↦ rw k refl
  | inr k ↦ rw k refl
]
caller-owner_payload r t (some u) = refl

module _ (bu : Backend User) (cfg : Settings) (default_key : Field → Str → Str) where
  authenticate-found :
      (config : Config) (clock : Clock) (t : Time) (hash : Ident) (rs : List ApiToken)
      (users : Data bu) (r : ApiToken)
      → get_record (has_hash hash) rs ≡ some r
      → (authenticate bu cfg default_key config clock t hash rs users).0 ≡ (
          if leb r.expires_at t
          then none
          else owner_payload r
              (get_user_by_id bu cfg default_key clock clock r.user_id true users).0)
  unfolding authenticate
  authenticate-found config clock t hash rs users r e = elim (Bool-cases (leb r.expires_at t)) [
    | inl k ↦ rw (authenticate, e, k) refl
    | inr k ↦ rw (authenticate, e, k) refl
  ]

  authenticate-missing :
      (config : Config) (clock : Clock) (t : Time) (hash : Ident) (rs : List ApiToken)
      (users : Data bu)
      → get_record (has_hash hash) rs ≡ none
      → authenticate bu cfg default_key config clock t hash rs users ≡ (none, rs, users)
  unfolding authenticate
  authenticate-missing config clock t hash rs users e = rw (authenticate, e) refl

  -- A personal access token works from its creation until it expires or is revoked. When a token is
  -- issued whose id and hash no stored token has, it expires the number of days asked for after
  -- now, which is at most the configured maximum, and its scopes are the ones asked for, no more
  -- and no fewer. Using it, at any later moment and for whatever the user records then are, gives
  -- the id, name and roles of the owner's record with the token's expiry and scopes if it has not
  -- expired and that record's status is "active"; it gives nothing if it has expired, if there is
  -- no record of the owner, or if the status is another one. Revoking it succeeds and leaves the
  -- other tokens as they were, and from then on using it gives nothing and changes nothing.
  pub authenticate-create :
      (config : Config) (now : Time) (id hash : Ident) (user : Str) (name : Ident)
      (scopes : List Str) (days : ℕ) (rs rs' : List ApiToken) (r : ApiToken) (clock : Clock)
      (t : Time) (users : Data bu)
      → any (λ q. q.id == id) rs ≡ false
      → any (has_hash hash) rs ≡ false
      → create config now id hash user name scopes days rs ≡ (issued r, rs')
      → (r.expires_at ≡ now + days * config.day)
        × (days ≤ config.max_days)
        × ((x : Str) → any (str_eq x) r.scopes ≡ any (str_eq x) scopes)
        × ((authenticate bu cfg default_key config clock t hash rs' users).0
            ≡ caller
                (now + days * config.day)
                r.scopes
                t
                (get_user_by_id bu cfg default_key clock clock user true users).0)
        × (revoke user id rs' ≡ (true, rs))
        × (authenticate bu cfg default_key config clock t hash (revoke user id rs').1 users
            ≡ (none, rs, users))
  unfolding revoke
  authenticate-create config now id hash user name scopes days rs rs' r clock t users fresh unused
        e =
      let (what, all, few) = created config now id hash user name scopes days rs rs' r e in
      let there : get_record (has_hash hash) rs' ≡ some r =
        ap (get_record (has_hash hash)) all
        ∙ get-append (has_hash hash) rs r unused
            (subst (λ q. has_hash hash q ≡ true) (sym what) (ground arith)) in
      let own : is_own user id r ≡ true =
        subst (λ q. is_own user id q ≡ true) (sym what)
          (is_own-new config now id hash user name scopes days) in
      let removed : delete_record (is_own user id) rs' ≡ (rs, true) =
        ap (delete_record (is_own user id)) all
        ∙ delete-append (is_own user id) rs r (own-absent user id rs fresh) own in
      let gone : revoke user id rs' ≡ (true, rs) =
        ap (λ (p : List ApiToken × Bool). (p.1, p.0)) removed in
      let owner = λ (x : Str). (get_user_by_id bu cfg default_key clock clock x true users).0 in
      (
        ap (λ (q : ApiToken). q.expires_at) what,
        few,
        λ x. ap (λ (q : ApiToken). any (str_eq x) q.scopes) what ∙ any-sorted_set x scopes,
        authenticate-found config clock t hash rs' users r there
            ∙ caller-owner_payload r t (owner r.user_id)
            ∙ ap (λ (q : ApiToken). caller q.expires_at r.scopes t (owner q.user_id)) what,
        gone,
        ap
              (λ (p : Bool × List ApiToken).
                authenticate bu cfg default_key config clock t hash p.1 users)
              gone
            ∙ authenticate-missing config clock t hash rs users
                (get-absent (has_hash hash) rs unused),
      )
