-- ===== src/Accounts/Endings.antt =====
-- What an account's changes end (app/services/auth/service.py): a reset token at its first use, and
-- the sessions of an account that is disabled.
use fast_api_boiler_plate.Base.{
  ℕ, ◌≤◌, ◌≡◌, refl, Bool, true, false, none, some, List, [], ◌∷◌, Ident, Time, Str, codes, str_eq,
  any, arith, ap, sym, ◌∙◌, length, select,
}
use fast_api_boiler_plate.Store.{get_record}
use fast_api_boiler_plate.Store.Keys.{keyed, Distinct, update_record-once}
use fast_api_boiler_plate.Store.Laws.{update_record-any}
use fast_api_boiler_plate.Cache.Service.{Backend, Settings, Clock}
use fast_api_boiler_plate.Data.Laws.{Stored, IsCoherent}
use fast_api_boiler_plate.Users.{User, Field}
use fast_api_boiler_plate.Sessions.{
  Session, cache_key, has_id, is_session_active, get_session, revoke_user_sessions,
}
use fast_api_boiler_plate.Sessions.Revocation.{memory, revoke_user_sessions-inactive}
use fast_api_boiler_plate.Auth.{Passwords}
use fast_api_boiler_plate.Accounts.{
  ResetToken, is_unused, use_at, Answer, done, invalid_token, Accounts, consume,
  confirm_password_reset, set_user_status,
}

-- Nothing is found where nothing matches.
get_record-none :
    {A : Type 0} (filters : A → Bool) (ds : List A)
    → any filters ds ≡ false
    → get_record filters ds ≡ none
unfolding get_record
get_record-none filters [] h = refl
get_record-none filters (d ∷ ds) h = ground (arith, get_record-none filters ds)

abbrev hash_of : ResetToken → Ident
hash_of r = r.token_hash

module _ (b : Backend Session) (bu : Backend User) (cfg : Settings) (cap : ℕ)
    (default_key : Field → Str → Str) (passwords : Passwords) (is_strong : Str → Bool)
    (lifetime : Time) (revoking : Str → Clock) (clock : ℕ → Clock) (now : Time) where
  abbrev pub consumes : Ident → Str → Str → Accounts b bu → Answer × Accounts b bu
  consumes hash user new s =
      consume b bu cfg cap default_key passwords is_strong lifetime revoking clock now hash user new
        s

  -- Where no unused token has the hash, consuming it is refused.
  consume-refuses :
      (hash : Ident) (user new : Str) (s : Accounts b bu)
      → any (keyed hash_of hash is_unused) s.resets ≡ false
      → (consumes hash user new s).0 ≡ invalid_token
  unfolding consume
  consume-refuses hash user new s spent =
      rw (update_record-any (keyed hash_of hash is_unused) (use_at now) s.resets, spent) refl

  -- So is a confirmation.
  confirm-refuses :
      (hash : Ident) (new : Str) (s : Accounts b bu)
      → any (keyed hash_of hash is_unused) s.resets ≡ false
      → confirm_password_reset b bu cfg cap default_key passwords is_strong lifetime revoking clock
          now hash new s
        ≡ (invalid_token, s)
  unfolding confirm_password_reset
  confirm-refuses hash new s spent =
      rw (confirm_password_reset, get_record-none (keyed hash_of hash is_unused) s.resets spent)
        refl

  -- A token that has been consumed is spent.
  consume-spends :
      (hash : Ident) (user new : Str) (s : Accounts b bu) {n : ℕ}
      → Distinct hash_of s.resets
      → (consumes hash user new s).0 ≡ done n
      → any (keyed hash_of hash is_unused) (consumes hash user new s).1.resets ≡ false
  unfolding consume
  consume-spends hash user new s h ok = ground (
    arith,
    update_record-once hash_of hash is_unused is_unused (use_at now) s.resets (λ d. refl)
        (λ d e. refl) h,
  )

module _ (b : Backend Session) (bu : Backend User) (cfg : Settings) (cap : ℕ)
    (default_key : Field → Str → Str) (passwords : Passwords) (is_strong : Str → Bool)
    (lifetime : Time) (revoking : Str → Clock) (clock clock' : ℕ → Clock) (now later : Time) where
  -- A reset token sets one password: of two confirmations that have both read the token as unused,
  -- where token hashes are distinct, once the first has been accepted the second is refused, and
  -- so is every confirmation that begins later.
  pub consume-once :
      (hash : Ident) (user user' new new' : Str) (s : Accounts b bu) {n : ℕ}
      → Distinct hash_of s.resets
      → (consumes b bu cfg cap default_key passwords is_strong lifetime revoking clock now hash user
          new s).0
        ≡ done n
      → let s' =
          (consumes b bu cfg cap default_key passwords is_strong lifetime revoking clock now hash
            user new s).1 in
        ((consumes b bu cfg cap default_key passwords is_strong lifetime revoking clock' later hash
            user' new' s').0
          ≡ invalid_token)
        × (confirm_password_reset b bu cfg cap default_key passwords is_strong lifetime revoking
              clock' later hash new' s'
            ≡ (invalid_token, s'))
  consume-once hash user user' new new' s {n} h ok =
      let s' =
        (consumes b bu cfg cap default_key passwords is_strong lifetime revoking clock now hash user
          new s).1 in
      let spent =
        consume-spends b bu cfg cap default_key passwords is_strong lifetime revoking clock now hash
          user new s {n = n} h ok in
      (
        consume-refuses b bu cfg cap default_key passwords is_strong lifetime revoking clock' later
            hash user' new' s' spent,
        confirm-refuses b bu cfg cap default_key passwords is_strong lifetime revoking clock' later
            hash new' s' spent,
      )

module _ (bu : Backend User) (cfg : Settings) (cap : ℕ) (default_key : Field → Str → Str)
    (passwords : Passwords) (is_strong : Str → Bool) (lifetime : Time) (revoking : Str → Clock)
    (clock : ℕ → Clock) (now later : Time) where
  ended :
      (user status : Str) (s : Accounts memory bu)
      → str_eq status (codes "active") ≡ false
      → let (found, s') =
          set_user_status memory bu cfg cap default_key passwords is_strong lifetime revoking clock
            now user status s in
        (found ≡ true)
        → s'.sessions ≡ (revoke_user_sessions memory cfg cap revoking now user none s.sessions).1
  unfolding set_user_status
  ended user status s off found = ground arith

  -- Once an account has been given a state other than active, with the cache answering and no more
  -- sessions of its than one query returns, no read at any later time finds a session of the
  -- account active under an id whose cached copy was coherent.
  pub set_user_status-ends :
      (user status id : Str) (s : Accounts memory bu) {d : Session}
      → str_eq status (codes "active") ≡ false
      → ((x : Str) → s.sessions.cache.skip_until ≤ (revoking x).asked)
      → length (select (λ e. str_eq e.user_id user) s.sessions.db) ≤ cap
      → IsCoherent cfg (cache_key id) (has_id id) s.sessions
      → now ≤ later
      → (reading writing : Clock)
      → let (found, s') =
          set_user_status memory bu cfg cap default_key passwords is_strong lifetime revoking clock
            now user status s in
        (found ≡ true)
        → (get_session memory cfg cap reading writing id s'.sessions).0 ≡ some d
        → str_eq d.user_id user ≡ true
        → is_session_active later (some d) ≡ false
  set_user_status-ends user status id s {d} off up few h le reading writing found read mine =
      revoke_user_sessions-inactive cfg cap revoking now later user none id s.sessions {d = d} up
        few h le reading writing
        (ap (λ (z : Stored Session). (get_session memory cfg cap reading writing id z).0)
            (sym (ended user status s off found))
          ∙ read)
        mine refl
