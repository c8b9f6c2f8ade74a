-- ===== src/Auth/Guesses.antt =====
-- Runs of wrong passwords against `authenticate` (app/services/auth/service.py).
use fast_api_boiler_plate.Base.{
  ℕ, ◌+◌, ◌<◌, ◌≡◌, refl, true, false, Option, none, some, List, [], ◌∷◌, Ident, Time, arith, Str,
  ltb, leb, ap, ◌∙◌, All, length,
}
use fast_api_boiler_plate.Cache.Service.{Backend, Settings, Clock}
use fast_api_boiler_plate.Data.{Data}
use fast_api_boiler_plate.Data
use fast_api_boiler_plate.Users.{User, Field, bump, get_user_by_username}
use fast_api_boiler_plate.Auth.{
  Lock, Passwords, Logins, is_enabled, is_password, lock_until, attempt, refuse, authenticate,
}
use fast_api_boiler_plate.Auth.Lockout.{IsStored, touched, attempt-fails}

-- A password that is tried, when the lock is looked up and when the outcome is recorded.
pub record Guess : Type 0 where
  pub password : Str
  pub checked : Time
  pub now : Time
  pub counting : ℕ → Clock
  pub clock : ℕ → Clock

module _ (b : Backend User) (cfg : Settings) (default_key : Field → Str → Str) (lock : Lock)
    (passwords : Passwords) (name : Str) where
  abbrev pub try_password : Guess → Logins b → Option User × Logins b
  try_password g s =
      authenticate b cfg default_key lock passwords g.counting g.clock g.checked g.now name
        g.password s

  -- One after the other.
  abbrev pub guess_all : List Guess → Logins b → Logins b
  guess_all [] s = s
  guess_all (g ∷ gs) s = guess_all gs (try_password g s).1

  abbrev pub IsWrong : User → Guess → Type 0
  IsWrong r g = is_password b cfg default_key lock passwords g.password r ≡ false

  guess-attempt :
      (g : Guess) (r : User) (s : Logins b)
      → IsStored name r.id r s
      → is_enabled r ≡ true
      → r.locked_until ≡ none
      → try_password g s
        ≡ attempt b cfg default_key lock passwords g.counting g.clock g.now name g.password r s
  unfolding authenticate get_user_by_username Data.get
  guess-attempt g r s h on free = rw (h.0, on, free) refl

  -- Below the limit every wrong password is counted, and nothing else changes for the account.
  guess_all-counts :
      (gs : List Guess) (r : User) (s : Logins b)
      → IsStored name r.id r s
      → is_enabled r ≡ true
      → r.locked_until ≡ none
      → All (IsWrong r) gs
      → r.failed_login_count + length gs < lock.max_failed_logins
      → (d : User) × IsStored name d.id d (guess_all gs s)
        × (d.failed_login_count ≡ r.failed_login_count + length gs)
        × (d.locked_until ≡ none)
        × (is_enabled d ≡ true)
        × (d.password_hash ≡ r.password_hash)
  guess_all-counts [] r s h on free wrong few = (r, h, omega arith, free, on, refl)
  guess_all-counts (g ∷ gs) r s h on free wrong few =
      let more : leb lock.max_failed_logins (r.failed_login_count + 1) ≡ false = ground arith in
      let (n, there) =
        attempt-fails b cfg default_key lock passwords g.counting g.clock g.now name g.password r r
          s h (omega arith) wrong.0 in
      let there' : IsStored name r.id (bump r) (try_password g s).1 =
        rw (guess-attempt g r s h on free) (rw more at there) in
      let (d, held, count, free', on', hash) =
        guess_all-counts gs (bump r) (try_password g s).1 there' on free wrong.1 (omega arith) in
      (d, held, omega (arith, count), free', on', hash)

  -- Once as many wrong passwords as the limit allows have been tried in a row, starting from an
  -- active account without a lock and with its count so far, no password signs the user in, the
  -- right one included, until the lockout has passed since the last of them.
  pub authenticate-locked_out :
      (gs : List Guess) (last g : Guess) (r : User) (s : Logins b)
      → IsStored name r.id r s
      → is_enabled r ≡ true
      → r.locked_until ≡ none
      → All (IsWrong r) gs
      → IsWrong r last
      → r.failed_login_count + length gs + 1 ≡ lock.max_failed_logins
      → g.checked < last.now + lock.lockout
      → (try_password g (try_password last (guess_all gs s)).1).0 ≡ none
  unfolding authenticate get_user_by_username Data.get refuse
  authenticate-locked_out gs last g r s h on free wrong wrong' full early =
      let (d, held, count, free', on', hash) =
        guess_all-counts gs r s h on free wrong (omega arith) in
      let s' = guess_all gs s in
      let wrong'' : IsWrong d last =
        ap
          (λ (o : Option Ident). elim o [
            | none ↦ false
            | some h ↦ passwords.averify_password last.password h
          ])
          hash
        ∙ wrong' in
      let at_limit : leb lock.max_failed_logins (d.failed_login_count + 1) ≡ true = ground arith in
      let (n, there) =
        attempt-fails b cfg default_key lock passwords last.counting last.clock last.now name
          last.password d d s' held (omega arith) wrong'' in
      let there' : IsStored name d.id (touched last.now (lock_until (last.now + lock.lockout) d))
          (try_password last s').1 =
        rw (guess-attempt last d s' held on' free') (rw at_limit at there) in
      let still : ltb g.checked (last.now + lock.lockout) ≡ true = ground arith in
      rw (there'.0, on', still) refl
