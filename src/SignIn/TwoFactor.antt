-- ===== src/SignIn/TwoFactor.antt =====
-- A password alone signs nobody in who has turned on the second factor (`login_user` and
-- `complete_mfa_login`, app/services/auth/service.py).
use fast_api_boiler_plate.Base.{
  ℕ, ◌+◌, ◌*◌, ◌≤◌, ◌<◌, ◌≡◌, refl, Bool, true, false, some, List, Time, Str, arith, ltb, leb, inl,
  inr, ◌⊎◌, Bool-cases, Option-cases,
}
use fast_api_boiler_plate.Cache.Service.{Backend, Clock}
use fast_api_boiler_plate.Users.{User, increment_failed_logins}
use fast_api_boiler_plate.Sessions.{Session}
use fast_api_boiler_plate.Sessions
use fast_api_boiler_plate.Auth
use fast_api_boiler_plate.Mfa
use fast_api_boiler_plate.Tokens.{TokenPair, create_mfa_token}
use fast_api_boiler_plate.Tokens.Kinds.{IsSigning, proof-read}
use fast_api_boiler_plate.SignIn.{
  Login, login_refused, mfa_required, logged_in, Fresh, SignIns, Config, open_session, second_step,
  login_user, found_user, refuse_code, accept_code, check_code, complete_claims, complete_mfa_login,
}

module _ {T : Type 0} (b : Backend Session) (bu : Backend User) (bp : Backend (List Str))
    (config : Config T) where
  abbrev IsRefused : Login T × SignIns b bu bp → SignIns b bu bp → Type 0
  IsRefused answer s = (answer.0 ≡ login_refused) × (answer.1.sessions ≡ s.sessions)

  refuse_code-sessions :
      (clock : ℕ → Clock) (now : Time) (r : User) (user : Str) (failures : ℕ) (s : SignIns b bu bp)
      → IsRefused (refuse_code b bu bp config clock now r user failures s) s
  unfolding refuse_code
  refuse_code-sessions clock now r user failures s =
      elim (Bool-cases (leb config.lock.max_failed_logins failures)) [
        | inl e ↦ (refl, rw (refuse_code, e) refl)
        | inr e ↦ (refl, rw (refuse_code, e) refl)
      ]

  check_code-IsRefused :
      (clock : ℕ → Clock) (now : Time) (fresh : Fresh) (code : Str) (device : ℕ) (remember : Bool)
      (r : User) (user : Str) (s : SignIns b bu bp)
      → (Mfa.verify config.codes (config.time_step now) (config.ident user) code s.factors).0
        ≡ false
      → IsRefused (check_code b bu bp config clock now fresh code device remember r user s) s
  check_code-IsRefused clock now fresh code device remember r user s wrong =
      let count =
        increment_failed_logins bu config.cache config.default_key clock r s.logins.users in
      elim (Bool-cases (ltb config.lock.max_failed_logins count.0)) [
        | inl e ↦ rw (check_code, e) (refuse_code-sessions clock now r user count.0 _)
        | inr e ↦ rw (check_code, e, wrong) (refuse_code-sessions clock now r user count.0 _)
      ]

  complete_claims-IsRefused :
      (clock : ℕ → Clock) (now : Time) (fresh : Fresh) (code : Str) (device : ℕ) (remember : Bool)
      (user : Str) (s : SignIns b bu bp)
      → (Mfa.verify config.codes (config.time_step now) (config.ident user) code s.factors).0
        ≡ false
      → IsRefused
          (complete_claims b bu bp config clock now fresh code device (some (user, remember)) s)
          s
  complete_claims-IsRefused clock now fresh code device remember user s wrong =
      elim (Option-cases (found_user b bu bp config clock now user s)) [
        | inl e ↦ rw (complete_claims, e) (refl, refl)
        | inr (r, e) ↦
            rw (complete_claims, e)
              (check_code-IsRefused clock now fresh code device remember r user s wrong)
      ]

  module _ (signs : IsSigning config.tokens.jwt) (issued : Time) (user : Str)
      (remember : Bool) where
    abbrev proof : T
    proof = create_mfa_token config.tokens issued user remember config.challenge_minutes

    complete-IsRefused :
        (clock : ℕ → Clock) (now : Time) (fresh : Fresh) (code : Str) (device : ℕ)
        (s : SignIns b bu bp)
        → issued ≤ now
        → (issued + config.challenge_minutes * 60 ≤ now)
          ⊎ ((Mfa.verify config.codes (config.time_step now) (config.ident user) code s.factors).0
              ≡ false)
        → IsRefused (complete_mfa_login b bu bp config clock now fresh proof code device s) s
    unfolding complete_mfa_login
    complete-IsRefused clock now fresh code device s begun why =
        let read =
          proof-read config.tokens signs issued now user remember config.challenge_minutes begun in
        elim (Bool-cases (ltb now (issued + config.challenge_minutes * 60))) [
          | inl e ↦ elim why [
            | inl late ↦ absurd (ground arith)
            | inr wrong ↦
                rw (complete_mfa_login, read, e)
                  (complete_claims-IsRefused clock now fresh code device remember user s wrong)
          ]
          | inr e ↦ rw (complete_mfa_login, read, e) (refl, refl)
        ]

    complete-accepted :
        (clock : ℕ → Clock) (now : Time) (fresh : Fresh) (code : Str) (device : ℕ)
        (s : SignIns b bu bp) (r : User)
        → issued ≤ now
        → now < issued + config.challenge_minutes * 60
        → found_user b bu bp config clock now user s ≡ some r
        → (increment_failed_logins bu config.cache config.default_key clock r s.logins.users).0
          ≤ config.lock.max_failed_logins
        → (Mfa.verify config.codes (config.time_step now) (config.ident user) code s.factors).0
          ≡ true
        → (pair : TokenPair T) × (permissions : List Str) × ((complete_mfa_login b bu bp config
              clock now fresh proof code device s).0
            ≡ logged_in pair permissions fresh.session_id)
          × ((complete_mfa_login b bu bp config clock now fresh proof code device s).1.sessions
              ≡ Sessions.open_session b config.cache config.cap
                  (clock 20)
                  config.days
                  now
                  fresh.session_id
                  r.id
                  device
                  remember
                  (some (config.hash_token pair.refresh_token))
                  s.sessions)
    unfolding complete_mfa_login accept_code open_session
    complete-accepted clock now fresh code device s r begun live found few right =
        let read =
          proof-read config.tokens signs issued now user remember config.challenge_minutes begun in
        let e : ltb now (issued + config.challenge_minutes * 60) ≡ true = ground arith in
        let k : ltb config.lock.max_failed_logins
              (increment_failed_logins bu config.cache config.default_key clock r s.logins.users).0
            ≡ false =
          ground arith in
        rw (complete_mfa_login, read, e, found, k, right) (_, _, refl, refl)

  -- A password alone signs nobody in who has turned on the second factor. Where the token library
  -- decodes what it signed until it expires, and the password step accepts a user whose second
  -- factor is on, the sign-in opens no session and answers with a proof of that step. From then on,
  -- in whatever state the service then is: the proof opens no session, and is refused, with a code
  -- that the second factor does not verify for that user, and with any code once the proof's
  -- minutes are over; and it opens a session with a code that is verified, while the proof lives,
  -- the account may sign in and its failures, this attempt counted, are within the limit.
  pub login_user-two_factor :
      IsSigning config.tokens.jwt
      → (clock : ℕ → Clock) (now : Time) (fresh : Fresh) (name password : Str) (device : ℕ)
        (remember : Bool) (s : SignIns b bu bp) (u : User)
      → (Auth.authenticate bu config.cache config.default_key config.lock config.passwords clock
          (λ n. clock (n + 10))
          now
          now
          name
          password
          s.logins).0
        ≡ some u
      → Mfa.is_enabled (config.ident u.id) s.factors ≡ true
      → let first = login_user b bu bp config clock now fresh name password device remember s in
        let proof = create_mfa_token config.tokens now u.id remember config.challenge_minutes in
        ((first.0 ≡ mfa_required proof) × (first.1.sessions ≡ s.sessions))
        × ((clock' : ℕ → Clock) (t : Time) (fresh' : Fresh) (code : Str) (s' : SignIns b bu bp)
            → now ≤ t
            → (now + config.challenge_minutes * 60 ≤ t)
              ⊎ ((Mfa.verify config.codes
                    (config.time_step t)
                    (config.ident u.id)
                    code
                    s'.factors).0
                  ≡ false)
            → let second = complete_mfa_login b bu bp config clock' t fresh' proof code device s' in
              (second.0 ≡ login_refused) × (second.1.sessions ≡ s'.sessions))
        × ((clock' : ℕ → Clock) (t : Time) (fresh' : Fresh) (code : Str) (s' : SignIns b bu bp)
              (r : User)
            → now ≤ t
            → t < now + config.challenge_minutes * 60
            → found_user b bu bp config clock' t u.id s' ≡ some r
            → (increment_failed_logins bu config.cache config.default_key clock' r
                s'.logins.users).0
              ≤ config.lock.max_failed_logins
            → (Mfa.verify config.codes (config.time_step t) (config.ident u.id) code s'.factors).0
              ≡ true
            → let second = complete_mfa_login b bu bp config clock' t fresh' proof code device s' in
              (pair : TokenPair T) × (permissions : List Str) × (second.0
                ≡ logged_in pair permissions fresh'.session_id)
              × (second.1.sessions
                  ≡ Sessions.open_session b config.cache config.cap
                      (clock' 20)
                      config.days
                      t
                      fresh'.session_id
                      r.id
                      device
                      remember
                      (some (config.hash_token pair.refresh_token))
                      s'.sessions))
  unfolding login_user
  login_user-two_factor signs clock now fresh name password device remember s u first on = (
    rw (login_user, second_step, first, on) (refl, refl),
    λ clock' t fresh' code s' begun why.
        complete-IsRefused signs now u.id remember clock' t fresh' code device s' begun why,
    λ clock' t fresh' code s' r begun live found few right.
        complete-accepted signs now u.id remember clock' t fresh' code device s' r begun live found
          few right,
  )
