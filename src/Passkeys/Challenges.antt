-- ===== src/Passkeys/Challenges.antt =====
-- A challenge of a passkey ceremony is spent by its first use (app/services/auth/passkeys.py).
use fast_api_boiler_plate.Base.{
  ◌≡◌, refl, true, false, Option, none, some, List, [], ◌∷◌, arith, Ident, Time, Str, ◌==◌, any,
  inl, inr, Bool-cases, Option-cases, ap, ◌∙◌,
}
use fast_api_boiler_plate.Store.{get_record, delete_record}
use fast_api_boiler_plate.Store.Keys.{Distinct}
use fast_api_boiler_plate.Passkeys.{
  Challenge, Passkey, Config, expired, refused, Ceremonies, Purpose, for_register, for_login,
  has_id, consume_challenge, register_with, register, insert_passkey, sign_in_with,
  authenticate_with, authenticate, new_passkey,
}

abbrev pub challenge_key : Challenge → Ident
challenge_key c = c.id

-- No challenge of that id is left.
abbrev pub IsSpent : Ident → Ceremonies → Type 0
IsSpent id s = get_record (has_id id) s.challenges ≡ none

get-absent :
    (id : Ident) (cs : List Challenge)
    → any (has_id id) cs ≡ false
    → get_record (has_id id) cs ≡ none
unfolding get_record
get-absent id [] h = refl
get-absent id (c ∷ cs) h = ground (arith, get-absent id cs)

absent-of-key :
    (id k : Ident) (cs : List Challenge)
    → (k == id) ≡ true
    → any (λ e. e.id == k) cs ≡ false
    → any (has_id id) cs ≡ false
absent-of-key id k [] e h = refl
absent-of-key id k (c ∷ cs) e h = ground (arith, absent-of-key id k cs e)

delete-absent :
    (id : Ident) (cs : List Challenge)
    → Distinct challenge_key cs
    → get_record (has_id id) (delete_record (has_id id) cs).0 ≡ none
unfolding get_record delete_record
delete-absent id [] h = refl
delete-absent id (c ∷ cs) h = elim (Bool-cases (c.id == id)) [
  | inl e ↦ rw e (get-absent id cs (absent-of-key id c.id cs e h.0))
  | inr e ↦ rw (e, e) (delete-absent id cs h.1)
]

consume-IsSpent :
    (now : Time) (id : Ident) (purpose : Purpose) (user : Option Str) (s : Ceremonies)
    → Distinct challenge_key s.challenges
    → IsSpent id (consume_challenge now id purpose user s).1
unfolding consume_challenge
consume-IsSpent now id purpose user s h =
    elim (Option-cases (get_record (has_id id) s.challenges)) [
      | inl e ↦ rw (consume_challenge, e) e
      | inr (c, e) ↦ rw (consume_challenge, e) (delete-absent id s.challenges h)
    ]

spent-refused :
    (now : Time) (id : Ident) (purpose : Purpose) (user : Option Str) (s : Ceremonies)
    → IsSpent id s
    → consume_challenge now id purpose user s ≡ (none, s)
unfolding consume_challenge
spent-refused now id purpose user s e = rw (consume_challenge, e) refl

module _ (config : Config) where
  insert-challenges :
      (p : Passkey) (s : Ceremonies) → (insert_passkey p s).1.challenges ≡ s.challenges
  insert-challenges p s = ground arith

  register_with-challenges :
      (now : Time) (id : Ident) (user : Str) (credential name : Ident)
      (consumed : Option Ident × Ceremonies)
      → (register_with config now id user credential name consumed).1.challenges
        ≡ consumed.1.challenges
  register_with-challenges now id user credential name (none, s) = refl
  register_with-challenges now id user credential name (some challenge, s) =
      elim (Option-cases (config.verify_registration_response credential challenge)) [
        | inl e ↦ rw (register_with, e) refl
        | inr (v, e) ↦ rw (register_with, e) (insert-challenges (new_passkey now id user name v) s)
      ]

  sign_in-challenges :
      (now : Time) (credential challenge : Ident) (s : Ceremonies) (found : Option Passkey)
      → (sign_in_with config now credential challenge s found).1.challenges ≡ s.challenges
  sign_in-challenges now credential challenge s none = refl
  sign_in-challenges now credential challenge s (some p) =
      elim (Option-cases
        (config.verify_authentication_response credential challenge p.public_key p.sign_count)) [
          | inl e ↦ rw (sign_in_with, e) refl
          | inr (count, e) ↦ rw (sign_in_with, e) refl
        ]

  authenticate_with-challenges :
      (now : Time) (credential : Ident) (consumed : Option Ident × Ceremonies)
      → (authenticate_with config now credential consumed).1.challenges ≡ consumed.1.challenges
  authenticate_with-challenges now credential (none, s) = refl
  authenticate_with-challenges now credential (some challenge, s) =
      sign_in-challenges now credential challenge s
        (get_record (λ p. p.credential_id == config.id_of credential) s.passkeys)

  register-IsSpent :
      (now : Time) (id : Ident) (user : Str) (challenge_id credential name : Ident) (s : Ceremonies)
      → config.is_configured ≡ true
      → Distinct challenge_key s.challenges
      → IsSpent challenge_id (register config now id user challenge_id credential name s).1
  unfolding register
  register-IsSpent now id user challenge_id credential name s on h =
      rw (register, on)
        (ap (get_record (has_id challenge_id)) (
            register_with-challenges now id user credential name
              (consume_challenge now challenge_id for_register (some user) s))
          ∙ consume-IsSpent now challenge_id for_register (some user) s h)

  authenticate-IsSpent :
      (now : Time) (challenge_id credential : Ident) (s : Ceremonies)
      → config.is_configured ≡ true
      → Distinct challenge_key s.challenges
      → IsSpent challenge_id (authenticate config now challenge_id credential s).1
  unfolding authenticate
  authenticate-IsSpent now challenge_id credential s on h =
      rw (authenticate, on)
        (ap (get_record (has_id challenge_id)) (
            authenticate_with-challenges now credential
              (consume_challenge now challenge_id for_login none s))
          ∙ consume-IsSpent now challenge_id for_login none s h)

  abbrev Refuses : Ident → Ceremonies → Type 0
  Refuses challenge_id s =
      ((now : Time) (credential : Ident)
        → authenticate config now challenge_id credential s ≡ (refused expired, s))
      × ((now : Time) (id : Ident) (user : Str) (credential name : Ident)
          → register config now id user challenge_id credential name s ≡ (refused expired, s))

  spent-Refuses :
      (challenge_id : Ident) (s : Ceremonies)
      → config.is_configured ≡ true
      → IsSpent challenge_id s
      → Refuses challenge_id s
  unfolding authenticate register
  spent-Refuses challenge_id s on spent = (
    λ now credential.
        rw (authenticate, on, spent-refused now challenge_id for_login none s spent) refl,
    λ now id user credential name.
        rw (register, on, spent-refused now challenge_id for_register (some user) s spent) refl,
  )

  -- A passkey response cannot be replayed. Where passkeys are configured and no two stored
  -- challenges share an id, a challenge is spent by the first sign-in or registration that names it,
  -- whatever the outcome of that one: afterwards every sign-in and every registration with that
  -- challenge, by anyone and at any time, is refused as expired and changes nothing.
  pub challenge-once :
      (now : Time) (challenge_id credential : Ident) (id : Ident) (user : Str) (name : Ident)
      (s : Ceremonies)
      → config.is_configured ≡ true
      → Distinct challenge_key s.challenges
      → (let s' = (authenticate config now challenge_id credential s).1 in
          ((t : Time) (again : Ident)
            → authenticate config t challenge_id again s' ≡ (refused expired, s'))
          × ((t : Time) (i : Ident) (u : Str) (again n : Ident)
              → register config t i u challenge_id again n s' ≡ (refused expired, s')))
        × (let s' = (register config now id user challenge_id credential name s).1 in
            ((t : Time) (again : Ident)
              → authenticate config t challenge_id again s' ≡ (refused expired, s'))
            × ((t : Time) (i : Ident) (u : Str) (again n : Ident)
                → register config t i u challenge_id again n s' ≡ (refused expired, s')))
  challenge-once now challenge_id credential id user name s on h = (
    spent-Refuses challenge_id (authenticate config now challenge_id credential s).1 on
        (authenticate-IsSpent now challenge_id credential s on h),
    spent-Refuses challenge_id (register config now id user challenge_id credential name s).1 on
        (register-IsSpent now id user challenge_id credential name s on h),
  )
