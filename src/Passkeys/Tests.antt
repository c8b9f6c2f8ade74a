-- ===== src/Passkeys/Tests.antt =====
-- A sign-in with a passkey, and its replay (app/services/auth/passkeys.py).
use fast_api_boiler_plate.Base.{
  ◌+◌, ◌≡◌, refl, true, none, some, [], ◌∷◌, Ident, Time, Str, ◌==◌, if◌then◌else◌,
}
use fast_api_boiler_plate.Store.{get_record, delete_record}
use fast_api_boiler_plate.Passkeys.{
  Config, expired, refused, accepted, Ceremonies, for_login, consume_challenge, register,
  authenticate,
}
use fast_api_boiler_plate.Passkeys.Challenges.{challenge-once}

-- A credential is the challenge it answers.
abbrev pub config : Config
config = record {
  is_configured = true;
  challenge_lifetime = 300;
  max_passkeys = 20;
  id_of = λ credential. 7;
  verify_registration_response = λ credential challenge. none;
  verify_authentication_response =
      λ credential challenge key count. if credential == challenge then some (count + 1) else none;
}

abbrev ceremonies : Ceremonies
ceremonies = record {
  challenges =
      record { id = 1; purpose = for_login; user_id = none; challenge = 33; expires_at = 300 }
      ∷ record { id = 2; purpose = for_login; user_id = none; challenge = 34; expires_at = 300 }
      ∷ [];
  passkeys =
      record {
        id = 5;
        user_id = b'a' ∷ [];
        name = 0;
        credential_id = 7;
        public_key = 9;
        sign_count = 0;
        created_at = 0;
        last_used_at = none;
      }
      ∷ [];
}

signed_in : (authenticate config 10 1 33 ceremonies).0 ≡ accepted (b'a' ∷ [])
unfolding authenticate consume_challenge get_record delete_record
signed_in = refl

too_late : (authenticate config 301 1 33 ceremonies).0 ≡ refused expired
unfolding authenticate consume_challenge get_record delete_record
too_late = refl

challenge-once_example :
    (let s' = (authenticate config 10 1 33 ceremonies).1 in
      ((t : Time) (again : Ident) → authenticate config t 1 again s' ≡ (refused expired, s'))
      × ((t : Time) (i : Ident) (u : Str) (again n : Ident)
          → register config t i u 1 again n s' ≡ (refused expired, s')))
    × (let s' = (register config 10 6 (b'a' ∷ []) 1 33 0 ceremonies).1 in
        ((t : Time) (again : Ident) → authenticate config t 1 again s' ≡ (refused expired, s'))
        × ((t : Time) (i : Ident) (u : Str) (again n : Ident)
            → register config t i u 1 again n s' ≡ (refused expired, s')))
challenge-once_example =
    challenge-once config 10 1 33 6 (b'a' ∷ []) 0 ceremonies refl (refl, (refl, tt))
