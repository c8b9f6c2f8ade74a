-- ===== src/Passkeys.antt =====
-- Passkeys and the single-use challenges of their ceremonies (app/services/auth/passkeys.py).
--
-- Challenges and passkeys are stored in the database alone. What the `webauthn` library verifies is
-- a parameter, and a credential is known by a number, as are keys and challenges; the options a
-- browser is given and the audit trail are left out.
pub mod Challenges
pub mod Tests
use fast_api_boiler_plate.Base.{
  ℕ, zero, suc, ◌+◌, Bool, true, false, not, ◌&&◌, ◌||◌, Option, none, some, List, [], ◌∷◌, ◌++◌,
  if◌then◌else◌, Ident, Time, Str, str_eq, ltb, leb, ◌==◌, any, length, select, take,
}
use fast_api_boiler_plate.Store.{get_record, update_record, delete_record}
use fast_api_boiler_plate.Paging.{newest_first}

pub data Purpose : Type 0 where
  for_register for_login : Purpose

abbrev pub same_purpose : Purpose → Purpose → Bool
same_purpose for_register for_register = true
same_purpose for_register for_login = false
same_purpose for_login for_register = false
same_purpose for_login for_login = true

abbrev pub same_user : Option Str → Option Str → Bool
same_user none none = true
same_user none (some u) = false
same_user (some u) none = false
same_user (some u) (some v) = str_eq u v

pub record Challenge : Type 0 where
  pub id : Ident
  pub purpose : Purpose
  pub user_id : Option Str
  pub challenge : Ident
  pub expires_at : Time

pub record Passkey : Type 0 where
  pub id : Ident
  pub user_id : Str
  pub name : Ident
  pub credential_id : Ident
  pub public_key : Ident
  pub sign_count : ℕ
  pub created_at : Time
  pub last_used_at : Option Time

pub record Verified : Type 0 where
  pub credential_id : Ident
  pub credential_public_key : Ident
  pub sign_count : ℕ

-- The settings, and what `webauthn` verifies: a registration answer against a challenge, and a
-- sign-in answer against a challenge, a public key and a signature count.
pub record Config : Type 0 where
  pub is_configured : Bool
  pub challenge_lifetime : Time
  pub max_passkeys : ℕ
  pub id_of : Ident → Ident
  pub verify_registration_response : Ident → Ident → Option Verified
  pub verify_authentication_response : Ident → Ident → Ident → ℕ → Option ℕ

pub data PasskeyError : Type 0 where
  not_configured too_many expired not_verified already_registered not_registered : PasskeyError

pub data Answer {ℓ} (A : Type ℓ) : Type ℓ where
  refused : PasskeyError → Answer A
  accepted : A → Answer A

pub record Ceremonies : Type 0 where
  pub challenges : List Challenge
  pub passkeys : List Passkey

abbrev pub has_id : Ident → Challenge → Bool
has_id id c = c.id == id

-- `_issue_challenge`: `id` and `challenge` are drawn at random.
unfoldable pub issue_challenge :
    Config → Time → Ident → Ident → Purpose → Option Str → Ceremonies → Ceremonies
issue_challenge config now id challenge purpose user s = record s {
  challenges =
      s.challenges
      ++ record {
        id = id;
        purpose = purpose;
        user_id = user;
        challenge = challenge;
        expires_at = now + config.challenge_lifetime;
      }
        ∷ [];
}

abbrev pub fits : Time → Purpose → Option Str → Challenge → Bool
fits now purpose user c =
    same_purpose c.purpose purpose && same_user c.user_id user && not (ltb c.expires_at now)

-- `_consume_challenge`: deleted before it is checked. `none` is the refusal.
unfoldable pub consume_challenge :
    Time → Ident → Purpose → Option Str → Ceremonies → Option Ident × Ceremonies
consume_challenge now id purpose user s = elim (get_record (has_id id) s.challenges) [
  | none ↦ (none, s)
  | some c ↦
      let deleted = delete_record (has_id id) s.challenges in
      (
        if deleted.1 && fits now purpose user c then some c.challenge else none,
        record s { challenges = deleted.0 },
      )
]

-- `_for_user`: newest first.
unfoldable pub for_user : Config → Str → List Passkey → List Passkey
for_user config user ps =
    take config.max_passkeys
      (newest_first (λ p. (p.created_at, 0)) (select (λ p. str_eq p.user_id user) ps))

unfoldable pub registration_options :
    Config → Time → Ident → Ident → Str → Ceremonies → Answer Ident × Ceremonies
unfolding issue_challenge for_user
registration_options config now id challenge user s =
    if not config.is_configured
    then (refused not_configured, s)
    else if leb config.max_passkeys (length (for_user config user s.passkeys))
    then (refused too_many, s)
    else (accepted id, issue_challenge config now id challenge for_register (some user) s)

abbrev pub new_passkey : Time → Ident → Str → Ident → Verified → Passkey
new_passkey now id user name v = record {
  id = id;
  user_id = user;
  name = name;
  credential_id = v.credential_id;
  public_key = v.credential_public_key;
  sign_count = v.sign_count;
  created_at = now;
  last_used_at = none;
}

-- The collection has a unique index on the credential.
abbrev pub insert_passkey : Passkey → Ceremonies → Answer Passkey × Ceremonies
insert_passkey p s =
    if any (λ q. q.credential_id == p.credential_id) s.passkeys
    then (refused already_registered, s)
    else (accepted p, record s { passkeys = s.passkeys ++ p ∷ [] })

abbrev pub register_with :
    Config
    → Time
    → Ident
    → Str
    → Ident
    → Ident
    → Option Ident × Ceremonies
    → Answer Passkey × Ceremonies
register_with config now id user credential name (none, s) = (refused expired, s)
register_with config now id user credential name (some challenge, s) =
    elim (config.verify_registration_response credential challenge) [
      | none ↦ (refused not_verified, s)
      | some v ↦ insert_passkey (new_passkey now id user name v) s
    ]

unfoldable pub register :
    Config → Time → Ident → Str → Ident → Ident → Ident → Ceremonies → Answer Passkey × Ceremonies
unfolding consume_challenge
register config now id user challenge_id credential name s =
    if not config.is_configured
    then (refused not_configured, s)
    else register_with config now id user credential name
        (consume_challenge now challenge_id for_register (some user) s)

-- `remove`: only the user's own.
unfoldable pub remove : Str → Ident → Ceremonies → Bool × Ceremonies
remove user id s =
    let deleted = delete_record (λ p. p.id == id && str_eq p.user_id user) s.passkeys in
    (deleted.1, record s { passkeys = deleted.0 })

unfoldable pub authentication_options :
    Config → Time → Ident → Ident → Ceremonies → Answer Ident × Ceremonies
unfolding issue_challenge
authentication_options config now id challenge s =
    if not config.is_configured
    then (refused not_configured, s)
    else (accepted id, issue_challenge config now id challenge for_login none s)

abbrev pub sign_in_with :
    Config → Time → Ident → Ident → Ceremonies → Option Passkey → Answer Str × Ceremonies
sign_in_with config now credential challenge s none = (refused not_registered, s)
sign_in_with config now credential challenge s (some p) =
    elim (config.verify_authentication_response credential challenge p.public_key p.sign_count) [
      | none ↦ (refused not_verified, s)
      | some count ↦ (
        accepted p.user_id,
        record s {
          passkeys =
              (update_record (λ q. q.id == p.id)
                (λ q. record q { sign_count = count; last_used_at = some now }) s.passkeys).0;
        },
      )
    ]

abbrev pub authenticate_with :
    Config → Time → Ident → Option Ident × Ceremonies → Answer Str × Ceremonies
authenticate_with config now credential (none, s) = (refused expired, s)
authenticate_with config now credential (some challenge, s) =
    sign_in_with config now credential challenge s
      (get_record (λ p. p.credential_id == config.id_of credential) s.passkeys)

-- The user that a passkey signs in.
unfoldable pub authenticate : Config → Time → Ident → Ident → Ceremonies → Answer Str × Ceremonies
unfolding consume_challenge
authenticate config now challenge_id credential s =
    if not config.is_configured
    then (refused not_configured, s)
    else authenticate_with config now credential
        (consume_challenge now challenge_id for_login none s)
