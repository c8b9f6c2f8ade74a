-- ===== src/Tokens.antt =====
-- The signed tokens of a sign-in (app/services/auth/tokens.py).
--
-- Signing and decoding are the `jwt` library's: an argument, `Jwt`, with what it decodes. Claims are
-- the ones the code writes; a token's own random id makes it distinct and is one of them. Times are
-- in seconds, and what a token is, a text in the code, is a parameter.
pub mod Kinds
pub mod Tests
use fast_api_boiler_plate.Base.{
  ℕ, ◌+◌, ◌*◌, Bool, true, false, not, Option, none, some, List, [], ◌∷◌, if◌then◌else◌, Ident,
  Time, Str, ltb,
}

-- The `type` claim.
pub data Kind : Type 0 where
  access refresh mfa : Kind

abbrev pub same_kind : Kind → Kind → Bool
same_kind access access = true
same_kind refresh refresh = true
same_kind mfa mfa = true
same_kind access refresh = false
same_kind access mfa = false
same_kind refresh access = false
same_kind refresh mfa = false
same_kind mfa access = false
same_kind mfa refresh = false

-- `TokenPayload`: the claims of an access or refresh token.
pub record TokenPayload : Type 0 where
  pub user_id : Str
  pub username : Str
  pub roles : List Ident
  pub permissions : List Str
  pub exp : Time
  pub iat : Time
  pub kind : Kind
  pub sid : Option Str
  pub jti : Ident
  pub remember_me : Bool

-- The claims of the proof that the password step succeeded.
pub record MfaClaims : Type 0 where
  pub sub : Str
  pub kind : Kind
  pub rem : Bool
  pub iat : Time
  pub exp : Time

-- What a token carries: the claims of `TokenPayload`, or those of the password step, which
-- `TokenPayload` does not accept, as they name no user id.
pub data Claims : Type 0 where
  payload : TokenPayload → Claims
  step : MfaClaims → Claims

abbrev pub exp_of : Claims → Time
exp_of (payload p) = p.exp
exp_of (step c) = c.exp

abbrev pub iat_of : Claims → Time
iat_of (payload p) = p.iat
iat_of (step c) = c.iat

-- `jwt.encode` and, at a moment, `jwt.decode`: `none` for a token that is expired, is not signed
-- with the secret, or lacks a required claim.
pub record Jwt (Token : Type 0) : Type 0 where
  pub encode : Claims → Token
  pub decode : Time → Token → Option Claims

pub record Config (Token : Type 0) : Type 0 where
  pub jwt : Jwt Token
  pub access_token_minutes : ℕ
  pub refresh_token_days : ℕ
  pub remember_me_days : ℕ

pub record TokenPair (Token : Type 0) : Type 0 where
  pub access_token : Token
  pub refresh_token : Token
  pub expires_in : ℕ

unfoldable pub create_access_token :
    {T : Type 0} → Config T → Time → Ident → Str → Str → List Ident → List Str → Option Str → T
create_access_token config now jti user username roles permissions sid = config.jwt.encode (
    payload (record {
      user_id = user;
      username = username;
      roles = roles;
      permissions = permissions;
      exp = now + config.access_token_minutes * 60;
      iat = now;
      kind = access;
      sid = sid;
      jti = jti;
      remember_me = false;
    }))

-- In minutes.
abbrev pub refresh_expiry : {T : Type 0} → Config T → Bool → ℕ
refresh_expiry config true = config.remember_me_days * 24 * 60
refresh_expiry config false = config.refresh_token_days * 24 * 60

unfoldable pub create_refresh_token :
    {T : Type 0} → Config T → Time → Ident → Str → Bool → Option Str → T
create_refresh_token config now jti user remember_me sid = config.jwt.encode (
    payload (record {
      user_id = user;
      username = [];
      roles = [];
      permissions = [];
      exp = now + refresh_expiry config remember_me * 60;
      iat = now;
      kind = refresh;
      sid = sid;
      jti = jti;
      remember_me = remember_me;
    }))

abbrev pub of_kind : Kind → Option Claims → Option TokenPayload
of_kind kind none = none
of_kind kind (some (step c)) = none
of_kind kind (some (payload p)) = if same_kind p.kind kind then some p else none

unfoldable pub verify_token : {T : Type 0} → Config T → Time → Kind → T → Option TokenPayload
verify_token config now kind token = of_kind kind (config.jwt.decode now token)

unfoldable pub create_mfa_token : {T : Type 0} → Config T → Time → Str → Bool → ℕ → T
create_mfa_token config now user remember_me minutes = config.jwt.encode (
    step
      (record { sub = user; kind = mfa; rem = remember_me; iat = now; exp = now + minutes * 60 }))

-- `sub` is required, and a `TokenPayload` has none.
abbrev pub of_step : Option Claims → Option (Str × Bool)
of_step none = none
of_step (some (payload p)) = none
of_step (some (step c)) = if same_kind c.kind mfa then some (c.sub, c.rem) else none

unfoldable pub verify_mfa_token : {T : Type 0} → Config T → Time → T → Option (Str × Bool)
verify_mfa_token config now token = of_step (config.jwt.decode now token)

unfoldable pub create_token_pair :
    {T : Type 0}
    → Config T
    → Time
    → Ident
    → Ident
    → Str
    → Str
    → List Ident
    → List Str
    → Bool
    → Option Str
    → TokenPair T
unfolding create_access_token create_refresh_token
create_token_pair config now jti jti' user username roles permissions remember_me sid = record {
  access_token = create_access_token config now jti user username roles permissions sid;
  refresh_token = create_refresh_token config now jti' user remember_me sid;
  expires_in = config.access_token_minutes * 60;
}
