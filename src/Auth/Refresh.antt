-- ===== src/Auth/Refresh.antt =====
-- Rotation of refresh tokens (app/services/auth/service.py, `refresh_tokens`).
--
-- A token is a number. The signature check, which reads a token's claims, and SHA-256 are
-- parameters; the new pair of tokens is an argument, since it is drawn by the signer. The permissions
-- that the new access token carries are left out.
use fast_api_boiler_plate.Base.{
  ℕ, ◌+◌, Bool, true, false, not, ◌&&◌, ◌||◌, Option, none, some, [], ◌∷◌, if◌then◌else◌, Ident,
  Time, Str, str_eq, leb, opt_eq, is_some,
}
use fast_api_boiler_plate.Cache.Service.{Backend, Settings, Clock}
use fast_api_boiler_plate.Data.{Data}
use fast_api_boiler_plate.Users.{User, Field, get_user_by_id}
use fast_api_boiler_plate.Sessions.{
  Session, is_session_active, get_session, update_session, revoke_session,
}
use fast_api_boiler_plate.Auth.{is_enabled}

-- The claims of a refresh token.
pub record Payload : Type 0 where
  pub user_id : Str
  pub sid : Option Str

pub record Tokens : Type 0 where
  pub verify_token : Ident → Option Payload
  pub hash_token : Ident → Ident

-- `_is_current_refresh_token`
unfoldable pub is_current_refresh_token : Time → Time → Session → Ident → Bool
is_current_refresh_token grace now s presented =
    opt_eq s.refresh_token_hash (some presented)
    || (opt_eq s.previous_refresh_token_hash (some presented)
        && (elim s.rotated_at [ none ↦ false | some t ↦ leb now (t + grace) ]))

-- What a rotation writes.
abbrev pub rotate : Time → Ident → Option Ident → Session → Session
rotate now fresh_hash old s = record s {
  refresh_token_hash = some fresh_hash;
  previous_refresh_token_hash = old;
  rotated_at = some now;
  last_used_at = now;
}

module _ (b : Backend Session) (bu : Backend User) where
  pub record State : Type 0 where
    pub sessions : Data b
    pub users : Data bu

-- The clocks of one request: the cache's, by the number of the access.
module _ (b : Backend Session) (bu : Backend User) (cfg : Settings) (cap : ℕ)
    (default_key : Field → Str → Str) (tokens : Tokens) (grace : Time) (clock : ℕ → Clock)
    (now : Time) where
  -- The session is revoked and the error raised.
  abbrev pub revoke : Str → State b bu → Option Ident × State b bu
  revoke sid s =
      (none, record s { sessions = (revoke_session b cfg cap (clock 2) now sid s.sessions).1 })

  -- The user is read through the cache, and past it for the account's state.
  unfoldable pub rotate_tokens :
      Str → Str → Ident → Session → State b bu → Option Ident × State b bu
  rotate_tokens user sid fresh session s =
      let (cached, users) =
        get_user_by_id bu cfg default_key (clock 3) (clock 4) user false s.users in
      let (stored, users') =
        get_user_by_id bu cfg default_key (clock 5) (clock 5) user true users in
      let s' : State b bu = record s { users = users' } in
      let enabled : Bool = elim stored [ none ↦ false | some u ↦ is_enabled u ] in
      if is_some cached && enabled
      then (
        some fresh,
        record s' {
          sessions =
              (update_session b cfg cap (clock 2) now sid
                (rotate now (tokens.hash_token fresh) session.refresh_token_hash) s'.sessions).1;
        },
      )
      else revoke sid s'

  abbrev pub with_session :
      Str → Str → Ident → Ident → Option Session × State b bu → Option Ident × State b bu
  with_session user sid presented fresh (none, s) = (none, s)
  with_session user sid presented fresh (some session, s) =
      if not (is_session_active now (some session) && str_eq session.user_id user)
      then (none, s)
      else (if is_current_refresh_token grace now session presented
          then rotate_tokens user sid fresh session s
          else revoke sid s)

  -- The session is found by the claim `sid`; the empty text is no claim.
  abbrev pub with_claims : Option Payload → Ident → Ident → State b bu → Option Ident × State b bu
  with_claims none presented fresh s = (none, s)
  with_claims (some p) presented fresh s = elim p.sid [
    | none ↦ (none, s)
    | some sid ↦ elim sid [
      | [] ↦ (none, s)
      | c ∷ cs ↦
          let (found, sessions) = get_session b cfg cap (clock 0) (clock 1) (c ∷ cs) s.sessions in
          with_session p.user_id (c ∷ cs) presented fresh (found, record s { sessions = sessions })
    ]
  ]

  unfoldable pub refresh_tokens : Ident → Ident → State b bu → Option Ident × State b bu
  unfolding is_current_refresh_token is_session_active rotate_tokens
  refresh_tokens token fresh s =
      with_claims (tokens.verify_token token) (tokens.hash_token token) fresh s
