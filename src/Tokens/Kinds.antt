-- ===== src/Tokens/Kinds.antt =====
-- A token passes as what it was issued as, for as long as it was issued for, and as nothing else
-- (app/services/auth/tokens.py).
use fast_api_boiler_plate.Base.{
  ℕ, ◌+◌, ◌*◌, ◌≤◌, ◌≡◌, refl, Bool, true, false, Option, none, some, List, if◌then◌else◌, Ident,
  Time, Str, ltb, inl, inr, Bool-cases, ap, ◌∙◌,
}
use fast_api_boiler_plate.Tokens.{
  Kind, access, refresh, mfa, TokenPayload, MfaClaims, Claims, payload, step, exp_of, iat_of,
  same_kind, Jwt, Config, of_kind, of_step, verify_token, verify_mfa_token, create_access_token,
  create_refresh_token, refresh_expiry, create_mfa_token, create_token_pair,
}

-- What is documented of the library: from its `iat` on, what was encoded with the secret is decoded
-- until it expires, and refused from then on.
abbrev pub IsSigning : {T : Type 0} → Jwt T → Type 0
IsSigning jwt =
    (t : Time) (c : Claims)
    → iat_of c ≤ t
    → jwt.decode t (jwt.encode c) ≡ (if ltb t (exp_of c) then some c else none)

-- The user and the session that a token names.
abbrev pub who : Option TokenPayload → Option (Str × Option Str)
who none = none
who (some p) = some (p.user_id, p.sid)

abbrev pub until_expiry {ℓ} : {A : Type ℓ} → Time → Time → A → Option A
until_expiry expiry t a = if ltb t expiry then some a else none

module _ {T : Type 0} (config : Config T) (signs : IsSigning config.jwt) where
  who-payload :
      (t : Time) (p : TokenPayload)
      → p.iat ≤ t
      → who (verify_token config t p.kind (config.jwt.encode (payload p)))
        ≡ until_expiry p.exp t (p.user_id, p.sid)
  unfolding verify_token
  who-payload t p begun = elim (Bool-cases (ltb t p.exp)) [
    | inl e ↦ ap (λ c. who (of_kind p.kind c)) (signs t (payload p) begun) ∙ rw e (same p.kind)
    | inr e ↦ ap (λ c. who (of_kind p.kind c)) (signs t (payload p) begun) ∙ rw e refl
  ]
    where
      same :
          (k : Kind)
          → who (of_kind k (some (payload (record p { kind = k })))) ≡ some (p.user_id, p.sid)
      same access = refl
      same refresh = refl
      same mfa = refl

  other-kind :
      (t : Time) (kind : Kind) (p : TokenPayload)
      → p.iat ≤ t
      → same_kind p.kind kind ≡ false
      → verify_token config t kind (config.jwt.encode (payload p)) ≡ none
  unfolding verify_token
  other-kind t kind p begun other = elim (Bool-cases (ltb t p.exp)) [
    | inl e ↦ ap (of_kind kind) (signs t (payload p) begun) ∙ rw (e, other) refl
    | inr e ↦ ap (of_kind kind) (signs t (payload p) begun) ∙ rw e refl
  ]

  not-step :
      (t : Time) (p : TokenPayload)
      → p.iat ≤ t
      → verify_mfa_token config t (config.jwt.encode (payload p)) ≡ none
  unfolding verify_mfa_token
  not-step t p begun = elim (Bool-cases (ltb t p.exp)) [
    | inl e ↦ ap of_step (signs t (payload p) begun) ∙ rw e refl
    | inr e ↦ ap of_step (signs t (payload p) begun) ∙ rw e refl
  ]

  step-not :
      (t : Time) (kind : Kind) (c : MfaClaims)
      → c.iat ≤ t
      → verify_token config t kind (config.jwt.encode (step c)) ≡ none
  unfolding verify_token
  step-not t kind c begun = elim (Bool-cases (ltb t c.exp)) [
    | inl e ↦ ap (of_kind kind) (signs t (step c) begun) ∙ rw e refl
    | inr e ↦ ap (of_kind kind) (signs t (step c) begun) ∙ rw e refl
  ]

  step-verified :
      (t : Time) (c : MfaClaims)
      → c.iat ≤ t
      → same_kind c.kind mfa ≡ true
      → verify_mfa_token config t (config.jwt.encode (step c)) ≡ until_expiry c.exp t (c.sub, c.rem)
  unfolding verify_mfa_token
  step-verified t c begun is_mfa = elim (Bool-cases (ltb t c.exp)) [
    | inl e ↦ ap of_step (signs t (step c) begun) ∙ rw (e, is_mfa) refl
    | inr e ↦ ap of_step (signs t (step c) begun) ∙ rw e refl
  ]

  -- The proof of a password step, read back.
  pub proof-read :
      (now t : Time) (user : Str) (remember_me : Bool) (minutes : ℕ)
      → now ≤ t
      → verify_mfa_token config t (create_mfa_token config now user remember_me minutes)
        ≡ until_expiry (now + minutes * 60) t (user, remember_me)
  unfolding create_mfa_token
  proof-read now t user remember_me minutes begun = step-verified t _ begun refl

  -- A token passes as what it was issued as and as nothing else. Where the library decodes what it
  -- signed until it expires, at every moment from the issue on: the access token of a pair is
  -- accepted as an access token, for the user and session it was issued for, exactly until the
  -- configured minutes are over, and the refresh token as a refresh token until its days are over,
  -- which depend on whether the user is to be remembered; neither is accepted as the other, nor as
  -- the proof of a password step. Such a proof is accepted as that until its minutes are over, for
  -- its user, and as neither of the other two.
  pub create_token_pair-kinds :
      (now t : Time) (jti jti' : Ident) (user username : Str) (roles : List Ident)
      (permissions : List Str) (remember_me : Bool) (sid : Option Str) (minutes : ℕ)
      → now ≤ t
      → let pair =
          create_token_pair config now jti jti' user username roles permissions remember_me sid in
        let proof = create_mfa_token config now user remember_me minutes in
        ((who (verify_token config t access pair.access_token)
            ≡ until_expiry (now + config.access_token_minutes * 60) t (user, sid))
          × (verify_token config t refresh pair.access_token ≡ none)
          × (verify_mfa_token config t pair.access_token ≡ none))
        × ((who (verify_token config t refresh pair.refresh_token)
              ≡ until_expiry (now + refresh_expiry config remember_me * 60) t (user, sid))
            × (verify_token config t access pair.refresh_token ≡ none)
            × (verify_mfa_token config t pair.refresh_token ≡ none))
        × ((verify_mfa_token config t proof
              ≡ until_expiry (now + minutes * 60) t (user, remember_me))
            × (verify_token config t access proof ≡ none)
            × (verify_token config t refresh proof ≡ none))
  unfolding create_token_pair create_access_token create_refresh_token create_mfa_token
  create_token_pair-kinds now t jti jti' user username roles permissions remember sid minutes
        begun =
      (
        (who-payload t _ begun, other-kind t refresh _ begun refl, not-step t _ begun),
        (who-payload t _ begun, other-kind t access _ begun refl, not-step t _ begun),
        (step-verified t _ begun refl, step-not t access _ begun, step-not t refresh _ begun),
      )
