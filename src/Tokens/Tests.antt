-- ===== src/Tokens/Tests.antt =====
-- A pair of tokens, whose signing keeps the claims as they are (app/services/auth/tokens.py).
use fast_api_boiler_plate.Base.{
  ◌+◌, ◌*◌, ◌≡◌, refl, true, false, ◌&&◌, Option, none, some, [], Time, codes, if◌then◌else◌, ltb,
  leb, arith,
}
use fast_api_boiler_plate.Tokens.{
  Claims, Jwt, Config, exp_of, iat_of, access, refresh, verify_token, verify_mfa_token,
  create_token_pair, create_mfa_token, create_access_token, refresh_expiry,
}
use fast_api_boiler_plate.Tokens.Kinds.{IsSigning, who, until_expiry, create_token_pair-kinds}

abbrev read_claims : Time → Claims → Option Claims
read_claims t c = if leb (iat_of c) t && ltb t (exp_of c) then some c else none

abbrev pub jwt : Jwt Claims
jwt = record { encode = λ c. c; decode = read_claims }

abbrev pub config : Config Claims
config = record {
  jwt = jwt;
  access_token_minutes = 15;
  refresh_token_days = 7;
  remember_me_days = 30;
}

pub signs : IsSigning jwt
signs t c begun = let on : leb (iat_of c) t ≡ true = ground arith in rw on refl

-- The access token is dead after its quarter of an hour.
stale_access :
    verify_token config 1000 access
      (create_token_pair config 100 1 2 (codes "u") (codes "ann") [] [] false none).access_token
    ≡ none
unfolding verify_token create_token_pair create_access_token
stale_access = refl

create_token_pair-kinds_example :
    let pair =
      create_token_pair config 100 1 2 (codes "u") (codes "ann") [] [] true (some (codes "s")) in
    let proof = create_mfa_token config 100 (codes "u") true 5 in
    ((who (verify_token config 200 access pair.access_token)
        ≡ until_expiry (100 + config.access_token_minutes * 60) 200 (codes "u", some (codes "s")))
      × (verify_token config 200 refresh pair.access_token ≡ none)
      × (verify_mfa_token config 200 pair.access_token ≡ none))
    × ((who (verify_token config 200 refresh pair.refresh_token)
          ≡ until_expiry (100 + refresh_expiry config true * 60) 200 (codes "u", some (codes "s")))
        × (verify_token config 200 access pair.refresh_token ≡ none)
        × (verify_mfa_token config 200 pair.refresh_token ≡ none))
    × ((verify_mfa_token config 200 proof ≡ until_expiry (100 + 5 * 60) 200 (codes "u", true))
        × (verify_token config 200 access proof ≡ none)
        × (verify_token config 200 refresh proof ≡ none))
create_token_pair-kinds_example =
    create_token_pair-kinds config signs 100 200 1 2 (codes "u") (codes "ann") [] [] true
      (some (codes "s")) 5 (ground arith)
