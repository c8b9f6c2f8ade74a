-- ===== src/Middleware/RateLimit/Client.antt =====
-- Whose requests are counted together (app/api/middleware/rate_limiter.py).
use fast_api_boiler_plate.Base.{
  ℕ, zero, suc, ◌-◌, ◌≡◌, refl, true, List, [], ◌∷◌, ◌++◌, Str, leb, length, length-append, arith,
}
use fast_api_boiler_plate.Cache.Service.{Backend, Settings, Clock, Service}
use fast_api_boiler_plate.Middleware.RateLimit.{Limits, nth, client_ip, handle}

nth-append :
    (d : Str) (forged real : List Str) → nth (length forged) d (forged ++ real) ≡ nth 0 d real
nth-append d [] real = refl
nth-append d (x ∷ forged) real = nth-append d forged real

client_ip-forged :
    (trusted : ℕ) (peer : Str) (forged real : List Str)
    → length real ≡ trusted
    → client_ip trusted peer (forged ++ real) ≡ client_ip trusted peer real
unfolding client_ip
client_ip-forged zero peer forged real e = refl
client_ip-forged (suc n) peer forged real e =
    let long : leb (suc n) (length (forged ++ real)) ≡ true =
      ground (arith, length-append forged real) in
    let own : leb (suc n) (length real) ≡ true = ground arith in
    let there : length (forged ++ real) - suc n ≡ length forged =
      omega (arith, length-append forged real, e) in
    let first : length real - suc n ≡ 0 = omega arith in
    rw (long, own, there, first) (nth-append peer forged real)

module _ {V : Type 0} (b : Backend V) (cfg : Settings) (limits : Limits) (trusted : ℕ) where
  -- A caller cannot escape its limit by a forged header: whatever entries it puts in front of the
  -- ones that the trusted proxies wrote, the request is counted and answered as without them.
  pub handle-forged :
      (clock : Clock) (method path peer : Str) (forged real : List Str) (s : Service b)
      → length real ≡ trusted
      → handle b cfg limits trusted clock method path peer (forged ++ real) s
        ≡ handle b cfg limits trusted clock method path peer real s
  unfolding handle
  handle-forged clock method path peer forged real s e =
      rw (client_ip-forged trusted peer forged real e) refl
