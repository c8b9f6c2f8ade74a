-- ===== src/Middleware/Csrf/Tests.antt =====
-- A request with a cookie from another site (app/api/middleware/csrf.py).
use fast_api_boiler_plate.Base.{
  ◌≡◌, refl, true, false, none, some, [], ◌∷◌, Str, codes, str_eq, if◌then◌else◌,
}
use fast_api_boiler_plate.Middleware.Csrf.{Texts, Request, allowed, is_trusted, passes}

abbrev texts : Texts
texts = record {
  urlsplit = λ s.
      if str_eq s (codes "https://evil")
      then (codes "https", codes "evil")
      else (codes "https", codes "app");
  lower = λ s. s;
}

abbrev from : Str → Request
from origin = record {
  is_http = true;
  method = codes "POST";
  authorization = none;
  cookie = some (codes "a=b");
  origin = some origin;
  referer = none;
  host = some (codes "api");
}

forged : passes texts (codes "https://app/" ∷ []) (from (codes "https://evil")) ≡ false
unfolding passes is_trusted allowed str_eq
forged = refl

trusted : passes texts (codes "https://app/" ∷ []) (from (codes "https://app")) ≡ true
unfolding passes is_trusted allowed str_eq
trusted = refl
