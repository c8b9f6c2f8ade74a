-- ===== src/Middleware/Csrf.antt =====
-- The origin check against cross-site requests (app/api/middleware/csrf.py).
--
-- `urlsplit` and `str.lower` are parameters. Of the headers only those that the check looks at are
-- modelled; the body of the 403 answer is left out.
pub mod Tests
use fast_api_boiler_plate.Base.{
  ℕ, Bool, true, false, not, ◌&&◌, ◌||◌, Option, none, some, List, [], ◌∷◌, ◌++◌, if◌then◌else◌,
  Str, codes, str_eq, is_some, any, map, length, ◌==◌,
}

-- `urlsplit(source)`: the scheme and the network location.
pub record Texts : Type 0 where
  pub urlsplit : Str → Str × Str
  pub lower : Str → Str

pub record Request : Type 0 where
  pub is_http : Bool
  pub method : Str
  pub authorization : Option Str
  pub cookie : Option Str
  pub origin : Option Str
  pub referer : Option Str
  pub host : Option Str

abbrev pub is_safe : Str → Bool
is_safe method = any (str_eq method) (codes "GET" ∷ codes "HEAD" ∷ codes "OPTIONS" ∷ [])

abbrev pub rstrip_slash : Str → Str
rstrip_slash [] = []
rstrip_slash (c ∷ s) =
    let rest = rstrip_slash s in if c == b'/' && length rest == 0 then [] else c ∷ rest

-- `self.allowed`
unfoldable pub allowed : Texts → List Str → List Str
allowed texts origins = map (λ o. texts.lower (rstrip_slash o)) origins

abbrev pub or_empty : Option Str → Str
or_empty none = []
or_empty (some s) = s

-- `headers.get(b"origin") or headers.get(b"referer")`; an empty one is none.
abbrev pub source_of : Option Str → Option Str → Str
source_of none referer = or_empty referer
source_of (some []) referer = or_empty referer
source_of (some (c ∷ s)) referer = c ∷ s

unfoldable pub is_trusted : Texts → List Str → Str → Str → Bool
is_trusted texts allowed source host =
    let (scheme, netloc) = texts.urlsplit source in
    not (length scheme == 0 || length netloc == 0)
    && (any (str_eq (texts.lower (scheme ++ codes "://" ++ netloc))) allowed
        || str_eq (texts.lower netloc) (texts.lower host))

-- Whether the application is called; if not, the answer is 403.
unfoldable pub passes : Texts → List Str → Request → Bool
unfolding is_trusted allowed
passes texts origins r =
    if not r.is_http || is_safe r.method
    then true
    else if is_some r.authorization || not (is_some r.cookie)
    then true
    else let source = source_of r.origin r.referer in
      length source == 0 || is_trusted texts (allowed texts origins) source (or_empty r.host)
