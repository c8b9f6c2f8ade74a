-- ===== src/Middleware/BodyLimit/Whole.antt =====
-- What reaches the application of a body (app/api/middleware/body_limit.py).
use fast_api_boiler_plate.Base.{
  ℕ, ◌+◌, true, false, Option, none, some, List, [], ◌∷◌, length, if◌then◌else◌, Ident, Str,
}
use fast_api_boiler_plate.Middleware.BodyLimit.{
  Message, Ending, body_too_large, Application, Response, answered, problem, broken_off,
}

abbrev pub size : List Message → ℕ
size [] = 0
size (m ∷ ms) = length m.body + size ms

-- The messages of a body that is sent in these chunks.
abbrev pub messages : Str → List Str → List Message
messages c [] = record { body = c; more_body = false } ∷ []
messages c (d ∷ cs) = record { body = c; more_body = true } ∷ messages d cs

abbrev pub sent : List Message → List (Option Message)
sent [] = []
sent (m ∷ ms) = some m ∷ sent ms

-- The application's own response if it catches the exception, and else the other one.
abbrev pub unless_caught : Response → Option Ident → Response
unless_caught other none = other
unless_caught other (some response) = answered response

-- What answers a body over the limit if the exception leaves the application: 413, or nothing more
-- where its response has begun.
abbrev pub over_limit : Application → List Message → Response
over_limit app handed =
    unless_caught (if app.begins handed then broken_off else problem 413)
      (app.catches body_too_large handed)

-- The same behind the error handler: 413 becomes what the handler answers.
abbrev pub over_limit_handled : (Ending → Ident) → Application → List Message → Response
over_limit_handled http_response app handed =
    unless_caught
      (if app.begins handed then broken_off else answered (http_response body_too_large))
      (app.catches body_too_large handed)
