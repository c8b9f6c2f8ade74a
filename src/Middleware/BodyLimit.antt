-- ===== src/Middleware/BodyLimit.antt =====
-- The limit on the size of a request's body (app/api/middleware/body_limit.py).
--
-- The messages of the body come as a list; after its end only the signal of a disconnected client is
-- left. The application is a parameter: how many messages it receives, whether it has begun its
-- response by then, and its response. `none` among the messages is a client that stalls.
pub mod Whole
pub mod Tests
use fast_api_boiler_plate.Base.{
  ℕ, zero, suc, ◌+◌, Bool, true, false, not, ◌&&◌, Option, none, some, List, [], ◌∷◌, if◌then◌else◌,
  Ident, Str, ltb, length,
}

-- A message `http.request`: its body and `more_body`.
pub record Message : Type 0 where
  pub body : Str
  pub more_body : Bool

-- What the application's calls of `counting_receive` give: the messages that it was handed, and how
-- they ended.
pub data Ending : Type 0 where
  received body_too_large body_stalled : Ending

pub record Counted : Type 0 where
  pub handed : List Message
  pub ending : Ending

abbrev pub hand : Message → Counted → Counted
hand m c = record c { handed = m ∷ c.handed }

-- `counting_receive`, as often as the application asks, from `total` bytes on.
unfoldable pub receive_all : ℕ → ℕ → ℕ → List (Option Message) → Counted
receive_all limit zero total ms = record { handed = []; ending = received }
receive_all limit (suc n) total [] = record { handed = []; ending = received }
receive_all limit (suc n) total (none ∷ ms) = record { handed = []; ending = body_stalled }
receive_all limit (suc n) total (some m ∷ ms) =
    let rest = receive_all limit n (total + length m.body) ms in
    if ltb limit (total + length m.body)
    then record { handed = []; ending = body_too_large }
    else hand m (if m.more_body then rest else record { handed = []; ending = received })

-- `asks`: the most messages it receives. `begins`: whether it has begun its response once it has
-- been handed these messages. `responds`: its status and response at the end. `catches`: the
-- response with which it ends if it catches the exception that `counting_receive` raises, as an
-- `except Exception` in it does; `none` if the exception leaves it. It receives no more after one.
pub record Application : Type 0 where
  pub asks : ℕ
  pub begins : List Message → Bool
  pub responds : List Message → Ident
  pub catches : Ending → List Message → Option Ident

-- What the client gets: the application's response, a problem with a status, or a response that
-- breaks off.
pub data Response : Type 0 where
  answered : Ident → Response
  problem : ℕ → Response
  broken_off : Response

abbrev pub reject_unless : Bool → ℕ → Response
reject_unless true status = broken_off
reject_unless false status = problem status

-- `except _BodyTooLarge` and `except _BodyStalled`: what the application has let out.
abbrev pub escape : Application → List Message → ℕ → Option Ident → Response
escape app handed status none = reject_unless (app.begins handed) status
escape app handed status (some response) = answered response

abbrev pub respond : Application → Ending → List Message → Response
respond app received handed = answered (app.responds handed)
respond app body_too_large handed = escape app handed 413 (app.catches body_too_large handed)
respond app body_stalled handed = escape app handed 408 (app.catches body_stalled handed)

-- `ErrorHandlerMiddleware.handle` (app/api/middleware/error_handler.py) around an application: an
-- exception that leaves it is answered by `http_response`, unless the response has begun, when it
-- is raised again.
unfoldable pub error_handler : (Ending → Ident) → Application → Application
error_handler http_response app = record app {
  catches = λ e handed. elim (app.catches e handed) [
    | none ↦ if app.begins handed then none else some (http_response e)
    | some response ↦ some response
  ];
}

-- The declared `Content-Length`, where it is a number.
abbrev pub is_declared_over : ℕ → Option ℕ → Bool
is_declared_over limit none = false
is_declared_over limit (some n) = ltb limit n

-- For an HTTP request; others pass.
unfoldable pub handle : ℕ → Option ℕ → Application → List (Option Message) → List Message × Response
unfolding receive_all
handle limit declared app ms =
    if is_declared_over limit declared
    then ([], problem 413)
    else let c = receive_all limit app.asks 0 ms in (c.handed, respond app c.ending c.handed)
