-- ===== src/Middleware/BodyLimit/Tests.antt =====
-- Uploads of two chunks against a limit of five bytes (app/api/middleware/body_limit.py).
use fast_api_boiler_plate.Base.{◌≡◌, refl, false, Option, none, List, [], ◌∷◌, length}
use fast_api_boiler_plate.Middleware.BodyLimit.{
  Message, Application, answered, problem, handle, receive_all,
}
use fast_api_boiler_plate.Middleware.BodyLimit.Whole.{messages, sent}

-- Its answer is how many messages it was handed.
abbrev app : Application
app = record { asks = 9; begins = λ ms. false; responds = λ ms. length ms; catches = λ e ms. none }

read_whole : (handle 5 none app (sent (messages (1 ∷ 2 ∷ []) ((3 ∷ 4 ∷ []) ∷ [])))).1 ≡ answered 2
unfolding handle receive_all
read_whole = refl

stalled : (handle 5 none app (none ∷ [])).1 ≡ problem 408
unfolding handle receive_all
stalled = refl

-- Three bytes and three: behind the error handler the client gets that handler's response, here 500.
abbrev over : List (Option Message)
over = sent (messages (1 ∷ 2 ∷ 3 ∷ []) ((4 ∷ 5 ∷ 6 ∷ []) ∷ []))
