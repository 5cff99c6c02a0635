-- ===== src/Http.antt =====
-- lib/library/http.ts of deedlit.dev.comfyhelper: what `handleRoute` makes of a handler's outcome.
use deedlit_dev.Base.{ℕ, List, [], ◌∷◌, Text, codes}

pub data Answer : Type 0 where
  response : ℕ → Text → Answer
  json_error : Text → ℕ → Answer

-- What a handler may throw: a ZodError with the messages of its issues, an Error, anything else.
pub data Thrown : Type 0 where
  zod_error : List Text → Thrown
  error : Text → Thrown
  other : Thrown

pub data Handled : Type 0 where
  answered : Answer → Handled
  threw : Thrown → Handled

unfoldable pub first_issue : List Text → Text
first_issue [] = codes "Invalid request."
first_issue (m ∷ ms) = m

unfoldable pub handle_route : Handled → Answer
unfolding first_issue
handle_route (answered a) = a
handle_route (threw (zod_error issues)) = json_error (first_issue issues) 400
handle_route (threw (error message)) = json_error message 500
handle_route (threw other) = json_error (codes "Internal error.") 500
